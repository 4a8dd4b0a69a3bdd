-- ===== src/Handlers.antt =====
-- xotero/src/handlers: what a request does to the database and what it is answered. A handler gets
-- the access that the middleware selected, and `db` is the database that its statements see.
pub mod Objects
pub mod Metadata
pub mod Items
pub mod Paging
pub mod Preconditions
pub mod Echoed
pub mod Admin
pub mod Files
pub mod Login
pub mod Keys
