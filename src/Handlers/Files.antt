-- ===== src/Handlers/Files.antt =====
-- xotero/src/handlers/files.rs: the protocol of uploads and the download of files.
pub mod Storage
pub mod Cleanup
pub mod Put
pub mod Post
pub mod Stored
pub mod Registered
pub mod Cleaned
