-- ===== src/Http.antt =====
-- xotero/src/http: request paths, headers, bodies and the authentication middleware.
pub mod Validation
pub mod Body
pub mod Middleware
pub mod Limits
pub mod Access
pub mod Headers
pub mod Echo
