-- ===== src/Web.antt =====
-- What stands around the routes: src/middleware and src/shared/filters.
pub mod Ascii
pub mod BasicAuth
pub mod Entry
pub mod Failures
pub mod Correlation
