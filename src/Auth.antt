-- ===== src/Auth.antt =====
-- auth/: Google login, sessions, and the middleware in front of every route.
pub mod Paths
pub mod Sessions
pub mod Middleware
pub mod Login
pub mod Tests
