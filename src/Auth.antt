-- ===== src/Auth.antt =====
-- auth/: OIDC authentication. The parts follow the source's files.
pub mod Claims
pub mod Roles
pub mod Idp
pub mod Errors
pub mod Config
pub mod Provider
pub mod Jwks
pub mod Introspection
pub mod Service
pub mod Middleware
pub mod Example
mod Tests
