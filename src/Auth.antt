-- ===== src/Auth.antt =====
-- internal/auth: the return path of a sign-in, sessions, admission, and the authorization-code flow.
pub mod Flow
pub mod Next
pub mod Session
pub mod Middleware
