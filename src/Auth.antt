-- ===== src/Auth.antt =====
-- internal/auth/auth.go: the caller's identity in a context, the token registry, and the middleware
-- `authenticate` of internal/sse/sse.go and internal/dashboard/dashboard.go.
pub mod Caller
pub mod Tokens
pub mod Middleware
mod Tests
