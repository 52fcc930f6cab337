-- ===== src/Middleware.antt =====
-- api/internal/middleware
pub mod Auth
pub mod RequestId
pub mod ResponseWriter
pub mod AccessLog
pub mod Tracing
