-- ===== src/Handler.antt =====
-- api/internal/handler
pub mod OAuth
pub mod Token
pub mod Probes
