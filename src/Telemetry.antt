-- ===== src/Telemetry.antt =====
-- api/internal/telemetry
pub mod Metrics
pub mod Setup
