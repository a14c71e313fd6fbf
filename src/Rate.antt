-- ===== src/Rate.antt =====
-- internal/api/rate_limiter.go: the sliding windows, the gauges and the limiter over them.
pub mod Window
pub mod Limiter
pub mod Gauge
pub mod Requests
mod Tests
