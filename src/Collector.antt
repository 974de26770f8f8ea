-- ===== src/Collector.antt =====
-- backend/src/MetricsCollector.{hpp,cpp}: the monitors together.
mod State
mod Steps
mod Run
pub mod Errors
pub mod Contents
mod Examples
unfoldable pub use State.*
unfoldable pub use Run.*
