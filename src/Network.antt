-- ===== src/Network.antt =====
-- backend/src/metrics/NetworkMonitor.{hpp,cpp}. The file and the time are arguments of each call.
mod Parse
mod Monitor
pub mod Interfaces
pub mod Rows
mod Examples
unfoldable pub use Parse.*
unfoldable pub use Monitor.*
