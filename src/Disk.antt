-- ===== src/Disk.antt =====
-- backend/src/metrics/DiskMonitor.{hpp,cpp}. The file and the time are arguments of each call.
mod Regex
mod Parse
mod Monitor
pub mod Language
pub mod Names
pub mod Devices
mod Examples
unfoldable pub use Regex.*
unfoldable pub use Parse.*
unfoldable pub use Monitor.*
