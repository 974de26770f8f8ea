-- ===== src/Memory.antt =====
-- backend/src/metrics/MemoryMonitor.{hpp,cpp}. The monitor has no state; /proc/meminfo is an argument.
mod Fields
mod Monitor
pub mod Bounds
pub mod Parse
mod Examples
unfoldable pub use Fields.*
unfoldable pub use Monitor.*
