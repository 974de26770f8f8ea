-- ===== src/Cpu.antt =====
-- backend/src/metrics/CpuMonitor.{hpp,cpp}. A file that is read is an argument, `none` when it cannot
-- be opened; `sample` returns the new state also when it throws.
mod Stat
mod Load
mod Monitor
pub mod Usage
pub mod Parse
pub mod Cores
mod Examples
unfoldable pub use Stat.*
unfoldable pub use Load.*
unfoldable pub use Monitor.*
