-- ===== src/Info.antt =====
-- backend/src/metrics/SystemInfo.{hpp,cpp}: the name of the operating system and of the kernel.
mod Release
mod Kernel
mod Gather
pub mod Names
pub mod Counts
mod Examples
unfoldable pub use Release.*
unfoldable pub use Kernel.*
unfoldable pub use Gather.*
