-- ===== src/Process.antt =====
-- backend/src/metrics/ProcessMonitor.{hpp,cpp}. What the system gives (files, the directory, sysconf,
-- the user database) is an argument; std::sort is a parameter.
mod Names
mod Stat
mod User
mod Monitor
mod Ranking
pub mod RoundTrip
pub mod Top
pub mod Cache
pub mod Insertion
pub mod Living
pub mod Samples
mod Runs
mod Examples
unfoldable pub use Names.*
unfoldable pub use Stat.*
unfoldable pub use User.*
unfoldable pub use Monitor.*
unfoldable pub use Ranking.*
