-- ===== src/Main.antt =====
-- backend/src/main.cpp. The flag of the signal handler is read by the main thread alone; the thread of
-- the io_context runs between the broadcasts.
mod Args
mod Loop
mod Command
pub mod Ports
pub mod Stops
pub mod Startup
pub mod Reports
pub mod Subscribers
pub mod Service
pub mod Scene
mod Examples
unfoldable pub use Args.*
unfoldable pub use Loop.*
unfoldable pub use Command.*
