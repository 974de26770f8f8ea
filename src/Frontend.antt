-- ===== src/Frontend.antt =====
-- frontend/src: the parts of the dashboard that keep a state.
mod Page
mod Service
mod Escape
mod History
mod Table
mod Insertion
pub mod Clicks
pub mod Shown
pub mod Orders
pub mod Rows
mod Outcome
mod Sockets
pub mod Steady
mod Events
pub mod Lasting
pub mod Reconnects
pub mod Ended
pub mod Telling
pub mod Told
pub mod Dashboard
mod Examples
mod Runs
