-- ===== src/Server.antt =====
-- backend/src/server/WebSocketServer.{hpp,cpp}. A pending asynchronous operation is part of a session's
-- state, and each completion is an event that the environment chooses.
pub mod Session
pub mod Hub
pub mod Queue
pub mod Delivery
pub mod Failure
pub mod Registration
pub mod Handshake
pub mod Registry
pub mod Reachable
pub mod Listening
pub mod Clients
mod Replies
pub mod Answers
mod Apart
pub mod Kinds
pub mod Everywhere
pub mod Deadlines
mod Examples
mod Runs
unfoldable pub use Session.*
unfoldable pub use Hub.*
