-- ===== src/Http.antt =====
-- backend/src/server/HttpFileHandler.{hpp,cpp}. The file system is a parameter of the model.
mod Mime
mod Files
pub mod Types
pub mod Checks
mod Examples
unfoldable pub use Mime.*
unfoldable pub use Files.*
