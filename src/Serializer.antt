-- ===== src/Serializer.antt =====
-- backend/src/Serializer.{hpp,cpp}. The printing of the tree, nlohmann::json::dump, is a parameter.
pub mod Json
mod Build
pub mod Decode
pub mod RoundTrip
mod Shape
pub mod Typed
mod Examples
unfoldable pub use Build.*
