-- ===== src/Text.antt =====
-- What the sources use of std::string and of std::istream, over bytes.
mod Strings
mod Extraction
mod Columns
mod Lines
mod Search
mod Decimal
mod Examples
unfoldable pub use Strings.*
unfoldable pub use Extraction.*
unfoldable pub use Columns.*
unfoldable pub use Lines.*
unfoldable pub use Search.*
unfoldable pub use Decimal.*
