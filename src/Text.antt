-- ===== src/Text.antt =====
-- What the scripts use of JavaScript strings: a string is its list of UTF-16 code units. Regular
-- expression classes, trimming, and the case mapping, which is the host's.
mod Classes
pub mod Case
pub mod Trim
pub mod Search
pub mod Replace
pub mod Decimal
pub use Classes.*
pub use Case.{CaseMapping, IsSettled, ascii_case}
