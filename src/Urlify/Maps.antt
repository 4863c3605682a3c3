-- ===== src/Urlify/Maps.antt =====
-- The transliteration tables.
mod European
mod Scripts
pub use European.*
pub use Scripts.*
