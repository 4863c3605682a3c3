-- ===== src/Unfold.antt =====
-- staticfiles/unfold/js/app.js: the components of the Unfold admin pages.
pub mod History
pub mod Search
pub mod Inlines
pub mod Shell
pub mod Tabs
pub mod Charts
pub mod Widgets
mod Tests
