-- ===== src/ApiDocs.antt =====
-- staticfiles/rest_framework/docs/js/api.js: the interactive pages of the API's documentation.
pub mod Header
pub mod Params
pub mod Response
pub mod Explorer
pub mod Session
mod Tests
