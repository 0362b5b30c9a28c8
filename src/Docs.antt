-- ===== src/Docs.antt =====
-- The scripts of docs/html.
pub mod Text
pub mod Dom
pub mod Escape
pub mod DynSections
pub mod Menu
pub mod Tests
pub mod Search
