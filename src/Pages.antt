-- ===== src/Pages.antt =====
-- components/pages: which page of a directory is served at a path.
pub mod Route
pub mod Tree
mod Tests
