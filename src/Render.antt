-- ===== src/Render.antt =====
-- templates/render.go: the writing of texts.
pub mod Escape
pub mod Tree
pub mod Writer
pub mod Html
pub mod Nodes
mod Tests
