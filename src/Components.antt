-- ===== src/Components.antt =====
-- components: requests, responses, and the chain of filters in front of a handler.
pub mod Lookup
pub mod Request
pub mod Response
pub mod Serve
mod Tests
