-- ===== src/Http.antt =====
-- The HTTP side: the response of a request, its strings, its request line, its path, and the routes.
pub mod Response
pub mod Str
pub mod Request
pub mod Path
pub mod Receive
pub mod Connection
pub mod Handle
pub mod Router
mod Tests
