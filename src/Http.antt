-- ===== src/Http.antt =====
-- src/tudou/http: the messages of HTTP, and the routes to the handlers.
pub mod Message
pub mod Router
pub mod Context
pub mod Tls
pub mod Server
pub mod TlsMode
