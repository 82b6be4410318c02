-- ===== src/Tcp.antt =====
-- tudou/tcp: the buffers and connections of the TCP layer.
pub mod Buffer
pub mod Connection
pub mod Server
pub mod Acceptor
pub mod Heartbeat
