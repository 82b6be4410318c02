-- ===== src/Rpc.antt =====
-- tudou/rpc: the binary RPC protocol.
pub mod Protocol
pub mod Codec
pub mod Router
pub mod Server
pub mod Lines
pub mod JsonRouter
pub mod JsonClient
pub mod UnifiedServer
pub mod Channel
