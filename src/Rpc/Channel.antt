-- ===== src/Rpc/Channel.antt =====
-- src/tudou/rpc/binary/BinaryRpcChannel.h and BinaryRpcChannel.cpp: the client's end of a connection.
-- With no `channel` a thread reads the socket and callers block; with one, the event loop does both
-- for coroutines. Each mutex is held over what one definition does. A coroutine that is resumed makes
-- its further calls as later operations. The kernel's results are lists, whose end stands for
-- one more EAGAIN. The parser of a response is a parameter.
mod Write
mod Calls
pub mod Once
pub mod Stalls
pub mod Hangs
mod Tests
unfoldable pub use Write.*
unfoldable pub use Calls.*
