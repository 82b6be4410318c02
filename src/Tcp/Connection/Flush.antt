-- ===== src/Tcp/Connection/Flush.antt =====
-- src/tudou/tcp/TcpConnection.cpp: on_write, with no file behind the buffer.
use tudou.Tcp.Buffer.{Buffer}
