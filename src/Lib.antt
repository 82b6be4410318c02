-- ===== src/Lib.antt =====
-- Tudou, a multi-threaded reactor network framework in C++: models of its parts and proofs about
-- them.
--
-- A TcpServer spreads its connections over the loops of an EventLoopThreadPool and gives them up
-- when it stops. A TcpConnection moves bytes between a socket and two Buffers. BinaryRpcServer takes
-- the bytes of its connections, cuts them into frames by BinaryRpcCodec and gives each request to
-- BinaryRpcRouter, whose response goes back through the connection. HttpServer parses the bytes of
-- its connections by HttpContext, under TLS by TlsConnection, and gives each HttpRequest to
-- HttpRouter, whose handler fills in an HttpResponse that goes back, encrypted if need be.
-- EpollPoller finds the Channels that are ready, and a Channel runs the callbacks of its owner.
-- TimerQueue runs timers by one timerfd of the event loop.
--
--   Tcp/Buffer         the class Buffer (src/tudou/tcp/Buffer.cpp): one definition per method, with the
--                      same name. The storage is a list of bytes, the indices are size_t with their
--                      wrap-around written out. Contents has the readable bytes as a list, Queue the
--                      plain queue that the calls refine.
--   Tcp/Connection     src/tudou/tcp/TcpConnection.cpp on the thread of the loop; Threads has the
--                      calls of others. The branches of send_in_loop are send_directly, send_gathered
--                      and queue; those of on_write are
--                      after_write and flush_file. Callbacks of the client are entries of a list.
--   Tcp/Acceptor       Acceptor.cpp with accept of Socket.cpp and src/base/ScopedFd.h, as a step relation
--                      in which other threads take their turns; accept_idle_connection is close_idle,
--                      retry_accept and reopen_idle.
--   Tcp/Heartbeat      ConnectionHeartbeat.cpp, with the timers of its loop. Single counts these.
--   Tcp/Server         TcpServer.cpp: the tables of connections, the tasks that wait on the loops, the
--                      state and the count. create_connection includes the lambda of on_connect,
--                      shutdown_loop is that of shutdown_connections; start up to the loop is start,
--                      its end finish.
--   Rpc/Protocol       the frame header of src/tudou/rpc/binary/Protocol.h and its bytes on the wire
--   Rpc/Codec          BinaryRpcCodec.cpp: encode and decode; decode's output parameters are in its
--                      result. Frame is the format on plain lists.
--   Rpc/Router         BinaryRpcRouter.cpp: register_service and dispatch
--   Rpc/Server         BinaryRpcServer.cpp: on_message and on_close. Stream is the relation between the
--                      bytes of a connection and the responses.
--   Rpc/Lines          src/tudou/rpc/json/JsonRpcServer.cpp: on_message, which cuts lines; the router
--                      is a parameter. Stream reads the same bytes one at a time.
--   Rpc/JsonRouter     JsonRpcRouter.cpp: the methods, dispatch and dispatch_single, whose checks are a
--                      definition each. Batch has the responses to a batch.
--   Rpc/UnifiedServer  UnifiedRpcServer.cpp: register_service is register_unified, and bridge the handler
--                      that it makes. Tracks compares the two protocols.
--   Rpc/JsonClient     JsonRpcClient.cpp: call. Wire has its two loops, Remote follows a call through
--                      the server and the router.
--   Rpc/Channel        BinaryRpcChannel.cpp: the client. Write has the state and the writes, Calls
--                      CallMethod, on_read and receive_loop; a promise that is set or a coroutine
--                      that is resumed is an entry of a list. Once/Operations mixes the calls of
--                      several threads.
--   Http/Server        src/tudou/http/HttpServer.cpp: the state of a connection and the responses. Events
--                      has the handlers; the stages of on_message are payload_of and serve. What is done
--                      to the connection is a list of effects.
--   Http/Context       HttpContext.cpp: the request that is put together from the callbacks of llhttp,
--                      which are a list. Messages has the messages as the parser sees them.
--   Http/Tls           TlsConnection.cpp: the session, behind a record for OpenSSL
--   Http/Message       HttpRequest.cpp and HttpResponse.cpp
--   Http/Router        HttpRouter.cpp: the routes and dispatch
--   Reactor/Channel    src/tudou/reactor/Channel.cpp: the mask of events and the order of the callbacks
--   Reactor/Poller     EpollPoller.cpp: the table of channels, what the kernel watches, the event list
--   Reactor/ThreadPool EventLoopThreadPool.cpp: get_next_loop
--   Reactor/Loop       EventLoop.cpp: the tasks of a loop as a step relation in which other threads take
--                      their turns; the loop's own thread runs callbacks, or code before or
--                      after loop(). do_pending_functors is take_functors, call_front and
--                      functors_done.
--   Reactor/Timers     EventLoop.cpp: run_at, run_after, run_every and cancel
--   StaticFiles        examples/StaticFileHttpServer/StaticFileHttpServer.cpp: its handler of requests,
--                      in which the HEAD branch is head_response and the last part of resolve_path
--                      resolve_in_base. Confined says which files it opens.
--   Timer/Queue        src/tudou/timer/Timer.cpp and TimerQueue.cpp: the set of times, the table by id,
--                      the setting of the timerfd, and the round that on_timerfd_read makes
--
-- Parameters stand for code outside src/: the kernel's read, write and sendfile, the readings of the
-- clock, the addresses of timers, the services of protobuf and its parser of RpcMeta and its
-- conversion from and to JSON, OpenSSL, llhttp, the JSON library, pread, which sends find a broken
-- connection, what the callbacks of timers ask for, which free descriptor the kernel gives, the file
-- system, the format of dates, and the order of an unordered map.
--
-- The loops of on_message and of on_read and receive_loop run on fuel, one more than the bytes that
-- are there; each request takes a byte at least, so that the fuel does not run out. Those of
-- HttpServer have as much fuel as bytes, of the message or of the file, for which pread gives a byte
-- at least or the loop ends. to_string has one digit of fuel more than the number.
--
-- Not modelled: threads but for those of Reactor/Loop, Tcp/Acceptor and Tcp/Connection/Threads, and
-- for the calls of Rpc/Channel (each other part is modelled on the thread of its loop), logging,
-- allocation failure, the loading of certificates, exceptions of HTTP handlers and of the dump of
-- the JSON library, the wrap of timer ids, times of files before 1970, Coroutine, the other
-- examples, and the wrappers of system calls (Socket but for accept, InetAddress, EventLoopThread).
pub mod Prelude
pub mod Tcp
pub mod Timer
pub mod Rpc
pub mod Http
pub mod Reactor
pub mod StaticFiles
