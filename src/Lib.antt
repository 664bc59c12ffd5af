-- ===== src/Lib.antt =====
-- CEventLoop: a C++ library of TCP servers and clients over poll(2), one event loop to a thread.
--
-- The parts, their files, and how they interact (paths from the repository's root):
--   Buffer: CEventLoop/Buffer.h, Buffer.cc. The bytes of a connection, in a vector with two indices.
--     Buffer/Queue is the queue of bytes that it stands for.
--   Channel: CEventLoop/Channel.h, Channel.cc. A descriptor, the events that it asks for, callbacks.
--   Poller: CEventLoop/Poller.h, Poller.cc, and the calls by which a channel registers. It owns the
--     array that poll(2) reads and the map from descriptors to channels; a channel holds its index.
--   EventLoop: CEventLoop/EventLoop.h, EventLoop.cc. The `while` loop with its queue of functors and
--     the eventfd. EventLoop/Threads interleaves the loop's thread with the others. EventLoop/Turn is the
--     part of a turn that calls the channels, over Poller and Channel.
--   ThreadPool: CEventLoop/EventLoopThreadPool.h, EventLoopThreadPool.cc. The io loops in turn.
--   TimerQueue: CEventLoop/Timestamp.h, Timer.h, TimerQueue.h and their .cc files.
--   TcpConnection: CEventLoop/TcpConnection.h, TcpConnection.cc. A connection with its two buffers and
--     its channel in the poller; what it sends, keeps and closes.
--   HttpContext: CEventLoop/Http/HttpContext.h, HttpContext.cc, HttpRequest.h, HttpRequest.cc. The parser
--     of requests, a loop over the input buffer. HttpContext/Execute is the one over llhttp.
--   Acceptor: CEventLoop/Acceptor.h, Acceptor.cc, Socket.h, Socket.cc. The listening socket and the
--     descriptor that is kept back for the time when no other is left.
--   EventLoopThread: CEventLoop/EventLoopThread.cc, EventloopThread.h. How the thread of an io loop tells
--     its maker the address of the loop, from its start to the join.
--   Connector: CEventLoop/Connector.h, Connector.cc. One attempt of a client, and its channel in the
--     poller.
--   SocketsOps, InetAddress: CEventLoop/SocketsOps.h, SocketsOps.cc, InetAddress.h, InetAddress.cc. The
--     bytes of addresses, the test for a connection to oneself, and addresses as text; SocketsOps/Calls is
--     the wrappers of system calls.
--   TcpServer: CEventLoop/TcpServer.h, TcpServer.cc. The connections of a server by name, over the loops
--     of ThreadPool. TcpServer/Registry is the registry that they stand for.
--   TcpClient: CEventLoop/TcpClient.h, TcpClient.cc. A client's connection over TcpConnection, which
--     Connector hands a descriptor to.
--   HttpServer: CEventLoop/Http/HttpServer.h, HttpServer.cc. HttpContext and TcpConnection together.
--   Logging: CEventLoop/Logging.h, Logging.cc. Log statements, from the macro to the output.
--   Exception: CEventLoop/Exception.h, Exception.cc. The stack trace that an exception keeps.
--   Echo: CEventLoop/Test/echo/echo.h, echo.cc. The example: a server and a client that count.
-- TcpServer/Hosting, TcpServer/Departure and TcpServer/Life put TcpServer and TcpConnection together.
-- Prelude holds what they share: results with faults, vectors, maps, bit masks, `int`, text as bytes.
--
-- How the code is read:
--   A call returns its result and the new state, or a fault (Prelude/Faults): a failed `assert`, an
--   `abort`, an access outside an object, a null pointer, an empty `std::function`, an `int` that goes
--   past its end (the number of a server's connections, the numbers of Echo). The number of a client's
--   connections is not bounded. `NDEBUG` is taken to be off. `size_t` is a number below 2 ^ 64 whose sums and differences wrap; descriptors and indices
--   are integers; times are microseconds from the epoch on. A pointer is an address into a heap that is
--   a part of the state. A member that a constructor leaves uninitialised is an argument of it.
--   The system is outside: what `readv`, `write`, `poll`, `connect` and `accept` come to are arguments,
--   the eventfd is a record of operations with the one law that a write makes it readable, and functors
--   and callbacks are values with a function that says what they do. `std::map` is a function where no
--   order is read, and otherwise the list of entries that the comparison leads to. All but Logging and
--   SocketsOps leave out what they log.
--   `EventLoop.loop` is over a schedule of what `poll` brings, where an event is what its callbacks do;
--   EventLoop/Turn takes `poll` and the callbacks of the channels apart. Other loops are over the lists that
--   they walk. `parse_request` has fuel, since its loop need not end: two turns more than there are
--   headers are enough for a complete request. So has the exchange of Echo: any above 1000 is enough.
--   What `sscanf` makes of a line, `inet_ntop` of an address and `__cxa_demangle` of a name is a
--   parameter.
--
-- Not modelled: the vendored llhttp, which is a parameter of HttpContext/Execute, and the main programs
-- and tests.
pub mod Prelude
pub mod Acceptor
pub mod Buffer
pub mod Channel
pub mod Connector
pub mod Echo
pub mod EventLoop
pub mod EventLoopThread
pub mod Exception
pub mod HttpContext
pub mod HttpServer
pub mod InetAddress
pub mod Logging
pub mod Poller
pub mod SocketsOps
pub mod TcpClient
pub mod TcpConnection
pub mod TcpServer
pub mod ThreadPool
pub mod TimerQueue
