-- ===== src/Lib.antt =====
-- EventLoop, a C++ network library after muduo: one event loop per thread, over epoll or poll, with
-- timers, buffers, TCP connections and an HTTP server. Paths are those of the repository.
--
-- How the parts modelled here interact. A socket's Channel says what the poller watches the socket for,
-- and calls its owner's callbacks on an event. A TcpConnection owns a channel and two Buffers: it reads
-- from the socket into the input buffer, writes to it what is sent, and keeps the rest in the output
-- buffer while the channel is watched for writing. An HttpContext parses the input buffer into an
-- HttpRequest. An EventLoop polls, calls the channels that are active, then the functors that threads queued;
-- its TimerQueue calls what is due, and its EpollPoller keeps the channels in step with the kernel. A
-- TcpServer makes a connection of each socket that its Acceptor accepts, in a loop that an
-- EventLoopThreadPool chooses, and a TcpClient one of the socket that its Connector connects. An
-- EventLoopThread starts a Thread with a loop, and waits for it at a CountDownLatch and a Condition.
--
-- Prelude: names, Boolean tests and lemmas on lists that all files share; Results has the failed
--   assertions as values, since an `assert` that fails ends the program.
-- Endian: src/Endian.h, the words in network order as bytes.
-- ByteQueue: what a buffer is to its user, a queue of bytes; it stands for no code.
-- Buffer: src/Buffer.h and src/Buffer.cpp. The vector is a list of bytes and the two indices are numbers;
--   `size_t` wraps at 2 ^ 64, and a vector longer than its greatest size is the fault that `resize`
--   throws. `readFd` takes the kernel's answer as an argument. Children: Bounds (valid buffers),
--   Moves (making space), Append, Consume, ReadFd, Search, Shrink, Words, and Refine (against ByteQueue).
-- Http: src/HttpRequest.h (Request), src/HttpContext.cpp (Context) and src/HttpResponse.cpp (Response).
--   Strings are lists of bytes, and a map of headers is a list of pairs; a response has them in the
--   order of their keys, as it prints them. Server is `onConnection`, `onMessage` and `onRequest`
--   of src/HttpServer.cpp, over Context, Response and TcpConnection, with the user's callback as an argument.
-- Channel: src/Channel.h and src/Channel.cpp. The call into the poller that follows each change of the
--   interest is in Poller.Epoll; the models of a channel's owners leave it out.
-- OrderedPairs: a set of pairs of numbers as a sorted list, for std::set; it stands for no code.
-- TimerQueue: src/TimerQueue.cpp and src/Timer.cpp. Addresses and times are numbers, the heap is a function
--   of addresses, and a timer's callback is a function of the queue. Children: Linked (the two sets agree),
--   Changes, Expired, Reset, Rounds.
-- Poller: src/Poller.h (Store) and src/EPollPoller.cpp (Epoll). The channels are a store by address; the
--   kernel's set is a parameter, with what epoll_ctl(2) says of it. Children of Epoll: Synced, Changes,
--   Removal, Active. PollPoller is src/PollPoller.cpp, an array for poll(2), whose answer is an argument; Slots
--   and Indexed (the array and the map agree), Changes, Removal and Active are about it.
-- EventLoop: src/EventLoop.cpp, the functors and the wakeups; Order is about any order of threads' steps.
-- Connector: src/Connector.cpp, with what the kernel answers as arguments. Sockets, Life and Backoff are about it.
-- EventLoopThreadPool: src/EventLoopThreadPool.cpp, over loops of any type; Turns is about it.
-- SocketsOps: accepting, of src/SocketsOps.cpp. Acceptor: src/Acceptor.cpp, with what the kernel answers as
--   arguments; Descriptors and Exhausted are about it.
-- TcpServer: src/TcpServer.cpp, over Acceptor and EventLoopThreadPool: Names (of connections), Table, Serving
--   and Life are about it.
-- TcpClient: src/TcpClient.cpp, over Connector and TcpConnection. Calls and Attempts are about those two, Single,
--   Events, Life and Reconnect about the client.
-- MutexLock: src/MutexLock.h and src/Condition.h; Holder is about it. CountDownLatch: src/CountDownLatch.cpp.
-- Thread: src/Thread.cpp. EventLoopThread: src/EventLoopThread.cpp, the owner and the new thread as steps in any
--   order (Steps); Handshake and Hangs are about it.
-- StringPiece: src/StringPiece.h; Order is about it. Where a length becomes negative, the model ends.
-- Date: src/Date.cpp, in natural numbers; RoundTrip is about it, for days where no int of the source overflows.
-- TimeZone: src/TimeZone.cpp, the search for a local time (Search is about it), and Utc the fields of a time.
--   ZoneFile reads a zone's file, a list of bytes, with a monad of readers that may throw; Print writes such a
--   file. Local is the local time of a time and back, over gmtime_r(3) and timegm(3) as parameters.
-- TcpConnection: src/TcpConnection.h and src/TcpConnection.cpp. State has the fields,
--   Send, Close and Events the operations, Machine the constructor and any event; Stream, Draining and
--   Closing are about them. Posted has what other threads send. The bytes taken by the kernel and the
--   callbacks called are lists beside the fields, in the order of the source.
--
-- Fuel: only `parseRequest` loops without a bound in sight. It takes a number of rounds, and returns
-- nothing when they run out. A printed number has at most 20 digits, enough below 2 ^ 64.
--
-- Not modelled: time stamps, addresses, files and processes; socket calls but for accepting, whose
-- answers are arguments; the example programs. Printed messages are left out, and so is the capacity of
-- a vector, which its allocator chooses.
pub mod Prelude
pub mod Endian
pub mod ByteQueue
pub mod Buffer
pub mod Http
pub mod Channel
pub mod TcpConnection
pub mod OrderedPairs
pub mod TimerQueue
pub mod Poller
pub mod EventLoop
pub mod Connector
pub mod EventLoopThreadPool
pub mod Date
pub mod TimeZone
pub mod TcpServer
pub mod CountDownLatch
pub mod Thread
pub mod EventLoopThread
pub mod TcpClient
pub mod SocketsOps
pub mod Acceptor
pub mod StringPiece
pub mod MutexLock
