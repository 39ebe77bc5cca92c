-- ===== src/Lib.antt =====
-- The verification of summer, a network library in the reactor style: event loops over a poller,
-- connections with buffers, and a publish/subscribe hub on top of them.
--
-- An event loop calls the handlers of the channels that the poller found ready. A channel belongs
-- to a connection, a connector, an acceptor, the timer queue or the loop's own wake-up descriptor.
-- A connection reads into its input buffer, calls the message callback, and writes from its output
-- buffer; the hub's callbacks parse the input and send to other connections.
--
-- Each part of the program has a file here, and what is proved of it the files below that one:
--   * Prelude: the names and lemmas that the parts share, and the outcome of a call: a value, a
--     failed `assert` (`aborted`), or behaviour that C++ leaves open (`invalid`).
--   * Buffer: net/Buffer.h and net/Buffer.cc. The vector is the list of its bytes, the two indices
--     are numbers; `writeableBytes() + more` wraps round as `size_t` does.
--   * Codec: `parseMessage` of net/hub/codec.cc over that buffer. The strings that it assigns are
--     passed in and returned. Codec/Requests has the request texts of net/hub/pubsub.cc.
--   * Channel: net/Channel.h and net/Channel.cc, the masks and the callbacks of an event. A mask has a
--     field for each bit, since the numbers of the bits are the system's.
--   * Connection: net/TcpConnection.h and net/TcpConnection.cc. A handler returns the new state and
--     what it did outside in order; what `write` and `readv` answer is an argument. Sequences of
--     calls are a relation in Connection/States and a run in Connection/Shutdown.
--   * Pool: net/EventLoopThreadPool.h and net/EventLoopThreadPool.cc, the choice of a loop.
--   * Connector: net/Connector.h and net/Connector.cc. Connector/World puts the handlers in a world
--     that keeps what the loop has still to call.
--   * Hub: the server of net/hub/hub.cc. The loop of `onMessage` runs on fuel, a round for each byte
--     and one more, which Hub/Messages proves to be enough.
--   * TcpServer: net/TcpServer.h and net/TcpServer.cc, the map of connections and their names. The
--     number of a connection stays below the limit of an `int`.
--   * PubSubClient: net/hub/pubsub.h and net/hub/pubsub.cc, with the loop of `onMessage` on fuel, a round
--     for each message and one more.
--   * TimerQueue: net/TimerQueue.h, net/TimerQueue.cc and net/Timer.h, over time stamps of
--     base/Timestamp.h as numbers of microseconds. A pointer is a number, with a heap of what is
--     allocated. The sets are ascending lists, from Prelude/Pairs.
--   * PollPoller and EpollPoller: the files of net/poller. The kernel's part is an argument, and for
--     `epoll_ctl` a parameter with what its manual says as hypotheses, which a test instantiates.
--   * EventLoop: net/EventLoop.h and net/EventLoop.cc, as steps of the loop's thread and others;
--     another thread queues a functor and wakes the loop up in two steps.
--     EventLoop/Owners has the loops of all threads, and EventLoop/Timers the timers that a loop sets.
--   * LoopThread: net/EventLoopThread.h and net/EventLoopThread.cc, as steps of the thread that starts the
--     loop and of the new one, in any order.
--   * Latch: base/CountDownLatch.h and base/CountDownLatch.cc, as steps of any number of threads over a
--     lock and a condition; wake-ups for no reason are among them. The count does not overflow an `int`.
--   * TcpClient: net/TcpClient.h and net/TcpClient.cc over its connector, in a world as in Connector/World.
--   * Acceptor: net/Acceptor.h and net/Acceptor.cc with `Socket::accept`; Acceptor/Serving puts it before a
--     server.
--   * Sockets: net/SocketOpts.cc and net/InetAddress.cc. The answers of the system calls are arguments; the
--     conversions of addresses are a parameter with what their manuals say as laws, and Sockets/Machine is
--     one for tests.
--   * Timestamp, Logging, Atomic and Thread: the files of base with these names. Decimal is what `snprintf`
--     prints of numbers. Atomic numbers have a width as an argument, and wrap round as the processor does.
--   * HubPrograms: net/hub/pub.cc and net/hub/sub.cc, their arguments and callbacks; `atoi` is a parameter.
--
-- Not modelled: `connect` of net/SocketOpts.cc and the socket options of net/Socket.cc, which only pass
-- their arguments on; the constructors of base/Mutex.h and base/Condition.h, which wrap the pthread library, while
-- their waiting is in Latch and LoopThread; callbacks that are only copied and addresses that are only
-- handed on; delays as `double`, of which the product in microseconds is an argument; and the programs
-- under test and the two echo examples.
pub mod Prelude
pub mod Buffer
pub mod Codec
pub mod Channel
pub mod Connection
pub mod Pool
pub mod Connector
pub mod Hub
pub mod TimerQueue
pub mod PollPoller
pub mod EpollPoller
pub mod EventLoop
pub mod PubSubClient
pub mod TcpServer
pub mod Decimal
pub mod Timestamp
pub mod Logging
pub mod Atomic
pub mod Thread
pub mod Latch
pub mod LoopThread
pub mod Sockets
pub mod Acceptor
pub mod TcpClient
pub mod HubPrograms
