-- ===== src/Lib.antt =====
-- GenericServer: a small server library in C++ (epoll reactor, timing wheel, TCP server, logger).
--
-- Parts and files. Paths are from the repository's root.
--   Prelude        shared names, lists and numbers; Prelude/Memory models memcpy on a block of
--                  bytes, where an access outside the block is a fault.
--   Buffer         src/Buffer.h, src/Buffer.cpp: the linear buffer with a read and a write
--                  pointer.
--   Ring           src/log/RingBuffer.h, RingBuffer.cpp: the ring between a thread that logs and
--                  the logger's thread: Append, Retrive, Wrap and Stream are about whole calls,
--                  Shared about two threads whose loads, copies and stores interleave.
--   Wheel          src/reactor/Timer.h, Timer.cpp: TimerEntry and TimingWheel. Loop, Rule, Ready,
--                  Due and Early prove facts about one pass over a slot; Fires is about ticks in
--                  a row; Kind, Turn, DueNow, Bag and Sole take the wheel for a bag of
--                  countdowns.
--   Event          src/reactor/Event.h, Event.cpp: the masks of a descriptor and the order in
--                  which handleEvent calls back.
--   Loop           src/reactor/EventLoop.h, EventLoop.cpp, EPollPoller.h, EPollPoller.cpp: a
--                  loop, the functions that other threads may call, and its poller. Deferred is
--                  about the tasks they leave, Wakeup about the interleaving of threads.
--   Connection     src/net/TCPConnection.h, TCPConnection.cpp, Socket.cpp, TCPServer.cpp and
--                  example/EchoServer.h: the handlers of a connection on its loop, and the
--                  server's map. Close, with Timers, Write and Echo are about handleClose,
--                  handleWrite and handleRead, Session, Turns and Rows about rows of reads and
--                  writes.
--   Files          src/log/FileUtil.h, FileUtil.cpp, LogFile.h, LogFile.cpp: files of bounded
--                  size and the change to a new one. Disk is about what files hold after a write,
--                  Rotate about the change.
--   Connector      src/net/Connector.h, Connector.cpp: a client's attempts to connect.
--   Idle           src/net/IdleConnections.h, IdleConnections.cpp and example/EchoServer.h: the
--                  sixty slots of entries that keep idle connections open.
--   Pool           src/reactor/EventLoopThreadPool.h, EventLoopThreadPool.cpp: the loops of the
--                  worker threads, handed out in turn.
--   SysTimer       src/reactor/SystemTimer.h, SystemTimer.cpp: the interval of the timer that
--                  drives a wheel.
--   Convert        src/Util.cpp: the decimal text of an integer.
--   Circular       src/log/-CircularBuffer.h, -CircularBuffer.cpp: a bounded queue of buffers.
--                  Items is about the buffers that wait, Refine about one test of a call, Waits
--                  about rows of calls with a producer that sleeps.
--   Blocking       src/BlockingQueue.h, BlockingQueue.cpp: a queue whose readers wait on a
--                  condition variable.
--   Log            src/log/LogStream.h, LogStream.cpp, LoggerBase.h, Log.h, Log.cpp: a log
--                  statement, its stream and SyncLogger. Stream is about the stream, Lines about
--                  what the appender is given, ToFile about a FileAppender and its files.
--   Async          src/log/Log.h, Log.cpp: AsyncLogger. Drain and Turns are about the logger's
--                  thread, Through about it together with the threads that log, Resend about a
--                  message that does not fit.
--   Address        src/net/InetAddress.h, InetAddress.cpp: the address of a socket, as the bytes
--                  of its union. Fields is about writes of fields, Equal, Text and Hash about
--                  operator==, setAddr with toString, and hash.
--   Client         src/net/TCPClient.h: a client's connections. Stale is about one that was
--                  closed.
--   Server         src/net/Acceptor.cpp, TCPServer.cpp: the listening socket and the choice of a
--                  loop for a new connection. Spread is about a row of them. What the loop does
--                  with the connection is in Connection.
--   Running        src/reactor/EventLoop.cpp, EventLoopThread.h, EventLoopThread.cpp: a loop from
--                  its constructor through its turns to its end in a thread. Steps is about one
--                  turn, Ends about the whole.
--   Echo           example/EchoServer.h: the echo server, with Server, Idle, Connection and the
--                  wheels of its loops. Loops is about its constructor, Clock about the timer of
--                  the idle connections on a wheel, Start about a loop that was just given it,
--                  Timeout about how long an idle connection is kept.
--   Thread         src/-Thread.h: a thread of pthread that is started and joined once.
--
-- How they interact. A loop polls events and runs their callbacks; Loop takes Event for what is
-- polled and Wheel for its timers, and SysTimer is the event whose callback ticks the wheel.
-- Connection stands on Buffer, Event and Loop: a handler changes the connection's buffers, its
-- event, and through modify_event and remove_event what the loop's poller was told. Pool chooses
-- the loop of a new connection, Connector makes one from the client's side, and Idle shuts down
-- those on which nothing comes. Server accepts a connection and lets Pool choose its loop; Client
-- has the connections that a Connector made; Running is the thread in which a loop turns; Echo
-- puts a server together with the idle connections of its loops, which their wheels tick. Log
-- writes a line into a stream of Buffer and gives it to a logger; Async puts the lines of each
-- thread into a Ring, which the logger's thread empties; Files is where they end up.
--
-- Conventions. `none` as the result of an operation is a fault: an access outside a block, a
-- failed assert or an abort. An `int` is a natural number where the code keeps it from being
-- negative, and a ℤ of Prelude/Int elsewhere; sums stay far below 2^31 for the sizes in use and are
-- not wrapped. What the kernel answers is an argument of the operation that asks. Log output of
-- the operations themselves is left out.
--
-- Bounds. Three loops have a bound of turns. The pass of the wheel over a slot (Wheel.tick) gets
-- twice as many turns as there are entries, which suffices for every pass that ends. The emptying
-- of a ring (Async.drain) gets one turn more than bytes wait, and each turn takes one at least.
-- The loop of convert gets one turn more than the absolute value of its number, which each turn
-- divides by ten. The other loops go through a list of entries, of answers of the kernel, or of
-- calls.
--
-- Not modelled: callbacks that change the wheel they are called from, the calls that make and
-- join threads, calls that only pass on to one system call, the console, the clock, the layout of
-- lines, and the tables of http.
pub mod Prelude
pub mod Buffer
pub mod Ring
pub mod Wheel
pub mod Event
pub mod Loop
pub mod Connection
pub mod Files
pub mod Connector
pub mod Idle
pub mod Pool
pub mod SysTimer
pub mod Convert
pub mod Circular
pub mod Blocking
pub mod Log
pub mod Async
pub mod Address
pub mod Client
pub mod Server
pub mod Running
pub mod Echo
pub mod Thread
