-- ===== src/Lib.antt =====
-- netframe: a network library in the reactor style, and a small counting server.
--
-- The parts and how they interact. An EventLoop waits in its EPollPoller, runs the callbacks of the
-- Handlers that are active, and then the functors that were queued for its thread. A TcpServer
-- listens by an Acceptor, gives each new TcpConnection a loop of its EventLoopThreadPool, and hands
-- the work to that loop. A TcpConnection keeps two Buffers, reads into one and sends from the other.
-- PollingServer is an older server over one epoll descriptor.
--
-- Which file models which part:
--   Buffer (Buffer.h, Buffer.cpp): the vector as a list of bytes, the two indices, and every
--     operation. A failed assertion, an access outside the vector and a vector that is too long are
--     errors of Base.Outcome; size_t wraps at 2 ^ 64. Its children: Contents (the invariant and the
--     readable bytes), Space (room for more), Ops (what each operation does to the readable bytes),
--     Socket (readFd), Crlf (findCRLF), Ints (integers in network order), Wire (their round trip),
--     Queue (sequences of operations), View (what a client can know of a buffer, as a quotient).
--   Epoll, Handler (Handler.h, Handler.cpp): the mask of events and the dispatch of an event;
--     Handler.Dispatch says which masks occur.
--   Poller (EPollPoller.cpp): the map of handlers, their states, and the log of epoll_ctl calls;
--     Poller.Sync relates the three, Local says what one handler's calls leave alone, and Growth is
--     about the list of events.
--   Connection (TcpConnection.cpp): the connection with its handler and poller; Watch (the handler
--     is watched for writing while output waits), Told (what the client is told), Stream (sending),
--     Drain (handleWrite and the delayed shutdown, and in Empty the
--     writes until nothing waits), Lifecycle (closing and destroying). Life has
--     every sequence of calls on one connection, with Shape (what holds in each state), Begins,
--     Calls, Ends and Steps (each call), and Reach (the whole life). Local says what a connection does
--     to the poller; Hosts puts many connections and other handlers on one loop, with Apart (what one
--     of them knows of the others) and Streams (what each keeps). Events is Handler::handleEvent with
--     the connection's own callbacks, with Steps, HangUp and Effects (what an event adds to the log).
--     Message is the send that takes a Buffer.
--   EventLoop (EventLoop.cpp): the queue of functors and the eventfd; Interleave puts the loop thread
--     and other threads together, an access to shared state at a time, where what one functor or
--     handler queues is one step. Run is loop() with the poller, its active handlers and
--     removeHandler, where each round's events and calls are an input; Calls, Quit, Lost (a quit
--     before loop) and Remove are about them. Interleave.Quit adds to the interleaving the entry of
--     loop, its test, its return and quit; Heard and Reaches are about it. Current is the loop that a
--     thread knows as its own, with Lives. Lifetime is the constructor and the destructor with the
--     descriptors of the poller and the eventfd, and Serve a loop with an acceptor on it.
--   LoopThread (EventLoopThread.cpp, with the lock of Mutex.h and the signal of Condition.h): the
--     start of a loop in a new thread; Handshake has the steps and the invariant of the two threads,
--     Progress how far they still have to go. Exit is the end of threadFunc and the destructor, and
--     Join and Dangling say when they meet, and when they miss each other.
--   Socket (Socket.cpp, SocketOps.cpp): the calls that set a socket up and close it, on the system
--     calls as a parameter. SetUp (Acceptor.cpp) is the acceptor's constructor, listen and destructor with
--     them; Listens says what they do when a call fails, and Descriptors which descriptors are open.
--   Thread (Thread.cpp, include/CurrentThread.h): the Thread object and the cached thread id.
--   Mutex (Mutex.h, Condition.h): the holder field, with the owner and the waiting threads that the
--     pthread calls keep; the results of pthread_mutex_init and pthread_mutex_destroy are inputs.
--   SocketOps, InetAddress (SocketOps.cpp, InetAddress.cpp): the errno after accept, addresses and
--     their text. TimeStamp (timestamp.h): intervals.
--   PollingServer.Order (pollingserver.cpp): the table of counts as a quotient. Dialogue: clients that
--     are served one at a time.
--   PollingServer.Service (pollingserver.cpp): the set-up, the loop of Run and the line of text, with
--     Run, Line and Closes (which descriptors are closed).
--   PollingServer.Polling (Polling.cpp): the life of its epoll descriptor.
--   ThreadPool (EventLoopThreadPool.cpp), Acceptor (Acceptor.cpp, Socket.cpp), TcpServer
--     (TcpServer.cpp), PollingServer (pollingserver.cpp, Polling.cpp), with children for what is
--     shown of them; TcpServer.History is a server from its constructor on, and
--     TcpServer.Lifetime how long a connection lives when the server has one loop, with Reuse.
--   Demo (main.cpp): the callbacks of test_TcpServer; Repeats runs them over the life of a connection.
--     Timer is test1, with Fires, Answer is test_Acceptor, and Threads is test_EventLoopThread.
--   Tests: the theorems at concrete inputs. Base: shared names, lists and results.
--
-- How code corresponds to definitions. A function keeps its name in the spelling of this language.
-- A method takes the object and returns the new one. The result of a system call is an argument;
-- what the code asks of the system, or of the client's callbacks, is an entry of a log. The build
-- does not define NDEBUG, so assertions are checked. Printing is left out, but for the complaints
-- of a set-up. No definition uses fuel: loops are recursions on their list or count. The byte order
-- of the machine and the conversions of endian.h are a parameter with their documented laws
-- (Buffer.Ints.Machine), as are the conversions of numbers and addresses to text, and back, and the
-- system calls of a socket's set-up (Socket.System, with the laws
-- Socket.SetUp.Descriptors.Descriptors).
--
-- Bounds. Buffers stay within the longest vector, 2 ^ 63 - 1 bytes, by hypotheses on the calls that
-- may grow them. Counters of type int (connection numbers, the counts of the polling server) are
-- taken not to overflow.
--
-- Not modelled: what happens after pthread_create has failed; SocketOps::connect, read, readv and
-- write, which are one system call each; the arming of the timer of test1; the setters of callbacks
-- and contexts, which nothing reads back; the destructor of PollingServer, which only frees;
-- Exception.cpp, a copy of another library's file; what stands in comments, as
-- PollingServer::EtModel does; and the Python clients. But for those in Demo, a callback of the
-- client is logged and not run, so what it calls on the connection is a further call; the lifetime
-- of a TcpConnection is tracked in TcpServer.Lifetime alone, and elsewhere its `shared_ptr`s are
-- taken to last.
pub mod Acceptor
pub mod Base
pub mod Buffer
pub mod Connection
pub mod Demo
pub mod Epoll
pub mod EventLoop
pub mod Handler
pub mod InetAddress
pub mod LoopThread
pub mod Mutex
pub mod Poller
pub mod PollingServer
pub mod Socket
pub mod SocketOps
pub mod TcpServer
pub mod Tests
pub mod Thread
pub mod ThreadPool
pub mod TimeStamp
