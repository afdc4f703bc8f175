-- ===== src/Lib.antt =====
-- Verification of sickle, an event library in Rust: a poll over epoll, a readiness queue for events made
-- in user space, a timer wheel, and an event loop that runs a job for each event.
--
-- The parts and where they are modelled:
--   Ready, PollOpt   the flag sets of src/event_imp.rs and src/sys/unix/ready.rs
--   Event            tokens, events and jobs of src/event_imp.rs and src/token.rs
--   Duration         `convert::millis` of src/lib.rs
--   ReadinessState   the packed atomic word of a node, src/poll.rs; `fields` reads it as seven fields
--   Queue            the intrusive queue of nodes, `ReadinessQueue` of src/poll.rs, and its poll
--   Registration     `Registration` and `SetReadiness` of src/poll.rs, which change the word of a node and
--                    hand the node to the queue
--   Awakener         src/sys/unix/awakener.rs: the pipe that wakes the poll
--   Poll             `Poll::poll2` over the selector, the queue and the awakener, and `SelectorId`,
--                    src/poll.rs; Poll/Lock: the lock of `Poll::poll1`, as steps of several threads
--   Selector         src/sys/unix/epoll.rs: the map from descriptors to jobs and the epoll instance
--   LazyCell         src/lazycell.rs
--   Timer            src/timer.rs: the slab, the wheel and its poll; Timer/Wakeup: the thread that sets
--                    the readiness, as steps next to those of `schedule_readiness`; Timer/Slots: the
--                    slots of the wheel as doubly linked lists over the slab; Timer/Register: its
--                    registration as an event source
--   EventLoop        src/net/event_loop.rs: runs the jobs that a poll returns, and drains the timer
--                    (EventLoop/Jobs: a turn of the loop over its poll, and `enqueue_job`;
--                    EventLoop/Builder: builders and pools of loops)
--   Connector        src/net/connector.rs: a connection attempt with its timeout
--   Acceptor         src/net/acceptor.rs: the loop over accepted streams
--   Connection       src/net/connection.rs: the buffers and flags of a connection and its handlers
--   Sockets          src/net/tcp.rs over src/sys/unix: how sockets are made, and that each is for one
--                    selector
--   TcpServer        src/net/tcp_server.rs: the server's connections and the client's connection job
--   NonBlock         the non-blocking reads and writes of src/net/mod.rs
--   Base, Bits       shared names, lists, outcomes, and bits of machine words
--
-- A function keeps the name of its source function. State is passed explicitly: a method through
-- `&mut self` takes the state and returns the new one. `Outcome` is what a run gives: a result, a panic,
-- or `out_of_fuel`. Numbers are naturals; where the source relies on the width of a word, the mask of
-- 64 bits is written out. A slab, a heap of nodes or a map is a function to `Option`.
--
-- What is not under src/ is given by arguments: the answers of the kernel and of the sockets, the clock,
-- the keys of the slab and the addresses of the allocator. A compare-exchange loop takes the values that
-- other threads put into its word, in the order in which they make it fail; a list that is empty is a run
-- without interference. The operations on the queue run one at a time.
--
-- Loops with no bound in their own data run on fuel: `Timer.poll_to` (each round passes an entry or a
-- tick, so the entries and the ticks up to the target bound it), `Queue.poll` and `Queue.drop` (the nodes
-- bound them), and `EventLoop.drain_timer`. Loops over what the world answers recurse on the list of
-- answers.
--
-- The tick of the timer is a natural number; the u64 of the source overflows only in a poll to the
-- largest u64. Operations that write to the awakener's pipe are modelled where the write succeeds.
-- Closures are numbers: what a closure does to the timer of its loop, and what a handler does to the
-- selector of its loop and to its connection, are functions that the state carries.
--
-- The parts meet in `Poll.poll2`, which puts the selector's events before those of the queue, in
-- `EventLoop.Jobs.turn`, which polls, runs what the poll gives, and drops the closures of the events with
-- the registrations that they own (EventLoop/Clear), and in TcpServer, which registers the
-- sockets of its connections with the selector.
--
-- Not modelled: the options, reads and writes of the sockets, which forward to the standard library and to
-- other crates; the pipe and the loading of symbols in src/sys/unix; and the example programs.
pub mod Acceptor
pub mod Awakener
pub mod Base
pub mod Bits
pub mod Connection
pub mod Connector
pub mod Duration
pub mod Event
pub mod EventLoop
pub mod LazyCell
pub mod NonBlock
pub mod Poll
pub mod PollOpt
pub mod ReadinessState
pub mod Ready
pub mod Registration
pub mod Queue
pub mod Selector
pub mod Sockets
pub mod TcpServer
pub mod Timer
