-- ===== src/Lib.antt =====
-- A verification library for the io_uring bindings, the rings shared with the kernel, and the tokio
-- reactor on top of them.
--
-- The parts of the program, from the bottom. `io-uring-sys` has the types of the kernel's interface;
-- `io-uring` keeps the two rings, of submissions (the process writes, the kernel reads) and of
-- completions (the other way round); `tokio-uring-reactor` has one thread that turns completions into
-- wake-ups of tasks: futures put entries into the submission ring with the address of a shared cell as
-- `user_data`, the reactor waits in `io_uring_enter`, and each completion finishes the cell at its
-- `user_data`. Other threads end the reactor's wait through `Unpark`.
--
--   Prelude               names of the libraries passed on; Boolean tests, arrays as lists, machine
--                         integers, `Result`, `Outcome` (a call that can panic), bit masks
--   Sys.Calls             io-uring-sys/src/lib.rs: the wrappers of the system calls
--   Sys.Operation, Sys.Priority, Sys.Flags, Sys.Entry, Sys.Setup
--                         io-uring-sys/src/lib.rs and submission.rs: opcodes, priorities, flags,
--                         submission and completion entries, the parameters of the set-up
--   Sys.Fill              io-uring-sys/src/submission.rs: the methods of `SubmissionEntry` that fill it;
--                         Command describes what an entry says, Readback and Overwrite relate the two
--   Ring.Submission       io-uring/src/lib.rs, `SubmissionQueue` and `BulkSubmission`: Valid is the
--                         invariant, Submit the refinement of a bounded queue, Pending what is
--                         published and counted, Bulk several calls with one flush, Kernel the
--                         interleavings with the kernel
--   Ring.Completion       io-uring/src/lib.rs, `CompletionQueue` and `BulkCompletion`, likewise
--   Ring.Setup            io-uring/src/lib.rs, the constructors of both queues on mapped memory
--   Uring                 io-uring/src/lib.rs, `Uring` and `UringFile`, and mmap.rs: what the set-up opens and
--                         releases (Release), the queues that it gives (Fresh), and that their slots lie
--                         in the mappings (Bounds)
--   Ring.Slots, Ring.Window
--                         the slots and the contents of a ring whose positions go round at 2 ^ 32
--   Reactor.Registration  tokio-uring-reactor/src/registration.rs: the cell that a future shares with the
--                         completion of its operation
--   Reactor.Park          tokio-uring-reactor/src/unpark.rs: the parking thread and unparking threads, as
--                         a step relation with one step for each access of an atomic
--   Reactor.State         tokio-uring-reactor/src/reactor.rs, `CompletionState`; InFlight says what the
--                         kernel still has to complete
--   Reactor.Queue         tokio-uring-reactor/src/reactor.rs, `Inner` and its `queue_` methods
--   Reactor.Turn          tokio-uring-reactor/src/reactor.rs, `check_completions` and `park_inner`
--   Reactor.Transfer      tokio-uring-reactor/src/reactor/async_read.rs and async_write.rs
--   Reactor.Readiness     tokio-uring-reactor/src/reactor/async_poll.rs
--   Reactor.Build         tokio-uring-reactor/src/reactor.rs and unpark.rs: `Reactor::new`
--   Reactor.Net           tokio-uring-reactor/src/net.rs: the stream of a listener's connections
--   Reactor.Socket        tokio-uring-reactor/src/io.rs and lib.rs: sockets and their halves
--   Echo.Timeout          echo-async/src/timeout.rs: a future with a time limit
--   Echo.Connection       echo-async/src/main.rs: the loop of one connection
--   Reactor.World         the reactor, its reads and writes, the kernel and the other threads as one step
--                         relation: Owners counts the owners of cells, Good is the invariant, Turns,
--                         Begin and Futures that each step keeps it, Call a whole turn with what happens
--                         during its system call, Effect and Way what happens to a completion, Safety,
--                         Deliver and Progress what follows
--   Reactor.Handle        tokio-uring-reactor/src/reactor.rs, `Reactor` and `Handle`, and lib.rs
--   Runtime               tokio-uring/src/lib.rs: `Runtime`; Runtime.Entered its methods of `Entered`,
--                         Runtime.Calls those of `Runtime` that run the executor, with the handle of the
--                         current reactor (Calls.Reset) and what is run (Calls.Blocking)
--   the modules Tests     the theorems at concrete inputs
--
-- State. A record has the fields of the struct and, under the names of its pointers, the contents of the
-- memory that they point to; a method takes the record and returns the new one beside its result. The
-- cells that `user_data` points to stand on a heap, a function from addresses to cells with their
-- reference counts; an access through an address without a cell is the outcome `undefined`, an
-- assertion that fails is `panicked`. A `uN` is a number, and its arithmetic has the modulus written
-- out. A flag `checks` says whether the build has overflow checks. The polls take what they leave in the
-- cell, a task or a waker; the methods for wakers are in the modules Wakers besides, and
-- Reactor.Wakers compares the two.
--
-- Bounds and fuel. Rings have 2 ^ k slots with k at most 31, so that the distance of two positions
-- tells an empty ring from a full one; the kernel allows far fewer. The loop over completions has fuel
-- for its rounds, and the theorems ask for more than there are unread completions or slots: each round
-- takes one. `active_wait` counts objects in memory and does not reach 2 ^ 64.
--
-- Parameters and assumptions. The kernel's side of a ring is a step relation that takes or adds an
-- entry where the interface allows it; `io_uring_enter` is a parameter of `park_inner`. The atomics
-- of Reactor.Park are as weak as the source asks for: what the swap in `Unpark::unpark` wrote is seen by
-- other swaps at once and by the load in `Park::enter` at some later time, and the load in `unpark` may
-- read `true` after the relaxed store that withdraws it. The other memory accesses are taken as
-- sequentially consistent. read(2) on the pipe of a `Park` returns, since it is called only after the
-- kernel found the pipe readable and nobody else reads it. The results of completions are `i32`, whose
-- negation is taken to wrap at `i32::MIN`, as in a build without overflow checks. Which completions may come is the relation `Completes`: the kernel answers only what
-- is in flight, once. In Reactor.World that is not assumed: there the kernel takes entries from the
-- ring, answers those that it holds, each once and in any order, or drops an answer when the ring has no
-- room, and its answers are shown to be of what is in flight. The allocator gives addresses that are
-- even, not 0 and not in use. The futures there are reads and writes.
--
-- In Uring and Reactor.Build the answers of the system calls and the contents of mapped memory are
-- parameters, the process's open descriptors and mappings are counted, and `munmap` and `close` are
-- taken to succeed. In Reactor.Net the answers of `accept` and of the stream of readiness are lists, in
-- Echo.Connection those of the reads and writes; in Echo.Timeout the inner future and tokio's `Delay`
-- are parameters. In Runtime the executor, the timer and the token of an executor are the record `Tokio`
-- of the operations that the source calls, each of which may change its thread in any way and may
-- unwind.
--
-- Not modelled: the system calls behind their wrappers, the pipe's and the timer's files but for their
-- descriptors and state, the drop of a reactor with operations in flight, readiness polls among the
-- steps of Reactor.World, `Debug` and logging, the conversions of sockets, and what the example programs
-- do besides a connection and its time limit.
pub mod Prelude
pub mod Sys
pub mod Ring
pub mod Uring
pub mod Reactor
pub mod Runtime
pub mod Echo
