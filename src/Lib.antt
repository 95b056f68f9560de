-- ===== src/Lib.antt =====
-- The controller of a vehicular network: it spreads the traffic of the Internet to clients over base
-- stations. This is a model of its code, translated definition by definition, with its theorems.
--
-- One thread reads packets for the clients from a tunnel and puts them into a scheduler; a thread for
-- each contention domain takes them out in rounds and sends them to base stations; one receives
-- statistics from the stations; and one chooses each client's station and hands its throughput to the
-- schedulers, which share the air time by it.
--
-- - Scheduler/Queue, Scheduler/Active: `PktQueue` and `ActiveList` of packet_scheduler.h and
--   packet_scheduler.cc. Each method is one step under its lock.
-- - Scheduler: `PktScheduler::Enqueue` and `Dequeue`. `pick` is the first loop of `Dequeue`, `drain`
--   the second, `serve` all that it does with the client picked. The fuel of `pick` is one more than the
--   number of waiting ids, each turn takes one; that of `drain` is one more than the length of the
--   queue, each turn takes a packet. Children: Pick, Drain, Service, Calls, Admission and Fairness
--   are about one call, History is about any sequence of calls, Start about a new scheduler, Stall
--   about a client left behind.
-- - Scheduler/Threads: the same calls as threads that interleave. `Step` has one constructor for each
--   thing that a thread does under one lock; `Producer` and `Consumer` say where the threads stand. There
--   is one thread in `Dequeue`, as where each contention domain has one station. Children: Attended says
--   who has a client in hand, Produce and Consume are about single steps, Safety about all of them, and
--   Calls says that the functions are runs of these steps.
-- - Scheduler/Quantum: the constructor of `PktScheduler`, and `ComputeQuantum` with its three modes.
-- - Routing, Routing/Update: `BSStatsTable` and `RoutingTable` of wspace_controller.h and
--   wspace_controller.cc. The answer of the R script is a parameter `solve`, and `std::to_string` one.
--   Children: Laws and Choice are about the routes chosen by throughput or in turn, Optimizer, Filling
--   and Answers about those that the script chooses, and Stations about `Init`. Files
--   has the lines of the text files.
-- - Controller: `WspaceController` of the same files: a turn of `RecvFromBS` (the statistics),
--   `ReadTun`, `ComputeRoutes` and `ForwardToBS`. The function that writes a header before a packet,
--   `inet_ntoa` and `sizeof (long)` are parameters. Children: Laws is about statistics, Wiring says how the
--   tables fit together, Reading is about `ReadTun`, Split and Rounds are about the loops of
--   `ComputeRoutes`, Turns and Safety about it as a whole. Writing has the calls of `Write` that the turns
--   make; `System` says what the system calls return. Receive models `RecvFromBS` on all kinds of packets and
--   Stations is about it. Forward models a call of `ForwardToBS` with what it sends; Serving, Served and
--   Choosing are about it and what it needs of the other threads. Client is `ExtractClientID`, and Begin
--   the first loops of `RecvFromBS`. Runs is about any sequence of the turns of the threads.
-- - Config: the constructor of `WspaceController`, from the options that `getopt` finds and the lines of
--   the file with the conflict graph, which are parameters. Address is `ParseIP`, Ids the ids of stations
--   and clients, Options the loop over the options; Build models the conflict graph and the schedulers,
--   Domains is about them, and Serving about the runs that follow the constructor.
-- - Text: `getline`, `atoi`, `strchr` and `strrchr`, as far as the controller uses them; Decimal is about
--   the text of an address.
-- - Tun: `Read`, `Write`, `IsValidClient` and `CreateAddr` of tun.h and tun.cc; what a system call returns is a
--   parameter.
-- - Deadline: the two `WaitFill` of wspace_asym_util.h and wspace_asym_util.cc that wait for a time. The
--   fuel is one more than the seconds of the wait, rounded up: each turn takes a second.
-- - Wire/Rate, Wire/Header, Wire/Ack, Wire/Report: the headers of packets of wspace_asym_util.h and
--   wspace_asym_util.cc; Report has `GPSHeader`, `BSStatsPkt` and `ControllerToClientHeader`.
--   Sizes of structures are parameters.
-- - Buffer, Buffer/Packets, Buffer/Access: `BasicBuf` and `TxDataBuf` of the same files; arrays are functions
--   of the index, and a wait is a result of its own. Fifo says that the buffer is a queue.
-- - RawBuf: `TxRawBuf` of the same files. Children: Fates is about the lost numbers of an
--   acknowledgement, and Acked about all that it settles.
-- - Timer: `MonotonicTimer` of monotonic_timer.h and monotonic_timer.cc.
-- - Prelude, Map, NodeId, Double, Word: shared types. `Result` tells an assertion, an exit and undefined
--   behaviour apart. A `std::unordered_map` is an association list in an order left open. A `double` is
--   a type with operations of which nothing is assumed, but that its conversion to `int` gives an `int`, and
--   for the routes that `<` is an order.
--   Unsigned integers wrap around.
-- - Tests: runs on concrete inputs.
--
-- Not modelled: sockets, opening files and printing on the screen, the locks as such (what runs under a
-- lock is a step), the waits and signals of condition variables, the layout of headers in memory, the GPS
-- log, and the wall clock. That C++ leaves the conversion of a `double` out of the range of `int` undefined is
-- not modelled as a fault: its value is some `int`, left open.
pub mod Buffer
pub mod Config
pub mod Controller
pub mod Deadline
pub mod Double
pub mod Map
pub mod NodeId
pub mod Prelude
pub mod RawBuf
pub mod Routing
pub mod Scheduler
pub mod Tests
pub mod Text
pub mod Timer
pub mod Tun
pub mod Wire
pub mod Word
