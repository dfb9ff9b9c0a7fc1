-- ===== src/Lib.antt =====
-- Scrimmage, a matching engine with its market data and its networking, in C++ headers under libs/.
--
-- The parts, and the files that model them (paths from the repository's root):
--   * RingBuffer: libs/common/SpScRingBuffer/SpScRingBuffer.h. The ring between one producer and one
--     consumer: `tryPush`, `tryPop`, `push`, `pushWithTimeout` as functions of the ring and of what a
--     load sees of the other thread. RingBuffer/Threads cuts them at each access to shared memory and
--     interleaves the two threads in any order, as a step relation.
--   * RingConsumer: libs/common/SpScRingBuffer/SpScRingBufferConsumer.h and libs/concurrency/
--     PinnedThread.h. The thread that pops a ring for a callback, and its starting and stopping;
--     RingConsumer/Bootstrap has what a pinned thread does before its function: its core and the
--     warm-up of its stack.
--   * MatchingEngine: libs/match/MatchingEngine.h. `submitOrder`, `matchOrder`, `hashSymbol` over a
--     store of orders that pointers index. The calls of the two callbacks are a list of reports.
--     MatchingEngine/Runs is a run of orders from the constructor, beside an exchange with neither
--     pool nor pointers.
--   * Partition: libs/match/MatchingEnginePartition.h and ExecutionReport.h. Orders through one ring,
--     reports into another and to the network; which partition owns a symbol.
--   * Orders: libs/match/Order.h, OrderBookEntry.h, OrderPool.h, OrderMap.h. The order's symbol, the
--     pool of entries with its free list, and the map from an order's number to its entry, which
--     Orders/Slots/Table sets against a table.
--   * PriceLevels: libs/match/PriceLevels.h. The chains of entries at each price of one side;
--     PriceLevels/Whole has all levels of a side, on one array of entries, as queues.
--   * OrderBook: libs/match/OrderBook.h. What the header defines on the map and the levels.
--   * OrderBookFeed: libs/market-data/OrderBookFeed.h. The sorted sides of one product. OrderBookFeed/
--     Locked interleaves the calls of several threads on its mutex, as a step relation, and
--     OrderBookFeed/Bag forgets the order of a side by a quotient.
--   * Injector: libs/market-data/SyntheticDataInjector.h, `injectLoop`, on the feed,
--     and in Injector/Life the object from its constructor to its destructor.
--   * MarketPipeline: libs/market-data/MarketDataPipeline.h. Messages through a pool into the feed.
--   * Framing: libs/networking/tcp/TcpEncoder.h and TcpFramer.h. Messages behind a length, and back.
--   * Sockets: libs/networking/tcp/TcpClient.h, TcpServer.h and libs/networking/udp. Constructors,
--     destructors and server loops as calls of an operating system that answers as it likes.
--     Sockets/Session runs a server from `start` to the end of `stop`, Sockets/Lifetimes an object from
--     its constructor to its destructor, and Sockets/Threads interleaves the accept thread, the
--     clients' threads and `stop`, as a step relation.
--   * Connections: libs/networking/tcp/TcpConnectionManager.h, on the clients of Sockets: the sockets
--     that it owns, what its threads refer to, and what they receive.
--   * Pipelines: libs/networking/pipeline. The callbacks and the read loops; Pipelines/Stream puts the
--     TCP pipeline in front of Framing, and Pipelines/Life is an object's life.
--   * Lifecycle: `start` and `stop` of the classes that own a thread, and the loop of
--     libs/networking/tcp/TcpHeartbeat.h on a clock.
--   * Prelude: shared names, Boolean tests, lists, machine words and masks, signed integers.
-- The engine of libs/match/MatchingEngine.h has its own order and book types, apart from those of
-- Order.h and OrderBookEntry.h; so has the feed. The partition uses the order of Order.h, whose
-- accessors it takes for members. The modules keep them apart as the headers do.
--
-- Numbers: a `uint16_t`, `uint32_t` or `uint64_t` is a natural number with its wrap-around written
-- out; `int64_t` prices are the integers. A failed call is `none`, a sum or a result type. A loop
-- on fuel returns `none` when it runs out. `match_order` gives its loop one round more than the
-- opposite side has orders, which is enough since a round removes an order or ends the loop;
-- `receive` gives as many rounds as the buffer has bytes, since a frame takes two at least; `push`
-- waits on a clock and the number of rounds is in its theorem. `processOrders` is given `capacity`
-- rounds, one more than a ring holds orders. A heartbeat spins at most 50 microseconds, on a clock
-- of nanoseconds that may stand still for fewer than `stall` readings in a row, so that more than
-- 50000 * stall rounds are enough. The loops that a flag ends are recursion on what happens in
-- their rounds: what `recv` answers, what is pushed before. The warm-up of a stack is given 1025
-- rounds, one more than 65536 characters hold steps of 64. Unlinking an entry is given rounds; as
-- many as its level has entries are enough. In Injector/Life and Pipelines/Life a loop's rounds
-- come before the next call on the object.
--
-- Parameters: the order pools of the engine, the book, the price levels and the market data
-- pipeline, and its index, which are not in the repository; `std::sort` and the `double` prices of
-- the feed; the operating system's calls, those that bind a thread to a core among them; the
-- clock; random numbers; how far a full vector grows. Memory is sequentially consistent: the
-- acquire and release orders of the ring give this for its accesses, and the model does not show
-- that they do. A thread that is joined is taken to have ended, though it may wait for the
-- network; but in Sockets/Threads a thread in `accept` or `read` takes its step only where the
-- call returns, which is a parameter. Callbacks change a state of the program's own.
--
-- Not modelled: what libs/match/OrderBook.h declares and does not define; the affinity tag of
-- macOS and the pause instruction; the copy of googletest under vendor/; the applications, which print.
pub mod Prelude
pub mod RingBuffer
pub mod MatchingEngine
pub mod Framing
pub mod Sockets
pub mod Lifecycle
pub mod Orders
pub mod OrderBookFeed
pub mod PriceLevels
pub mod Partition
pub mod RingConsumer
pub mod Pipelines
pub mod Connections
pub mod Injector
pub mod MarketPipeline
pub mod OrderBook
