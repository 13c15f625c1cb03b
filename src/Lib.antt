-- ===== src/Lib.antt =====
-- ThreadPoolPro: a work-stealing thread pool in C++. `ThreadPool` leases its threads from a
-- `ThreadMarket`, gives each worker a `WorkStealingQueue` of `Task`s over a circular `Buffer`, takes
-- tasks from other threads through sharded queues under locks, and hands the result of a task to its
-- submitter through a `Future`.
--
-- Which file models which part:
--   * Base: the shared names, lists counted by native numbers, families of threads and their sums.
--   * Buffer: src/ThreadPoolPro/Detail/Buffer.cpp. `make` is the constructor, `at` and `put` are the
--     two uses of `Buffer::at`, `grow` is `Buffer::grow`.
--   * Deque: src/ThreadPoolPro/Detail/WorkStealingQueue.cpp. `OwnerMove` has one constructor for each
--     shared access of `pushBottom` and `popBottom`, `ThiefMove` one for each of `steal`.
--   * Queue: the same file, one operation at a time, with `acquireNode`, `releaseNode`, `size` and the
--     destructor. `contents` is the list of the tasks that a queue holds.
--   * Task: include/ThreadPoolPro/Detail/Task.tpp, VTable.h and src/ThreadPoolPro/Detail/Task.cpp,
--     on a store of tasks and heap blocks. Task/Lifetime puts the operations together.
--   * Future: include/ThreadPoolPro/Detail/Future.h, with the closure that `enqueue` in
--     include/ThreadPoolPro/ThreadPool.tpp makes. Future/Handles has the operations of `Future`.
--   * Market: `ThreadMarket` in src/ThreadPoolPro/Detail/ThreadMarket.cpp.
--     Market/Handshake is `MarketThread` in the same file, with the pools that use it.
--   * Fetch: `nextStealOffset` and the probe orders in src/ThreadPoolPro/ThreadPool.cpp.
--   * Park: `spinYieldPark` in include/ThreadPoolPro/Detail/Utility.h, with `waitUntil`, `wakeOne` and
--     `wakeAll` of the pool.
--   * Pool: src/ThreadPoolPro/ThreadPool.cpp. Pool/Worker is `workerLoop`, Pool/Submit is `submit`,
--     Pool/WaitIdle is `waitIdle`, Pool/System puts them side by side, and Pool/Joining has the wait of
--     `shutdown` and of the destructor for the threads.
--   * Dispatch: `submit`, `fetchTask` and `fetchTaskExternal` of the same file as whole calls over the
--     queues of the workers and the shards, with `enqueue` and `detach` around `submit`.
--   * Fuzz: `LLVMFuzzerTestOneInput` in fuzz/fuzz_work_stealing_queue.cpp, over Queue.
--   * Regression: the tool in regression/custom that compares two snapshots of the benchmarks. Its
--     children Text, Table, Version and Methods are parts of support/helpers.h. Report, Summary and
--     Listing are `printRegression`, `printSummary`, and `printList` with `printMethods`, in
--     support/framework.h. Export is support/export.h. Main is `main` in regression_main.cpp, with
--     the choice of the files in Cli and what follows it in Comparison, and Usage is `printUsage`
--     there. Strings are lists of bytes; `D` stands for `double`.
--   * Google: the tool in regression/google for the snapshots of Google Benchmark. Shared names the
--     functions whose text is the same in both tools; Table, Report, Listing and Cli are those that
--     differ.
--   * Suites: examples/support and examples/example_main.cpp. `register` is the constructor of
--     `ExampleRegistrar`, `main` the choice of what to run. Boxes, Listing and Usage are what
--     support/framework.h prints.
--   * Examples: concrete runs.
--
-- How state is modelled: threads interleave at their accesses to shared state, and a thread's
-- position in its code is a data type with the locals that are live there. Atomic accesses are taken
-- as sequentially consistent. In Pool a push to a queue and a fetch from one are single steps, and
-- which queue a task stands in is left open: `fetchTask` may find any queued task, or miss. `returned`,
-- `pushed` and `ran` are histories, which no code reads.
--
-- Bounds: `std::size_t` is a number below 2 ^ 64 with its wrap-around written out. The theorems on
-- Deque take a capacity of 2 ^ k with k < 64; those on Pool take fewer than 2 ^ 62 threads of a kind
-- and, where tasks are counted, fewer than 2 ^ 62 tasks ever pushed, as four such numbers add up to
-- less than 2 ^ 64. `IsClear` in Deque/Invariant/Defs is the condition on a push under which the
-- queue is safe: Deque/Overwrite shows what happens without it. Fuel is used in Regression only: by the
-- loop of `truncateCell`, whose fuel is the number of bytes, as each round drops at least one, and by
-- `std::to_string`, whose fuel is the number that it prints, as each round divides by ten.
--
-- In Pool a parked thread may go on whenever its predicate holds; how it sleeps and is woken is in
-- Park, where a token is a word of 32 bits and the theorem on `notify_all` takes fewer than 2 ^ 32
-- wake-ups.
--
-- Not modelled: weak memory orders, the tests and benchmarks with their frameworks, the reading of
-- files and of JSON, and the build. The operations on doubles that the regression tools use, with
-- `formatMagnitude`, the entries of a directory and the snapshots that are loaded are parameters.
-- `std::sort` is a parameter of the functions that call it.
pub mod Base
pub mod Buffer
pub mod Deque
pub mod Dispatch
pub mod Queue
pub mod Fetch
pub mod Market
pub mod Future
pub mod Task
pub mod Park
pub mod Pool
pub mod Fuzz
pub mod Regression
pub mod Google
pub mod Suites
pub mod Examples
