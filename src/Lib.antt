-- ===== src/Lib.antt =====
-- SyncTools: bounded queues, object pools and a futex mutex, header-only C++.
--
-- The parts, and the files that model them:
-- * include/sync_tools/spsc_queue.hpp, `BoundedSPSCQueue<T, _size>`: Spsc/Queue has the state as the
--   record `Queue` (`_buffer`, `_head`, `_tail`, `_status`) and each member function as a function
--   to the new state. The overloads of `try_push` are `try_push` and `try_push_move`, those of
--   `try_pop` are `try_pop` and `try_pop_into`, `size()` is `size_of`, the destructor is `destroy`.
--   Spsc/Holds relates the ring to the list of its elements, Spsc/Refine to the FIFO, Spsc/Destroy
--   is about the destructor. Spsc/Threads interleaves the two threads at each access to a shared
--   variable, with `blocking_push` and `blocking_pop` as the mode `blocking` of a call; its children
--   hold the invariant, the moves that keep it, and what follows; Calls has the runs
--   of an uninterrupted call, Alone sets them beside the FIFO, and Missed is about `stop()` beside `blocking_pop`.
-- * include/sync_tools/object_pool.hpp, `ObjectPool<T>`: Pool/Size is `_round_up_pow2`,
--   Pool/ObjectPool has the record of the pool and its member functions, with the two `memcpy`
--   blocks as `copy_out` and `copy_in` over Pool/Blocks; its children Batches and RoundTrip set the
--   calls side by side. Objects live in the memory of Pool/Memory.
--   `ThreadCachedObjectPool<T, BatchSize, CacheFlushThreshold>`: Pool/Cached, the calls of one
--   thread on its cache and the global pool, and Pool/Shared, any number of threads on one
--   pool, the only one of its type, since the `thread_local` caches are shared by all pools of a
--   type, with caches that are empty when it is constructed.
--   A call of the pool is taken whole there; Pool/Guarded has its accesses to the members under the
--   mutex, one by one, as calls of Mutex/Guard, beside the queue of free
--   pointers that a pool promises to be.
-- * include/sync_tools/mutex.hpp, `Mutex`: Mutex has the states and `access`, the next access of a
--   thread to `_state`; Mutex/Threads has any number of threads, with the kernel's futex as
--   futex(2) documents it.
--   Mutex/Checked has the build with `SYNC_TOOLS_ENABLE_DEADLOCK_CHECKS`, `_owner` and `_owner_set`
--   included, for threads that may make any call at any time.
--   Mutex/Guard puts data behind the mutex: threads that lock, make accesses to the data and unlock,
--   with the mutex's own steps between, for any such calls; Mutex/Guard/Counter is
--   examples/mutex.cpp.
-- * include/sync_tools/mpsc_queue.hpp, `BoundedMPSCQueue<T, _size>`: Mpsc/Queue has the cells with
--   their sequence numbers and each non-blocking member function, with the names that Spsc/Queue
--   gives them, Mpsc/Blocking the blocking ones, Mpsc/Overloads sets the overloads side by side.
--   Mpsc/Holds relates the cells to the list of the elements, Mpsc/Refine to the FIFO, Mpsc/Destroy
--   is about the destructor, Mpsc/Limits about a single cell and positions at `2 ^ 63`. Mpsc/Threads
--   interleaves any number of producers with the consumer at each access to a shared variable; its
--   children hold the invariant, the moves that keep it, and what follows of the values, the cells,
--   the answers and the progress of calls, and of `size()` read while others run.
--
-- Capacity is the `static_assert` on `_size`. Fifo is the abstract queue that a bounded queue
-- promises to be, Storage the raw storage of its elements, Ring the view of a circular buffer as a
-- list, and Prelude has the shared lemmas.
--
-- Undefined behaviour is the outer `none` of a result: an access outside an array, a read or a
-- destructor call where there is no object, a shift by the width.
--
-- Bounds and fuel: `std::size_t` has 64 bits and wraps (Prelude/Words); `_size` is a power of two,
-- as the static_assert demands, and not zero. The loops of the destructors run on fuel, of which
-- one round more than there are elements is enough; the loop of `try_push` in Mpsc/Queue runs on
-- fuel, of which one round is enough without interference. The loops of Mpsc/Blocking run on fuel
-- and go on for as long as the queue is full, or empty, and running, so that no fuel is enough for
-- each call. The threads are relations, with no bound on their steps.
--
-- Positions of the producers and the consumer of Mpsc/Threads stay below `2 ^ 63`, where `diff`
-- begins to overflow.
--
-- Not modelled: several cached pools of one type, or one after another, on the same thread caches
-- (Pool/Cached/Limits has what a single call does there), memory orders (the atomics are sequentially consistent), constructors and moves that
-- throw, `cpu_relax` and branch hints, the ThreadSanitizer calls that are compiled in on demand,
-- tests, benchmarks and the other examples, which print what the queues and pools return.
pub mod Prelude
pub mod Storage
pub mod Capacity
pub mod Ring
pub mod Fifo
pub mod Spsc
pub mod Mpsc
pub mod Pool
pub mod Mutex
