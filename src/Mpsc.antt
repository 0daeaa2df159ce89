-- ===== src/Mpsc.antt =====
-- include/sync_tools/mpsc_queue.hpp: the bounded multi-producer single-consumer queue. `Queue`
-- translates the member functions; the children state what they do.
pub mod Queue
pub mod Holds
pub mod Refine
pub mod Destroy
pub mod Blocking
pub mod Overloads
pub mod Threads
pub mod Limits
mod Tests
