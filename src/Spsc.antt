-- ===== src/Spsc.antt =====
-- include/sync_tools/spsc_queue.hpp: the bounded single-producer single-consumer queue. `Queue`
-- translates the member functions; the children state what they do.
pub mod Queue
pub mod Holds
pub mod Refine
pub mod Destroy
pub mod Threads
mod Tests
