-- ===== src/Pool.antt =====
-- include/sync_tools/object_pool.hpp: the object pool, and the pool with a cache for each thread.
pub mod Size
mod LeadingZeros
pub mod Blocks
pub mod Memory
pub mod Live
pub mod ObjectPool
pub mod Guarded
pub mod Cached
pub mod Shared
mod Tests
