-- ===== src/Pool/Cached.antt =====
-- `ThreadCachedObjectPool<T, BatchSize, CacheFlushThreshold>`, as the calls of one thread: the
-- global pool, the cache of that thread, and the memory. The cache is a `thread_local` of a static
-- member function, so it belongs to the thread and the type, not to one pool.
pub mod Holds
pub mod Calls
pub mod Returns
pub mod Limits
use sync_tools.Prelude.{
  ℕ, ◌+◌, ◌/◌, Option, none, some, List, [], ◌∷◌, ◌==◌, leb, ltb, if◌then◌else◌, length, get_elem?,
  replicate,
}
use sync_tools.Prelude.Words.{add_size, sub_size}
use sync_tools.Storage.{◌>>=◌}
use sync_tools.Pool.Blocks.{write_at, read_block, write_block}
use sync_tools.Pool.Memory.{Memory}
use sync_tools.Pool.ObjectPool.{
  ObjectPool, new_pool, acquire_batch, release_batch, size_of as pool_size_of,
}

-- `struct ThreadCache`
pub record ThreadCache : Type 0 where
  pub cache : List ℕ
  pub cache_size : ℕ

-- A thread's cache before its first use: `cache{}` holds null pointers.
unfoldable pub new_cache : (threshold : ℕ) → ThreadCache
new_cache threshold = record { cache = replicate threshold 0; cache_size = 0 }

-- `ThreadCachedObjectPool(size)` and `size()`
unfoldable pub new_cached_pool : (ℕ → ℕ) → (base size : ℕ) → Option ObjectPool
unfolding new_pool
new_cached_pool clz base size = new_pool clz base size

unfoldable pub size_of : ObjectPool → ℕ
unfolding pool_size_of
size_of global = pool_size_of global

module _ {ℓ} {A : Type ℓ} where
  -- An empty cache is filled from the global pool.
  unfoldable pub refill :
      (batch_size : ℕ)
      → (ℕ → A)
      → ObjectPool
      → ThreadCache
      → Memory A
      → Option (ObjectPool × ThreadCache × Memory A)
  refill batch_size make global c h =
      if c.cache_size == 0
      then (do
        (acquired, out, global', h') ← acquire_batch batch_size make global h
        cells ← write_block c.cache 0 out
        some (global', record { cache = cells; cache_size = acquired }, h'))
      else some (global, c, h)

  -- `return cache.cache[--cache.cache_size]`, or null
  unfoldable pub pop_newest :
      ObjectPool → ThreadCache → Memory A → Option (Option ℕ × ObjectPool × ThreadCache × Memory A)
  pop_newest global c h =
      if ltb 0 c.cache_size
      then (do
        obj ← get_elem? c.cache (sub_size c.cache_size 1)
        some (some obj, global, record c { cache_size = sub_size c.cache_size 1 }, h))
      else some (none, global, c, h)

  unfoldable pub acquire :
      (batch_size : ℕ)
      → (ℕ → A)
      → ObjectPool
      → ThreadCache
      → Memory A
      → Option (Option ℕ × ObjectPool × ThreadCache × Memory A)
  unfolding refill pop_newest
  acquire batch_size make global c h = do
    (global', c', h') ← refill batch_size make global c h
    pop_newest global' c' h'

  -- `_flush_half`
  unfoldable pub flush_half :
      ObjectPool → ThreadCache → Memory A → Option (ObjectPool × ThreadCache × Memory A)
  flush_half global c h =
      let half = c.cache_size / 2 in
      if ltb 0 half
      then (do
        items ← read_block c.cache (sub_size c.cache_size half) half
        (global', h') ← release_batch items global h
        some (global', record c { cache_size = sub_size c.cache_size half }, h'))
      else some (global, c, h)

  unfoldable pub release :
      (threshold : ℕ)
      → ℕ
      → ObjectPool
      → ThreadCache
      → Memory A
      → Option (ObjectPool × ThreadCache × Memory A)
  unfolding flush_half
  release threshold obj global c h = do
    (global', c', h') ←
        (if leb threshold c.cache_size then flush_half global c h else some (global, c, h))
    cells ← write_at c'.cache c'.cache_size obj
    some (global', record { cache = cells; cache_size = add_size c'.cache_size 1 }, h')

  unfoldable pub flush :
      ObjectPool → ThreadCache → Memory A → Option (ObjectPool × ThreadCache × Memory A)
  flush global c h =
      if ltb 0 c.cache_size
      then (do
        items ← read_block c.cache 0 c.cache_size
        (global', h') ← release_batch items global h
        some (global', record c { cache_size = 0 }, h'))
      else some (global, c, h)
