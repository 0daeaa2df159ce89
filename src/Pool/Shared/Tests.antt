-- ===== src/Pool/Shared/Tests.antt =====
-- Two threads on a pool of two nodes at address 100, with batches and caches of two.
use sync_tools.Prelude.{ℕ, ◌+◌, ◌≤◌, ◌≡◌, refl, none, some, [], ◌∷◌, ◌⊎◌, arith, length}
use sync_tools.Prelude.Count.{count}
use sync_tools.Pool.LeadingZeros.{bits, clz, clz_counts}
use sync_tools.Pool.Size.{round_up_pow2}
use sync_tools.Pool.Blocks.{write_at, read_block, write_block}
use sync_tools.Pool.Memory.{Memory, construct, construct_all, update}
use sync_tools.Pool.Live.{live}
use sync_tools.Pool.ObjectPool.{ObjectPool, new_pool, acquire_batch, copy_out}
use sync_tools.Pool.ObjectPool.Ownership.{Parts}
use sync_tools.Pool.Cached.{
  ThreadCache, new_cache, new_cached_pool, acquire, refill, pop_newest, release, flush,
}
use sync_tools.Pool.Shared.{Shared, SharedReach, new_shared, acquires, ends, begins, goes_on}
use sync_tools.Pool.Shared.Safety.{
  HandsOut, cached_total, held_once, acquire_or_exhausted, returns_are_defined,
}

abbrev two_nodes : ObjectPool
two_nodes = record {
  pool_size = 2;
  available = 100 ∷ 101 ∷ [];
  head_index = 0;
  available_count = 2;
}

two_nodes_made : new_cached_pool clz 100 2 ≡ some two_nodes
unfolding new_cached_pool new_pool round_up_pow2 clz bits
two_nodes_made = refl

-- Thread 0 has acquired one of them and ended with the other in its cache.
abbrev one_out : (s : Shared ℕ) × SharedReach 2 2 (new_shared ℕ 2 2 two_nodes) s
unfolding acquire refill pop_newest acquire_batch copy_out read_block write_block write_at new_cache
    construct_all construct update
one_out = (_, goes_on (goes_on begins (acquires 0 (λ i. i) refl refl)) (ends 0 refl refl))

parts : Parts one_out.0.held (101 ∷ []) []
unfolding one_out
parts = record { counts = λ x. omega arith; lengths = refl }

held_once_example :
    (count 101 one_out.0.held + count 101 one_out.0.lost ≤ live one_out.0.memory 101)
    × (live one_out.0.memory 101 ≤ 1)
held_once_example =
    held_once clz_counts 100 2 (omega arith) 2 (omega arith) (omega arith) (omega arith)
      (omega arith) two_nodes_made one_out.1 101

acquire_or_exhausted_example :
    HandsOut 2 (λ i. i) (new_cache 2) one_out.0
    ⊎ ((acquire 2 (λ i. i) one_out.0.pool (new_cache 2) one_out.0.memory
          ≡ some (none, one_out.0.pool, new_cache 2, one_out.0.memory))
        × (length one_out.0.held + cached_total one_out.0.caches + length one_out.0.lost
            ≡ one_out.0.pool.pool_size))
unfolding one_out
acquire_or_exhausted_example =
    acquire_or_exhausted clz_counts 100 2 (omega arith) 2 (omega arith) (omega arith) (omega arith)
      (omega arith) two_nodes_made one_out.1 1 (λ i. i) refl

returns_are_defined_example :
    ((p' : ObjectPool) × (c' : ThreadCache) × (h' : Memory ℕ) × (release 2 101 one_out.0.pool
          (new_cache 2)
          one_out.0.memory
        ≡ some (p', c', h')))
    × ((p' : ObjectPool) × (c' : ThreadCache) × (h' : Memory ℕ) × (flush one_out.0.pool
            (new_cache 2)
            one_out.0.memory
          ≡ some (p', c', h'))
        × (c'.cache_size ≡ 0))
unfolding one_out
returns_are_defined_example =
    returns_are_defined clz_counts 100 2 (omega arith) 2 (omega arith) (omega arith) (omega arith)
      (omega arith) two_nodes_made one_out.1 1 101 [] refl parts
