-- ===== src/Pool/Shared.antt =====
-- Any number of threads that call `acquire`, `release` and `flush` on one
-- `ThreadCachedObjectPool<T, BatchSize, CacheFlushThreshold>`, the only pool of its type while it
-- lives: the cache of a thread is a `thread_local` of a static function, which all pools of the type
-- share, and holds nothing when the pool is constructed. A call changes the cache of its thread,
-- which no other thread sees, and makes at most one call of the global pool, which holds the pool's
-- mutex: so calls are taken whole, in any order. A thread may end, and another begin in its place;
-- the cache of a thread that ends gives nothing back.
pub mod Invariant
pub mod New
pub mod Safety
mod Tests
use sync_tools.Prelude.{ℕ, ◌≡◌, Option, none, some, List, [], ◌∷◌, ◌++◌, get_elem?, set, replicate}
use sync_tools.Pool.Blocks.{read_block}
use sync_tools.Pool.Memory.{Memory, update}
use sync_tools.Pool.ObjectPool.{ObjectPool}
use sync_tools.Pool.ObjectPool.Ownership.{Parts}
use sync_tools.Pool.Cached.{ThreadCache, new_cache, acquire, release, flush}

-- The only pool of its type: the global pool, the cache of each thread, the memory, the pointers that
-- clients hold, and those that were in the caches of threads that have ended.
pub record Shared {ℓ} (A : Type ℓ) : Type ℓ where
  pub pool : ObjectPool
  pub caches : List ThreadCache
  pub memory : Memory A
  pub held : List ℕ
  pub lost : List ℕ

-- A new pool and `threads` threads, before any call of any pool of the type: all caches are empty.
-- (Where an earlier pool of the type has been used, a cache may still hold its pointers.)
abbrev pub new_shared {ℓ} : (A : Type ℓ) → (threshold threads : ℕ) → ObjectPool → Shared A
new_shared A threshold threads p = record {
  pool = p;
  caches = replicate threads (new_cache threshold);
  memory = λ x. none;
  held = [];
  lost = [];
}

module _ {ℓ} {A : Type ℓ} (batch_size threshold : ℕ) where
  -- One call, or the end of a thread, with no other pool of the type.
  pub data SharedStep (s : Shared A) : Shared A → Type ℓ where
    acquires :
        (i : ℕ) (make : ℕ → A) {c c' : ThreadCache} {x : ℕ} {p' : ObjectPool} {h' : Memory A}
        → get_elem? s.caches i ≡ some c
        → acquire batch_size make s.pool c s.memory ≡ some (some x, p', c', h')
        → SharedStep s (record {
          pool = p';
          caches = set s.caches i c';
          memory = h';
          held = x ∷ s.held;
          lost = s.lost;
        })
    acquires_none :
        (i : ℕ) (make : ℕ → A) {c c' : ThreadCache} {p' : ObjectPool} {h' : Memory A}
        → get_elem? s.caches i ≡ some c
        → acquire batch_size make s.pool c s.memory ≡ some (none, p', c', h')
        → SharedStep s (record {
          pool = p';
          caches = set s.caches i c';
          memory = h';
          held = s.held;
          lost = s.lost;
        })
    releases :
        (i x : ℕ) (kept : List ℕ) {c c' : ThreadCache} {p' : ObjectPool} {h' : Memory A}
        → get_elem? s.caches i ≡ some c
        → Parts s.held (x ∷ []) kept
        → release threshold x s.pool c s.memory ≡ some (p', c', h')
        → SharedStep s (record {
          pool = p';
          caches = set s.caches i c';
          memory = h';
          held = kept;
          lost = s.lost;
        })
    flushes :
        (i : ℕ) {c c' : ThreadCache} {p' : ObjectPool} {h' : Memory A}
        → get_elem? s.caches i ≡ some c
        → flush s.pool c s.memory ≡ some (p', c', h')
        → SharedStep s (record {
          pool = p';
          caches = set s.caches i c';
          memory = h';
          held = s.held;
          lost = s.lost;
        })
    ends :
        (i : ℕ) {c : ThreadCache} {items : List ℕ}
        → get_elem? s.caches i ≡ some c
        → read_block c.cache 0 c.cache_size ≡ some items
        → SharedStep s
            (record s { caches = set s.caches i (new_cache threshold); lost = items ++ s.lost })

  -- What threads reach from `s`.
  pub data SharedReach (s : Shared A) : Shared A → Type ℓ where
    begins : SharedReach s s
    goes_on : {t u : Shared A} → SharedReach s t → SharedStep t u → SharedReach s u
