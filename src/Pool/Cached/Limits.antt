-- ===== src/Pool/Cached/Limits.antt =====
-- Where the thread's cache lets a cached pool down: it knows neither the pool it serves nor the
-- arguments of a call, and its size must fit the batch and leave a half to flush.
use sync_tools.Prelude.{
  ℕ, ◌<◌, ◌≡◌, none, some, List, [], ◌∷◌, ◌++◌, leb, false, arith, length, length-snoc, set,
}
use sync_tools.Prelude.Words.{add_size}
use sync_tools.Pool.Blocks.{write_at, write_block_overflows}
use sync_tools.Pool.Memory.{Memory}
use sync_tools.Pool.ObjectPool.{ObjectPool}
use sync_tools.Pool.ObjectPool.Ownership.{Owned, acquire_batch-Owned}
use sync_tools.Pool.Cached.{ThreadCache, acquire, refill, release, flush_half}
use sync_tools.Pool.Cached.Holds.{CacheHolds, CacheHolds-prefix, write_newest}
use sync_tools.Pool.Cached.Calls.{refill_none, pop_newest-some}

module _ {ℓ} {A : Type ℓ} {threshold : ℕ} {c : ThreadCache} where
  -- With room in the cache, a pointer given to one pool is what the thread's next `acquire` hands
  -- out, from whichever pool `q` of the type it is called on and whatever arguments it is given:
  -- the pools and the memory, and so the object's state, are unchanged.
  pub acquire_after_release :
      (p : ObjectPool) (h : Memory A) (x batch_size : ℕ) (make : ℕ → A) (q : ObjectPool)
      (l : List ℕ)
      → CacheHolds threshold c l
      → length l < threshold
      → (c' c'' : ThreadCache) × (release threshold x p c h ≡ some (p, c', h))
        × (acquire batch_size make q c' h ≡ some (some x, q, c'', h))
        × CacheHolds threshold c'' l
  unfolding release acquire
  acquire_after_release p h x batch_size make q l hc room =
      let (w, hc') = write_newest l x hc room in
      let below : leb threshold c.cache_size ≡ false = ground (arith, hc.sized) in
      let c' : ThreadCache = record {
        cache = set c.cache (length l) x;
        cache_size = add_size c.cache_size 1;
      } in
      (
        c',
        record c' { cache_size = length l },
        rw (below, w),
        rw (
          refill_none q h batch_size make (l ++ (x ∷ [])) hc' (omega (arith, length-snoc l x)),
          pop_newest-some q h l x hc',
        ),
        CacheHolds-prefix l (x ∷ []) hc',
      )

module _ {ℓ} {A : Type ℓ} {c : ThreadCache} where
  -- A cache for one pointer cannot be flushed by half: the next `release` writes past its end.
  pub release_overflows :
      (p : ObjectPool) (h : Memory A) (x y : ℕ) → CacheHolds 1 c (y ∷ []) → release 1 x p c h ≡ none
  unfolding release flush_half write_at
  release_overflows p h x y hc = ground (arith, hc.sized, hc.window.long)

module _ {ℓ} {A : Type ℓ} {all : List ℕ} {threshold : ℕ} {p : ObjectPool} {c : ThreadCache}
    {h : Memory A} where
  -- A batch larger than the cache is written past the cache's end, if the pool has as many free.
  pub acquire_overflows :
      (batch_size : ℕ) (make : ℕ → A) {free : List ℕ} {out : List ℕ}
      → CacheHolds threshold c []
      → Owned all p h free out
      → threshold < batch_size
      → threshold < length free
      → acquire batch_size make p c h ≡ none
  unfolding acquire refill
  acquire_overflows batch_size make {free} {out} hc o b1 b2 =
      let (items, rest, p', cut, l, e, o') = acquire_batch-Owned batch_size make free out o in
      rw (
        hc.sized,
        e,
        write_block_overflows c.cache 0 items (omega (arith, hc.window.long)) (omega arith),
      )
