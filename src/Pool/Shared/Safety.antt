-- ===== src/Pool/Shared/Safety.antt =====
-- What holds of a new pool, the only one of its type, after any calls of any number of threads.
use sync_tools.Prelude.{
  ℕ, suc, ◌+◌, ◌^◌, ◌≤◌, ◌<◌, ◌≡◌, refl, sym, ◌∙◌, ap, subst, none, some, some-injective, List, [],
  ◌∷◌, ◌++◌, ◌⊎◌, inl, inr, arith, length, length-append, ℕ_discrete, get_elem?, set,
}
use sync_tools.Prelude.Count.{count, count-append}
use sync_tools.Pool.Size.{CountsLeadingZeros}
use sync_tools.Pool.Memory.{Memory, addresses}
use sync_tools.Pool.Live.{live, live-le}
use sync_tools.Pool.ObjectPool.{ObjectPool}
use sync_tools.Pool.ObjectPool.Holds.{Holds}
use sync_tools.Pool.ObjectPool.Calls.{new_pool_lem}
use sync_tools.Pool.ObjectPool.Ownership.{Parts}
use sync_tools.Pool.Cached.{ThreadCache, new_cached_pool, acquire, release, flush}
use sync_tools.Pool.Cached.Holds.{CacheHolds}
use sync_tools.Pool.Cached.Calls.{acquire-CachedOwned}
use sync_tools.Pool.Cached.Returns.{release-CachedOwned, flush-CachedOwned}
use sync_tools.Pool.Shared.{Shared, SharedReach, new_shared}
use sync_tools.Pool.Shared.New.{new_shared-Owned}
use sync_tools.Pool.Shared.Invariant.{
  flat, SharedOwned, SharedReach-Owned, own_part, given_back, length-flat-set,
}

-- All that the caches of the threads hold.
abbrev pub cached_total : List ThreadCache → ℕ
cached_total [] = 0
cached_total (c ∷ cs) = c.cache_size + cached_total cs

cached_total_lem :
    {threshold : ℕ} (cs : List ThreadCache) (ls : List (List ℕ))
    → length ls ≡ length cs
    → ((i : ℕ) (c : ThreadCache)
        → get_elem? cs i ≡ some c
        → (l : List ℕ) × (get_elem? ls i ≡ some l) × CacheHolds threshold c l)
    → cached_total cs ≡ length (flat ls)
cached_total_lem [] [] same each = refl
cached_total_lem [] (l ∷ ls) same each = absurd (omega arith)
cached_total_lem (c ∷ cs) [] same each = absurd (omega arith)
cached_total_lem (c ∷ cs) (l ∷ ls) same each =
    let (l', at, holds) = each 0 c refl in
    let z : l ≡ l' = some-injective l l' at in
    omega (
      arith,
      holds.sized,
      ap (λ l. length l) z,
      length-append l (flat ls),
      cached_total_lem cs ls (omega arith) (λ i c e. each (suc i) c e),
    )

-- A thread's call of `acquire` hands out a pointer that no client holds and that is
-- not lost.
abbrev pub HandsOut {ℓ} : {A : Type ℓ} → ℕ → (ℕ → A) → ThreadCache → Shared A → Type ℓ
HandsOut {A = A} batch_size make c s =
    (x : ℕ) × (p' : ObjectPool) × (c' : ThreadCache) × (h' : Memory A) × (acquire batch_size make
        s.pool c s.memory
      ≡ some (some x, p', c', h'))
    × (count x s.held + count x s.lost ≡ 0)

module _ {ℓ} {A : Type ℓ} {clz : ℕ → ℕ} (spec : CountsLeadingZeros clz) (base size : ℕ)
    (small : size ≤ 2 ^ 63) (threads : ℕ) {batch_size threshold : ℕ} (some_batch : 0 < batch_size)
    (fits : batch_size ≤ threshold) (two : 2 ≤ threshold) (word : threshold < 2 ^ 64)
    {p : ObjectPool} (made : new_cached_pool clz base size ≡ some p) {s : Shared A}
    (reach : SharedReach batch_size threshold (new_shared A threshold threads p) s) where
  all_owned : SharedOwned (addresses base p.pool_size) threshold s
  unfolding new_cached_pool
  all_owned =
      let (p', e, holds, above, least) = new_pool_lem spec base size small in
      let z : p' ≡ p = some-injective p' p (sym e ∙ made) in
      SharedReach-Owned some_batch fits two reach (
        new_shared-Owned A threshold threads base p (omega arith) word
          (subst (λ q. Holds q (addresses base q.pool_size)) z holds))

  -- A cached pool of a size up to `2 ^ 63`, with a batch that is not empty and fits a cache of two
  -- pointers at least, that is the only pool of its type, so that no other shares its threads'
  -- caches, which are all empty when it is constructed: whatever calls any number of threads have
  -- made since it was constructed, a
  -- pointer is held by clients or lost at most once, never both, and has an object while it is.
  pub held_once :
      (x : ℕ) → (count x s.held + count x s.lost ≤ live s.memory x) × (live s.memory x ≤ 1)
  held_once x =
      let o = all_owned in
      let split = count-append x (flat o.cached) (s.held ++ s.lost) in
      let apart = count-append x s.held s.lost in
      elim (ℕ_discrete (count x (addresses base p.pool_size)) 1) [
        | yes e ↦ (omega (arith, o.owned.alive x e, split, apart), live-le s.memory x)
        | no ne ↦
            (omega (arith, o.owned.once x, o.owned.distinct x, split, apart), live-le s.memory x)
      ]

  -- A cached pool of a size up to `2 ^ 63`, with a batch that is not empty and fits a cache of two
  -- pointers at least, that is the only pool of its type, so that no other shares its threads'
  -- caches, which are all empty when it is constructed: whatever calls any number of threads have
  -- made since it was constructed,
  -- `acquire` by any of them is defined. It hands out a pointer that no client holds and that is
  -- not lost, or it returns null with nothing changed; then every address is held by clients, in a
  -- thread's cache, or lost with a thread that has ended.
  pub acquire_or_exhausted :
      (i : ℕ) (make : ℕ → A) {c : ThreadCache}
      → get_elem? s.caches i ≡ some c
      → HandsOut batch_size make c s
        ⊎ ((acquire batch_size make s.pool c s.memory ≡ some (none, s.pool, c, s.memory))
            × (length s.held + cached_total s.caches + length s.lost ≡ s.pool.pool_size))
  acquire_or_exhausted i make {c} e =
      let o = all_owned in
      elim (acquire-CachedOwned batch_size make some_batch fits (own_part o i e)) [
        | inl hands ↦ inl (
          hands.0,
          hands.1,
          hands.2,
          hands.3,
          hands.4,
          omega (
            arith,
            hands.6,
            count-append hands.0 (flat (set o.cached i [])) (s.held ++ s.lost),
            count-append hands.0 s.held s.lost,
          ),
        )
        | inr none_left ↦ inr (
          none_left.0,
          omega (
            arith,
            none_left.1,
            length-flat-set o.cached i [] (o.cache_of i e).1,
            length-append (flat (set o.cached i [])) (s.held ++ s.lost),
            o.owned.total,
            length-append (flat o.cached) (s.held ++ s.lost),
            length-append s.held s.lost,
            cached_total_lem s.caches o.cached o.one_each (λ j c f. o.cache_of j f),
          ),
        )
      ]

  -- A cached pool of a size up to `2 ^ 63`, with a batch that is not empty and fits a cache of two
  -- pointers at least, that is the only pool of its type, so that no other shares its threads'
  -- caches, which are all empty when it is constructed: whatever calls any number of threads have
  -- made since it was constructed,
  -- `release` by any of them of a pointer that clients hold is defined, and so is `flush`, which
  -- leaves the thread's cache empty.
  pub returns_are_defined :
      (i x : ℕ) (kept : List ℕ) {c : ThreadCache}
      → get_elem? s.caches i ≡ some c
      → Parts s.held (x ∷ []) kept
      → ((p' : ObjectPool) × (c' : ThreadCache) × (h' : Memory A) × (release threshold x s.pool c
              s.memory
            ≡ some (p', c', h')))
        × ((p' : ObjectPool) × (c' : ThreadCache) × (h' : Memory A) × (flush s.pool c s.memory
              ≡ some (p', c', h'))
            × (c'.cache_size ≡ 0))
  returns_are_defined i x kept {c} e parts =
      let o = all_owned in
      let (p1, c1, h1, e1, o1) =
        release-CachedOwned x (flat (set o.cached i []) ++ (kept ++ s.lost)) two (own_part o i e)
          (given_back o i x kept parts) in
      let (p2, c2, h2, e2, z, o2) = flush-CachedOwned (own_part o i e) in
      ((p1, c1, h1, e1), (p2, c2, h2, e2, z))
