-- ===== src/Pool/Cached/Calls.antt =====
-- What a thread's calls on a cached pool do. Of the addresses `all`, the global pool has `free`,
-- the thread's cache `cached`, and everybody else `out`: the clients, and the other threads' caches.
use sync_tools.Prelude.{
  ℕ, suc, ◌≤◌, ◌<◌, ◌≡◌, sym, ap, none, some, List, [], ◌∷◌, ◌++◌, ◌⊎◌, inl, inr, arith, length,
  length-snoc, append_assoc, lt→ltb, snoc_view, ==-eq_false, subst,
}
use sync_tools.Prelude.Count.{count, count-append, count_self}
use sync_tools.Prelude.Words.{sub_size}
use sync_tools.Pool.Blocks.{write_block}
use sync_tools.Pool.Memory.{Memory, construct_all}
use sync_tools.Pool.ObjectPool.{ObjectPool}
use sync_tools.Pool.ObjectPool.Calls.{acquire_batch_none}
use sync_tools.Pool.ObjectPool.Ownership.{Owned, acquire_batch-Owned}
use sync_tools.Pool.Cached.{ThreadCache, refill, pop_newest, acquire}
use sync_tools.Pool.Cached.Holds.{CacheHolds, CacheHolds-prefix, newest, write_batch}

module _ {ℓ} {A : Type ℓ} {all : List ℕ} {p : ObjectPool} {h : Memory A} where
  -- Ownership does not depend on the order of what is held.
  pub Owned-perm :
      {free held held' : List ℕ}
      → ((x : ℕ) → count x held ≡ count x held')
      → length held ≡ length held'
      → Owned all p h free held
      → Owned all p h free held'
  Owned-perm e l o = record {
    holds = o.holds;
    distinct = o.distinct;
    once = λ x. omega (arith, o.once x, e x);
    total = omega (arith, o.total);
    alive = λ x i. omega (arith, o.alive x i, e x);
  }

module _ {ℓ} {A : Type ℓ} {threshold : ℕ} {c : ThreadCache} (p : ObjectPool) (h : Memory A) where
  pub pop_newest-some :
      (l : List ℕ) (x : ℕ)
      → CacheHolds threshold c (l ++ (x ∷ []))
      → pop_newest p c h ≡ some (some x, p, record c { cache_size = length l }, h)
  unfolding pop_newest
  pop_newest-some l x hc =
      let n : c.cache_size ≡ suc (length l) = omega (arith, hc.sized, length-snoc l x) in
      let e : sub_size c.cache_size 1 ≡ length l =
        omega (arith, n, hc.fits, hc.word, length-snoc l x) in
      rw (e, n, lt→ltb 0 (suc (length l)) (omega arith), newest l x hc)

  pop_newest-none : CacheHolds threshold c [] → pop_newest p c h ≡ some (none, p, c, h)
  unfolding pop_newest
  pop_newest-none hc = rw hc.sized

  pub refill_none :
      (batch_size : ℕ) (make : ℕ → A) (l : List ℕ)
      → CacheHolds threshold c l
      → 0 < length l
      → refill batch_size make p c h ≡ some (p, c, h)
  unfolding refill
  refill_none batch_size make l hc pos =
      rw (==-eq_false c.cache_size 0 (λ e. omega (arith, hc.sized)))

-- Nobody but the thread's cache, the global pool and the holders of `out` has any address.
pub record CachedOwned {ℓ} {A : Type ℓ} (all : List ℕ) (threshold : ℕ) (p : ObjectPool)
    (c : ThreadCache) (h : Memory A) (out : List ℕ) : Type 0 where
  pub free : List ℕ
  pub cached : List ℕ
  pub cache_holds : CacheHolds threshold c cached
  pub owned : Owned all p h free (cached ++ out)

-- A call that hands out `x`, which nobody else holds, and leaves all else accounted for.
abbrev pub Hands {ℓ} :
    {A : Type ℓ} → List ℕ → ℕ → ℕ → (ℕ → A) → ObjectPool → ThreadCache → Memory A → List ℕ → Type ℓ
Hands all threshold batch_size make p c h out =
    (x : ℕ) × (p' : ObjectPool) × (c' : ThreadCache) × (h' : Memory _) × (acquire batch_size make p
        c h
      ≡ some (some x, p', c', h'))
    × CachedOwned all threshold p' c' h' (x ∷ out)
    × (count x out ≡ 0)

module _ {ℓ} {A : Type ℓ} {all : List ℕ} {threshold : ℕ} where
  -- The newest pointer of a stack goes out.
  hands_out :
      {p : ObjectPool} {c : ThreadCache} {h : Memory A} {out free : List ℕ} (l : List ℕ) (x : ℕ)
      → CacheHolds threshold c (l ++ (x ∷ []))
      → Owned all p h free ((l ++ (x ∷ [])) ++ out)
      → CachedOwned all threshold p (record c { cache_size = length l }) h (x ∷ out)
        × (count x out ≡ 0)
  hands_out {out = out} {free = free} l x hc o = (
    record {
      free = free;
      cached = l;
      cache_holds = CacheHolds-prefix l (x ∷ []) hc;
      owned = rw (sym (append_assoc l (x ∷ []) out)) o;
    },
    omega (
      arith,
      o.once x,
      o.distinct x,
      count-append x (l ++ (x ∷ [])) out,
      count-append x l (x ∷ []),
      count_self x [],
    ),
  )

  module _ {p : ObjectPool} {c : ThreadCache} {h : Memory A} {out : List ℕ} where
    acquire_cached :
        (batch_size : ℕ) (make : ℕ → A) (free l : List ℕ) (x : ℕ)
        → CacheHolds threshold c (l ++ (x ∷ []))
        → Owned all p h free ((l ++ (x ∷ [])) ++ out)
        → Hands all threshold batch_size make p c h out
    unfolding acquire
    acquire_cached batch_size make free l x hc o =
        let (co, once) = hands_out l x hc o in
        (
          x,
          p,
          record c { cache_size = length l },
          h,
          rw (
            refill_none p h batch_size make (l ++ (x ∷ [])) hc (omega (arith, length-snoc l x)),
            pop_newest-some p h l x hc,
          ),
          co,
          once,
        )

    acquire_refilled :
        (batch_size : ℕ) (make : ℕ → A) (free : List ℕ)
        → 0 < batch_size
        → batch_size ≤ threshold
        → 0 < length free
        → CacheHolds threshold c []
        → Owned all p h free out
        → Hands all threshold batch_size make p c h out
    unfolding acquire refill
    acquire_refilled batch_size make free b1 b2 pos hc o =
        let (items, rest, p', cut, l, e, o') = acquire_batch-Owned batch_size make free out o in
        let made : Memory A = construct_all make 0 items h in
        let (cells, we, hc') = write_batch items hc (omega arith) in
        elim (snoc_view items) [
          | inl nil ↦ absurd (omega (arith, ap length nil))
          | inr s ↦
              let (m, x, eq) = s in
              let hc'' =
                subst
                  (λ i.
                    CacheHolds threshold (record { cache = cells; cache_size = length items }) i)
                  eq hc' in
              let (co, once) =
                hands_out {h = made} {free = rest} m x hc''
                  (subst (λ i. Owned all p' made rest (i ++ out)) eq o') in
              (
                x,
                p',
                record { cache = cells; cache_size = length m },
                made,
                rw (hc.sized, e, we, pop_newest-some p' made m x hc''),
                co,
                once,
              )
        ]

    acquire_exhausted :
        (batch_size : ℕ) (make : ℕ → A)
        → CacheHolds threshold c []
        → Owned all p h [] out
        → acquire batch_size make p c h ≡ some (none, p, c, h)
    unfolding acquire refill write_block
    acquire_exhausted batch_size make hc o =
        rw (hc.sized, acquire_batch_none batch_size make h o.holds)

    -- `acquire`, where a batch is not empty and fits the cache, hands out a pointer that nobody
    -- else holds, or returns null with nothing changed; then clients hold every address.
    pub acquire-CachedOwned :
        (batch_size : ℕ) (make : ℕ → A)
        → 0 < batch_size
        → batch_size ≤ threshold
        → CachedOwned all threshold p c h out
        → Hands all threshold batch_size make p c h out
          ⊎ ((acquire batch_size make p c h ≡ some (none, p, c, h)) × (length out ≡ p.pool_size))
    acquire-CachedOwned batch_size make b1 b2 o = go o.cached o.free o.cache_holds o.owned
      where
        empty :
            (free : List ℕ)
            → CacheHolds threshold c []
            → Owned all p h free out
            → Hands all threshold batch_size make p c h out
              ⊎ ((acquire batch_size make p c h ≡ some (none, p, c, h))
                  × (length out ≡ p.pool_size))
        empty [] hc o = inr (acquire_exhausted batch_size make hc o, omega (arith, o.total))
        empty (x ∷ free) hc o =
            inl (acquire_refilled batch_size make (x ∷ free) b1 b2 (omega arith) hc o)

        go :
            (cached free : List ℕ)
            → CacheHolds threshold c cached
            → Owned all p h free (cached ++ out)
            → Hands all threshold batch_size make p c h out
              ⊎ ((acquire batch_size make p c h ≡ some (none, p, c, h))
                  × (length out ≡ p.pool_size))
        go cached free hc o = elim (snoc_view cached) [
          | inl e ↦ empty free (rw e at hc) (subst (λ l. Owned all p h free (l ++ out)) e o)
          | inr s ↦ inl (
              acquire_cached batch_size make free s.0 s.1
                (subst (λ l. CacheHolds threshold c l) s.2 hc)
                (subst (λ l. Owned all p h free (l ++ out)) s.2 o))
        ]
