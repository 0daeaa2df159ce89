-- ===== src/Pool/Cached/Returns.antt =====
-- Giving pointers back to a cached pool: `release`, which flushes half of a full cache, and `flush`.
use sync_tools.Prelude.{
  ℕ, ◌+◌, ◌-◌, ◌/◌, ◌≤◌, ◌<◌, ◌≡◌, refl, sym, some, List, [], ◌∷◌, ◌++◌, leb, true, false, arith,
  length, length-append, lt→ltb, take, drop, take-append-drop, length-take, length-drop, subst,
  dec_lt,
}
use sync_tools.Prelude.Count.{count-append}
use sync_tools.Prelude.Words.{sub_size}
use sync_tools.Pool.Memory.{Memory}
use sync_tools.Pool.ObjectPool.{ObjectPool, release_batch}
use sync_tools.Pool.ObjectPool.Ownership.{Owned, Parts, release_batch-Owned}
use sync_tools.Pool.Cached.{ThreadCache, flush_half, release, flush}
use sync_tools.Pool.Cached.Holds.{CacheHolds, CacheHolds-prefix, read_part, write_newest}
use sync_tools.Pool.Cached.Calls.{CachedOwned, Owned-perm}

module _ {ℓ} {A : Type ℓ} {all : List ℕ} {p : ObjectPool} {h : Memory A} where
  -- A pointer goes from its holder into the cache.
  put_back :
      (out free l kept : List ℕ) (x : ℕ)
      → Owned all p h free (l ++ out)
      → Parts out (x ∷ []) kept
      → Owned all p h free ((l ++ (x ∷ [])) ++ kept)
  put_back out free l kept x o parts =
      Owned-perm
        (λ y. omega (
          arith,
          parts.counts y,
          count-append y l out,
          count-append y (l ++ (x ∷ [])) kept,
          count-append y l (x ∷ []),
        ))
        (omega (
          arith,
          parts.lengths,
          length-append l out,
          length-append (l ++ (x ∷ [])) kept,
          length-append l (x ∷ []),
        ))
        o

module _ {ℓ} {A : Type ℓ} {all : List ℕ} {threshold : ℕ} {p : ObjectPool} {c : ThreadCache}
    {h : Memory A} where
  -- The newest part `m` of the cache goes to the global pool.
  flush_part :
      (out free l m : List ℕ)
      → CacheHolds threshold c (l ++ m)
      → Owned all p h free ((l ++ m) ++ out)
      → (p' : ObjectPool) × (h' : Memory A) × (release_batch m p h ≡ some (p', h'))
        × Owned all p' h' (free ++ m) (l ++ out)
  flush_part out free l m hc o = release_batch-Owned m free ((l ++ m) ++ out) (l ++ out) o (record {
    counts =
        λ x. omega (arith, count-append x (l ++ m) out, count-append x l m, count-append x l out);
    lengths = omega (arith, length-append (l ++ m) out, length-append l m, length-append l out);
  })

  flush_half-Owned :
      (out free l m : List ℕ)
      → CacheHolds threshold c (l ++ m)
      → Owned all p h free ((l ++ m) ++ out)
      → length m ≡ (length l + length m) / 2
      → 0 < length m
      → (p' : ObjectPool) × (h' : Memory A) × (flush_half p c h
          ≡ some (p', record c { cache_size = length l }, h'))
        × Owned all p' h' (free ++ m) (l ++ out)
  unfolding flush_half
  flush_half-Owned out free l m hc o half pos =
      let (p', h', e, o') = flush_part out free l m hc o in
      let n : c.cache_size / 2 ≡ length m = omega (arith, hc.sized, length-append l m) in
      let k : sub_size c.cache_size (length m) ≡ length l =
        omega (arith, hc.sized, length-append l m, hc.fits, hc.word) in
      (p', h', rw (n, k, lt→ltb 0 (length m) pos, read_part l m hc, e), o')

  -- `flush` is defined and gives the whole cache back to the global pool: the thread then caches
  -- nothing, and clients hold what they held.
  pub flush-CachedOwned :
      {out : List ℕ}
      → CachedOwned all threshold p c h out
      → (p' : ObjectPool) × (c' : ThreadCache) × (h' : Memory A) × (flush p c h ≡ some (p', c', h'))
        × (c'.cache_size ≡ 0)
        × CachedOwned all threshold p' c' h' out
  unfolding flush
  flush-CachedOwned {out} o = elim (dec_lt 0 (length o.cached)) [
    | yes pos ↦
        let hc = o.cache_holds in
        let (p', h', e, o') = flush_part out o.free [] o.cached hc o.owned in
        (
          p',
          record c { cache_size = 0 },
          h',
          rw (hc.sized, lt→ltb 0 (length o.cached) pos, read_part [] o.cached hc, e),
          refl,
          record {
            free = o.free ++ o.cached;
            cached = [];
            cache_holds = CacheHolds-prefix [] o.cached hc;
            owned = o';
          },
        )
    | no empty ↦
        let z : c.cache_size ≡ 0 = omega (arith, o.cache_holds.sized) in (p, c, h, rw z, z, o)
  ]

  -- `release`, where the cache has room for two pointers at least: no access is out of bounds, the
  -- pointer goes from the holders `out` to the cache, and none is lost.
  pub release-CachedOwned :
      {out : List ℕ} (x : ℕ) (kept : List ℕ)
      → 2 ≤ threshold
      → CachedOwned all threshold p c h out
      → Parts out (x ∷ []) kept
      → (p' : ObjectPool) × (c' : ThreadCache) × (h' : Memory A) × (release threshold x p c h
          ≡ some (p', c', h'))
        × CachedOwned all threshold p' c' h' kept
  unfolding release
  release-CachedOwned {out} x kept two o parts = elim (dec_lt (length o.cached) threshold) [
    | yes room ↦
        let hc = o.cache_holds in
        let (w, hc') = write_newest o.cached x hc room in
        let below : leb threshold c.cache_size ≡ false = ground (arith, hc.sized) in
        (
          p,
          _,
          h,
          rw (below, w),
          record {
            free = o.free;
            cached = o.cached ++ (x ∷ []);
            cache_holds = hc';
            owned = put_back out o.free o.cached kept x o.owned parts;
          },
        )
    | no full ↦
        let hc = o.cache_holds in
        let n : ℕ = length o.cached - length o.cached / 2 in
        let l : List ℕ = take n o.cached in
        let m : List ℕ = drop n o.cached in
        let cut : o.cached ≡ l ++ m = sym (take-append-drop n o.cached) in
        let ll : length l ≡ n = length-take n o.cached (omega arith) in
        let lm : length m ≡ length o.cached - n = length-drop n o.cached in
        let hc1 : CacheHolds threshold c (l ++ m) = subst (λ i. CacheHolds threshold c i) cut hc in
        let o1 : Owned all p h o.free ((l ++ m) ++ out) =
          subst (λ i. Owned all p h o.free (i ++ out)) cut o.owned in
        let (p', h', e, o') = flush_half-Owned out o.free l m hc1 o1 (omega arith) (omega arith) in
        let (w, hc') = write_newest l x (CacheHolds-prefix l m hc1) (omega (arith, hc.fits)) in
        let above : leb threshold c.cache_size ≡ true = ground (arith, hc.sized) in
        (
          p',
          _,
          h',
          rw (above, e, w),
          record {
            free = o.free ++ m;
            cached = l ++ (x ∷ []);
            cache_holds = hc';
            owned = put_back out (o.free ++ m) l kept x o' parts;
          },
        )
  ]
