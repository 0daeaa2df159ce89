-- ===== src/Pool/Shared/Invariant.antt =====
-- Every address is free, in one thread's cache or held by clients, once, whatever the threads call.
use sync_tools.Prelude.{
  ℕ, zero, suc, ◌+◌, ◌≤◌, ◌<◌, ◌≡◌, sym, ◌∙◌, ap, subst, Option, none, some, some-injective, List,
  [], ◌∷◌, ◌++◌, inl, inr, arith, length, length-append, get_elem?, set, length-set,
  get_elem?-set_self, get_elem?-set_other, ℕ_discrete,
}
use sync_tools.Prelude.Count.{count, count-append}
use sync_tools.Pool.Blocks.{read_block}
use sync_tools.Pool.Memory.{Memory}
use sync_tools.Pool.ObjectPool.{ObjectPool}
use sync_tools.Pool.ObjectPool.Ownership.{Owned, Parts}
use sync_tools.Pool.Cached.{ThreadCache, new_cache, acquire, release, flush}
use sync_tools.Pool.Cached.Holds.{new_cache-CacheHolds, read_part, CacheHolds}
use sync_tools.Pool.Cached.Calls.{CachedOwned, Owned-perm, acquire-CachedOwned}
use sync_tools.Pool.Cached.Returns.{release-CachedOwned, flush-CachedOwned}
use sync_tools.Pool.Shared.{
  Shared, SharedStep, acquires, acquires_none, releases, flushes, ends, SharedReach, begins,
  goes_on,
}

-- All that the caches hold.
abbrev pub flat : List (List ℕ) → List ℕ
flat [] = []
flat (l ∷ ls) = l ++ flat ls

pub count-flat-set :
    (x : ℕ) (ls : List (List ℕ)) (i : ℕ) {l : List ℕ} (m : List ℕ)
    → get_elem? ls i ≡ some l
    → count x (flat (set ls i m)) + count x l ≡ count x (flat ls) + count x m
count-flat-set x [] i m e = absurd (cc e)
count-flat-set x (k ∷ ls) zero {l} m e =
    let z : k ≡ l = some-injective k l e in
    omega (arith, count-append x m (flat ls), count-append x k (flat ls), ap (λ l. count x l) z)
count-flat-set x (k ∷ ls) (suc i) {l} m e = omega (
  arith,
  count-append x k (flat (set ls i m)),
  count-append x k (flat ls),
  count-flat-set x ls i {l = l} m e,
)

pub length-flat-set :
    (ls : List (List ℕ)) (i : ℕ) {l : List ℕ} (m : List ℕ)
    → get_elem? ls i ≡ some l
    → length (flat (set ls i m)) + length l ≡ length (flat ls) + length m
length-flat-set [] i m e = absurd (cc e)
length-flat-set (k ∷ ls) zero {l} m e =
    let z : k ≡ l = some-injective k l e in
    omega (arith, length-append m (flat ls), length-append k (flat ls), ap (λ l. length l) z)
length-flat-set (k ∷ ls) (suc i) {l} m e = omega (
  arith,
  length-append k (flat (set ls i m)),
  length-append k (flat ls),
  length-flat-set ls i {l = l} m e,
)

-- Of the addresses `all`, the pool has `free`, each thread's cache its list, and clients the rest.
pub record SharedOwned {ℓ} {A : Type ℓ} (all : List ℕ) (threshold : ℕ) (s : Shared A) : Type 0 where
  pub free : List ℕ
  pub cached : List (List ℕ)
  pub cache_of :
      (i : ℕ) {c : ThreadCache}
      → get_elem? s.caches i ≡ some c
      → (l : List ℕ) × (get_elem? cached i ≡ some l) × CacheHolds threshold c l
  pub one_each : length cached ≡ length s.caches
  pub owned : Owned all s.pool s.memory free (flat cached ++ (s.held ++ s.lost))

module _ {ℓ} {A : Type ℓ} {all : List ℕ} {threshold : ℕ} {s : Shared A} where
  -- What is neither in the cache of thread `i` nor free: with the clients, or in other caches.
  abbrev pub elsewhere : SharedOwned all threshold s → ℕ → List ℕ
  elsewhere o i = flat (set o.cached i []) ++ (s.held ++ s.lost)

  -- What thread `i` sees.
  pub own_part :
      (o : SharedOwned all threshold s) (i : ℕ) {c : ThreadCache}
      → get_elem? s.caches i ≡ some c
      → CachedOwned all threshold s.pool c s.memory (elsewhere o i)
  own_part o i e =
      let (l, at, holds) = o.cache_of i e in
      record {
        free = o.free;
        cached = l;
        cache_holds = holds;
        owned =
            Owned-perm
              (λ x. omega (
                arith,
                count-flat-set x o.cached i [] at,
                count-append x (flat o.cached) (s.held ++ s.lost),
                count-append x l (elsewhere o i),
                count-append x (flat (set o.cached i [])) (s.held ++ s.lost),
              ))
              (omega (
                arith,
                length-flat-set o.cached i [] at,
                length-append (flat o.cached) (s.held ++ s.lost),
                length-append l (elsewhere o i),
                length-append (flat (set o.cached i [])) (s.held ++ s.lost),
              ))
              o.owned;
      }

  -- Thread `i` changes its cache, the pool and the memory; clients hold `held` after it, and `lost`
  -- are lost.
  pub changed :
      (o : SharedOwned all threshold s) (i : ℕ) {c : ThreadCache}
      → get_elem? s.caches i ≡ some c
      → {p' : ObjectPool} {c' : ThreadCache} {h' : Memory A} (out held lost : List ℕ)
      → CachedOwned all threshold p' c' h' out
      → Parts out (flat (set o.cached i [])) (held ++ lost)
      → SharedOwned all threshold
          (record { pool = p'; caches = set s.caches i c'; memory = h'; held = held; lost = lost })
  changed o i e {p'} {c'} {h'} out held lost o' parts =
      let at = (o.cache_of i e).1 in
      record {
        free = o'.free;
        cached = set o.cached i o'.cached;
        cache_of = λ j f. elim (ℕ_discrete i j) [
          | yes same ↦
              let now : get_elem? (set s.caches i c') j ≡ some c' =
                subst (λ k. get_elem? (set s.caches i c') k ≡ some c') same
                  (get_elem?-set_self s.caches i c' e) in
              (
                o'.cached,
                subst (λ k. get_elem? (set o.cached i o'.cached) k ≡ some o'.cached) same
                    (get_elem?-set_self o.cached i o'.cached at),
                subst (λ k. CacheHolds threshold k o'.cached) (some-injective _ _ (sym now ∙ f))
                    o'.cache_holds,
              )
          | no other ↦
              let (l, there, holds) =
                o.cache_of j (sym (get_elem?-set_other s.caches i j c' other) ∙ f) in
              (l, get_elem?-set_other o.cached i j o'.cached other ∙ there, holds)
        ];
        one_each = length-set o.cached i o'.cached ∙ o.one_each ∙ sym (length-set s.caches i c');
        owned =
            Owned-perm
              (λ x. omega (
                arith,
                parts.counts x,
                count-flat-set x o.cached i [] at,
                count-flat-set x o.cached i o'.cached at,
                count-append x o'.cached out,
                count-append x (flat (set o.cached i o'.cached)) (held ++ lost),
              ))
              (omega (
                arith,
                parts.lengths,
                length-flat-set o.cached i [] at,
                length-flat-set o.cached i o'.cached at,
                length-append o'.cached out,
                length-append (flat (set o.cached i o'.cached)) (held ++ lost),
              ))
              o'.owned;
      }

  -- The clients' pointers, beside the rest of what the thread does not see.
  pub beside :
      (o : SharedOwned all threshold s) (i : ℕ) (xs : List ℕ)
      → Parts (xs ++ elsewhere o i) (flat (set o.cached i [])) (xs ++ (s.held ++ s.lost))
  beside o i xs = record {
    counts = λ x. omega (
      arith,
      count-append x xs (elsewhere o i),
      count-append x (flat (set o.cached i [])) (s.held ++ s.lost),
      count-append x xs (s.held ++ s.lost),
    );
    lengths = omega (
      arith,
      length-append xs (elsewhere o i),
      length-append (flat (set o.cached i [])) (s.held ++ s.lost),
      length-append xs (s.held ++ s.lost),
    );
  }

  -- A pointer that clients give back, among all that the thread does not see.
  pub given_back :
      (o : SharedOwned all threshold s) (i x : ℕ) (kept : List ℕ)
      → Parts s.held (x ∷ []) kept
      → Parts (elsewhere o i) (x ∷ []) (flat (set o.cached i []) ++ (kept ++ s.lost))
  given_back o i x kept parts = record {
    counts = λ y. omega (
      arith,
      parts.counts y,
      count-append y (flat (set o.cached i [])) (s.held ++ s.lost),
      count-append y s.held s.lost,
      count-append y kept s.lost,
      count-append y (flat (set o.cached i [])) (kept ++ s.lost),
    );
    lengths = omega (
      arith,
      parts.lengths,
      length-append (flat (set o.cached i [])) (s.held ++ s.lost),
      length-append s.held s.lost,
      length-append kept s.lost,
      length-append (flat (set o.cached i [])) (kept ++ s.lost),
    );
  }

both-Parts : (others kept : List ℕ) → Parts (others ++ kept) others kept
both-Parts others kept = record {
  counts = λ y. count-append y others kept;
  lengths = length-append others kept;
}

-- After an `acquire` by thread `i` that gives `r`.
abbrev handed : Option ℕ → List ℕ → List ℕ
handed none l = l
handed (some x) l = x ∷ l

abbrev after {ℓ} :
    {A : Type ℓ} → Shared A → ℕ → Option ℕ × ObjectPool × ThreadCache × Memory A → Shared A
after s i r = record {
  pool = r.1;
  caches = set s.caches i r.2;
  memory = r.3;
  held = handed r.0 s.held;
  lost = s.lost;
}

module _ {ℓ} {A : Type ℓ} {all : List ℕ} {threshold : ℕ} {s : Shared A}
    (o : SharedOwned all threshold s) (i : ℕ) {c : ThreadCache}
    (e : get_elem? s.caches i ≡ some c) where
  acquired :
      (batch_size : ℕ) (make : ℕ → A) {r : Option ℕ × ObjectPool × ThreadCache × Memory A}
      → 0 < batch_size
      → batch_size ≤ threshold
      → acquire batch_size make s.pool c s.memory ≡ some r
      → SharedOwned all threshold (after s i r)
  acquired batch_size make {r} some_batch fits call =
      elim (acquire-CachedOwned batch_size make some_batch fits (own_part o i e)) [
        | inl hands ↦
            subst (λ r. SharedOwned all threshold (after s i r))
              (some-injective _ _ (sym hands.4 ∙ call))
              (changed o i e (hands.0 ∷ elsewhere o i) (hands.0 ∷ s.held) s.lost hands.5
                (beside o i (hands.0 ∷ [])))
        | inr none_left ↦
            subst (λ r. SharedOwned all threshold (after s i r))
              (some-injective _ _ (sym none_left.0 ∙ call))
              (changed o i e (elsewhere o i) s.held s.lost (own_part o i e) (beside o i []))
      ]

  released :
      (x : ℕ) (kept : List ℕ) {r : ObjectPool × ThreadCache × Memory A}
      → 2 ≤ threshold
      → Parts s.held (x ∷ []) kept
      → release threshold x s.pool c s.memory ≡ some r
      → SharedOwned all threshold (record {
        pool = r.0;
        caches = set s.caches i r.1;
        memory = r.2;
        held = kept;
        lost = s.lost;
      })
  released x kept {r} two parts call =
      let others : List ℕ = flat (set o.cached i []) in
      let (p', c', h', eq, o') =
        release-CachedOwned x (others ++ (kept ++ s.lost)) two (own_part o i e)
          (given_back o i x kept parts) in
      subst
        (λ r. SharedOwned all threshold (record {
          pool = r.0;
          caches = set s.caches i r.1;
          memory = r.2;
          held = kept;
          lost = s.lost;
        }))
        (some-injective (p', c', h') r (sym eq ∙ call))
        (changed o i e (others ++ (kept ++ s.lost)) kept s.lost o'
          (both-Parts others (kept ++ s.lost)))

  flushed :
      {r : ObjectPool × ThreadCache × Memory A}
      → flush s.pool c s.memory ≡ some r
      → SharedOwned all threshold (record {
        pool = r.0;
        caches = set s.caches i r.1;
        memory = r.2;
        held = s.held;
        lost = s.lost;
      })
  flushed {r} call =
      let (p', c', h', eq, z, o') = flush-CachedOwned (own_part o i e) in
      subst
        (λ r. SharedOwned all threshold (record {
          pool = r.0;
          caches = set s.caches i r.1;
          memory = r.2;
          held = s.held;
          lost = s.lost;
        }))
        (some-injective (p', c', h') r (sym eq ∙ call))
        (changed o i e (elsewhere o i) s.held s.lost o' (beside o i []))

  ended :
      {items : List ℕ}
      → read_block c.cache 0 c.cache_size ≡ some items
      → SharedOwned all threshold
          (record s { caches = set s.caches i (new_cache threshold); lost = items ++ s.lost })
  ended {items} there =
      let w = own_part o i e in
      let z : w.cached ≡ items = some-injective w.cached items (
        sym (read_part [] w.cached w.cache_holds)
        ∙ ap (λ n. read_block c.cache 0 n) (sym w.cache_holds.sized)
        ∙ there) in
      changed o i e (w.cached ++ elsewhere o i) s.held (items ++ s.lost)
        (record {
          free = w.free;
          cached = [];
          cache_holds = new_cache-CacheHolds threshold w.cache_holds.positive w.cache_holds.word;
          owned = w.owned;
        })
        (record {
          counts = λ x. omega (
            arith,
            ap (λ l. count x l) z,
            count-append x w.cached (elsewhere o i),
            count-append x (flat (set o.cached i [])) (s.held ++ s.lost),
            count-append x s.held s.lost,
            count-append x s.held (items ++ s.lost),
            count-append x items s.lost,
          );
          lengths = omega (
            arith,
            ap (λ l. length l) z,
            length-append w.cached (elsewhere o i),
            length-append (flat (set o.cached i [])) (s.held ++ s.lost),
            length-append s.held s.lost,
            length-append s.held (items ++ s.lost),
            length-append items s.lost,
          );
        })

-- A call of a thread keeps all accounted for.
pub SharedStep-Owned {ℓ} :
    {A : Type ℓ} {all : List ℕ} {batch_size threshold : ℕ} {s t : Shared A}
    → 0 < batch_size
    → batch_size ≤ threshold
    → 2 ≤ threshold
    → SharedStep batch_size threshold s t
    → SharedOwned all threshold s
    → SharedOwned all threshold t
SharedStep-Owned {batch_size = batch_size} some_batch fits two (acquires i make e call) o =
    acquired o i e batch_size make some_batch fits call
SharedStep-Owned {batch_size = batch_size} some_batch fits two (acquires_none i make e call) o =
    acquired o i e batch_size make some_batch fits call
SharedStep-Owned some_batch fits two (releases i x kept e parts call) o =
    released o i e x kept two parts call
SharedStep-Owned some_batch fits two (flushes i e call) o = flushed o i e call
SharedStep-Owned some_batch fits two (ends i e there) o = ended o i e there

pub SharedReach-Owned {ℓ} :
    {A : Type ℓ} {all : List ℕ} {batch_size threshold : ℕ} {s t : Shared A}
    → 0 < batch_size
    → batch_size ≤ threshold
    → 2 ≤ threshold
    → SharedReach batch_size threshold s t
    → SharedOwned all threshold s
    → SharedOwned all threshold t
SharedReach-Owned some_batch fits two begins o = o
SharedReach-Owned some_batch fits two (goes_on reach step) o =
    SharedStep-Owned some_batch fits two step (SharedReach-Owned some_batch fits two reach o)
