-- ===== src/Pool/Shared/New.antt =====
-- A new pool, with nothing cached and nothing held.
use sync_tools.Prelude.{
  ℕ, zero, suc, ◌^◌, ◌≤◌, ◌<◌, ◌≡◌, refl, sym, ◌∙◌, subst, none, some, some-injective, List, [],
  ◌++◌, arith, get_elem?, replicate, length-replicate,
}
use sync_tools.Prelude.Count.{count}
use sync_tools.Pool.Memory.{addresses}
use sync_tools.Pool.Live.{live}
use sync_tools.Pool.ObjectPool.{ObjectPool}
use sync_tools.Pool.ObjectPool.Holds.{Holds}
use sync_tools.Pool.ObjectPool.Calls.{length-addresses}
use sync_tools.Pool.ObjectPool.Ownership.{Owned}
use sync_tools.Pool.Cached.{ThreadCache, new_cache}
use sync_tools.Pool.Cached.Holds.{CacheHolds, new_cache-CacheHolds}
use sync_tools.Pool.Shared.{new_shared}
use sync_tools.Pool.Shared.Invariant.{flat, SharedOwned}

count-addresses_below : (x base n : ℕ) → x < base → count x (addresses base n) ≡ 0
count-addresses_below x base zero l = refl
count-addresses_below x base (suc n) l =
    ground (arith, count-addresses_below x (suc base) n (omega arith))

-- The addresses of the nodes are distinct.
count-addresses : (x base n : ℕ) → count x (addresses base n) ≤ 1
count-addresses x base zero = omega arith
count-addresses x base (suc n) =
    ground (arith, count-addresses x (suc base) n, count-addresses_below x (suc base) n)

flat-replicate : (n : ℕ) → flat (replicate n []) ≡ []
flat-replicate zero = refl
flat-replicate (suc n) = flat-replicate n

new_cache_of :
    (threshold threads i : ℕ) {c : ThreadCache}
    → 0 < threshold
    → threshold < 2 ^ 64
    → get_elem? (replicate threads (new_cache threshold)) i ≡ some c
    → (l : List ℕ) × (get_elem? (replicate threads []) i ≡ some l) × CacheHolds threshold c l
new_cache_of threshold zero i a b e = absurd (cc e)
new_cache_of threshold (suc threads) zero a b e = (
  [],
  refl,
  subst (λ c. CacheHolds threshold c []) (some-injective _ _ e)
      (new_cache-CacheHolds threshold a b),
)
new_cache_of threshold (suc threads) (suc i) a b e = new_cache_of threshold threads i a b e

pub new_shared-Owned {ℓ} :
    (A : Type ℓ) (threshold threads base : ℕ) (p : ObjectPool)
    → 0 < threshold
    → threshold < 2 ^ 64
    → Holds p (addresses base p.pool_size)
    → SharedOwned (addresses base p.pool_size) threshold (new_shared A threshold threads p)
unfolding live
new_shared-Owned A threshold threads base p a b holds =
    let none_cached : flat (replicate threads []) ≡ [] = flat-replicate threads in
    record {
      free = addresses base p.pool_size;
      cached = replicate threads [];
      cache_of = λ i e. new_cache_of threshold threads i a b e;
      one_each = length-replicate threads [] ∙ sym (length-replicate threads (new_cache threshold));
      owned =
          subst
            (λ l.
              Owned {A = A} (addresses base p.pool_size) p (λ x. none) (addresses base p.pool_size)
                (l ++ []))
            (sym none_cached)
            (record {
              holds = holds;
              distinct = λ x. count-addresses x base p.pool_size;
              once = λ x. omega arith;
              total = omega (arith, length-addresses base p.pool_size);
              alive = λ x e. refl;
            });
    }
