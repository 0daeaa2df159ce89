-- ===== src/Pool/Tests.antt =====
-- The object pools on concrete inputs: two nodes at address 100.
use sync_tools.Prelude.{
  ℕ, zero, suc, ◌+◌, ◌^◌, ◌≤◌, ◌<◌, min, ◌≡◌, refl, none, some, List, [], ◌∷◌, ◌++◌, arith, length,
  get_elem?, ◌%◌,
}
use sync_tools.Prelude.Count.{count}
use sync_tools.Prelude.Words.{IsPow2}
use sync_tools.Pool.Size.{round_up_pow2}
use sync_tools.Pool.LeadingZeros.{bits, clz, clz_counts}
use sync_tools.Pool.Memory.{Memory, construct, construct_all, addresses, update}
use sync_tools.Pool.Live.{live, live-construct}
use sync_tools.Pool.ObjectPool.{
  ObjectPool, new_pool, acquire, release, acquire_batch, release_batch,
}
use sync_tools.Pool.ObjectPool.Holds.{Holds}
use sync_tools.Pool.ObjectPool.Calls.{new_pool_lem}
use sync_tools.Pool.ObjectPool.Ownership.{
  Owned, Parts, acquire-Owned, release-Owned, acquire_batch-Owned, release_batch-Owned,
}
use sync_tools.Pool.ObjectPool.Batches.{acquire_each, acquire_batch-eq-acquire_each}
use sync_tools.Pool.ObjectPool.RoundTrip.{batch_round_trip}
use sync_tools.Storage.{◌>>=◌}
use sync_tools.Pool.Cached
use sync_tools.Pool.Cached.{ThreadCache, new_cache}
use sync_tools.Pool.Cached.Holds.{CacheHolds, new_cache-CacheHolds}
use sync_tools.Pool.Cached.Limits.{acquire_after_release, acquire_overflows}

five_rounds_up : round_up_pow2 clz 5 ≡ some 8
unfolding round_up_pow2 clz bits
five_rounds_up = refl

new_pool_lem_example :
    (p : ObjectPool) × (new_pool clz 100 5 ≡ some p)
    × Holds p (addresses 100 p.pool_size)
    × (5 ≤ p.pool_size)
    × ((k : ℕ) → 5 ≤ 2 ^ k → p.pool_size ≤ 2 ^ k)
new_pool_lem_example = new_pool_lem clz_counts 100 5 (omega arith)

abbrev both : List ℕ
both = 100 ∷ 101 ∷ []

abbrev pair : ObjectPool
pair = record { pool_size = 2; available = both; head_index = 0; available_count = 2 }

abbrev raw : Memory ℕ
raw x = none

live-raw : (x : ℕ) → live raw x ≡ 0
unfolding live
live-raw x = refl

pair_pow : IsPow2 2
pair_pow = record { exponent = 1; is_pow = refl; fits = omega arith }

pair_distinct : (x : ℕ) → count x both ≤ 1
pair_distinct x = ground arith

-- Nothing is held.
pair-Owned : Owned both pair raw both []
unfolding live
pair-Owned = record {
  holds = record {
    pow = pair_pow;
    window = record { long = refl; at = window };
    head_in = omega arith;
    counted = refl;
    fits = omega arith;
  };
  distinct = pair_distinct;
  once = λ x. omega arith;
  total = refl;
  alive = λ x h. refl;
}
  where
    window : (j : ℕ) → j < 2 → get_elem? both ((0 + j) % 2) ≡ get_elem? both j
    window zero h = refl
    window (suc zero) h = refl
    window (suc (suc j)) h = absurd (omega arith)

-- One client holds 100.
abbrev pair_less_one : ObjectPool
pair_less_one = record { pool_size = 2; available = both; head_index = 1; available_count = 1 }

abbrev made : Memory ℕ
made = construct 100 7 raw

less_one-Owned : Owned both pair_less_one made (101 ∷ []) (100 ∷ [])
less_one-Owned = record {
  holds = record {
    pow = pair_pow;
    window = record { long = refl; at = window };
    head_in = omega arith;
    counted = refl;
    fits = omega arith;
  };
  distinct = pair_distinct;
  once = λ x. ground arith;
  total = refl;
  alive = λ x h. ground (arith, live-construct raw 100 7 x, live-raw x);
}
  where
    window : (j : ℕ) → j < 1 → get_elem? both ((1 + j) % 2) ≡ get_elem? (101 ∷ []) j
    window zero h = refl
    window (suc j) h = absurd (omega arith)

acquire-Owned_example :
    (p' : ObjectPool) × (acquire 7 pair raw ≡ some (some 100, p', construct 100 7 raw))
    × Owned both p' (construct 100 7 raw) (101 ∷ []) (100 ∷ [])
    × (count 100 [] ≡ 0)
acquire-Owned_example = acquire-Owned 7 100 (101 ∷ []) [] pair-Owned

one_held : Parts (100 ∷ []) (100 ∷ []) []
one_held = record { counts = λ x. omega arith; lengths = omega arith }

release-Owned_example :
    (p' : ObjectPool) × (release 100 pair_less_one made ≡ some (p', update made 100 none))
    × Owned both p' (update made 100 none) ((101 ∷ []) ++ (100 ∷ [])) []
release-Owned_example = release-Owned 100 (101 ∷ []) (100 ∷ []) [] less_one-Owned one_held

acquire_batch-Owned_example :
    (out rest : List ℕ) × (p' : ObjectPool) × (both ≡ out ++ rest)
    × (length out ≡ min 3 (length both))
    × (acquire_batch 3 (λ i. i) pair raw
        ≡ some (length out, out, p', construct_all (λ i. i) 0 out raw))
    × Owned both p' (construct_all (λ i. i) 0 out raw) rest (out ++ [])
acquire_batch-Owned_example = acquire_batch-Owned 3 (λ i. i) both [] pair-Owned

acquire_batch-eq-acquire_each_example :
    acquire_batch 3 (λ i. i) pair raw
    ≡ (acquire_each 3 0 (λ i. i) pair raw >>= λ r. some (length r.0, r.0, r.1, r.2))
acquire_batch-eq-acquire_each_example =
    acquire_batch-eq-acquire_each 3 (λ i. i) raw both pair-Owned.holds

batch_round_trip_example :
    (out rest : List ℕ) × (p' p'' : ObjectPool) × (h' h'' : Memory ℕ) × (both ≡ out ++ rest)
    × (acquire_batch 1 (λ i. i) pair raw ≡ some (length out, out, p', h'))
    × (release_batch out p' h' ≡ some (p'', h''))
    × Owned both p'' h'' (rest ++ out) []
    × ((y : ℕ) → count y both ≡ 1 → h'' y ≡ raw y)
batch_round_trip_example = batch_round_trip 1 (λ i. i) both [] pair-Owned

release_batch-Owned_example :
    (p' : ObjectPool) × (h' : Memory ℕ) × (release_batch (100 ∷ []) pair_less_one made
      ≡ some (p', h'))
    × Owned both p' h' ((101 ∷ []) ++ (100 ∷ [])) []
release_batch-Owned_example =
    release_batch-Owned (100 ∷ []) (101 ∷ []) (100 ∷ []) [] less_one-Owned one_held

-- Pointer 100 of one pool is handed out by another, with nodes elsewhere.
abbrev other_pool : ObjectPool
other_pool = record pair { available = 500 ∷ 501 ∷ [] }

acquire_after_release_example :
    (c' c'' : ThreadCache) × (Cached.release 2 100 pair_less_one (new_cache 2) made
      ≡ some (pair_less_one, c', made))
    × (Cached.acquire 2 (λ i. i) other_pool c' made ≡ some (some 100, other_pool, c'', made))
    × CacheHolds 2 c'' []
acquire_after_release_example =
    acquire_after_release pair_less_one made 100 2 (λ i. i) other_pool []
      (new_cache-CacheHolds 2 (omega arith) (omega arith)) (omega arith)

acquire_overflows_example : Cached.acquire 2 (λ i. i) pair (new_cache 1) raw ≡ none
acquire_overflows_example =
    acquire_overflows 2 (λ i. i) (new_cache-CacheHolds 1 (omega arith) (omega arith)) pair-Owned
      (omega arith) (omega arith)
