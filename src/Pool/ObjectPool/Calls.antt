-- ===== src/Pool/ObjectPool/Calls.antt =====
-- What each member function of an object pool does: which pointers it hands out or takes back, and
-- what becomes of the memory.
use sync_tools.Prelude.{
  ℕ, zero, suc, ◌+◌, ◌^◌, ◌≤◌, ◌<◌, min, ◌≡◌, refl, sym, ◌∙◌, ap, none, some, List, [], ◌∷◌, ◌++◌,
  arith, length, get_elem?, set, append-nil, lt→ltb, suc-==-zero,
}
use native.Mathlib.Nat.{mod-eq_of_lt}
use sync_tools.Prelude.Words.{add_size, IsPow2-pos}
use sync_tools.Pool.Size.{CountsLeadingZeros, round_up_pow2_least}
use sync_tools.Pool.Blocks.{write_at, Window-head, Window-snoc}
use sync_tools.Pool.Memory.{
  Memory, construct, destroy, construct_all, destroy_all, addresses, update,
}
use sync_tools.Pool.ObjectPool.{
  ObjectPool, new_pool, tail_index, acquire, release, acquire_batch, release_batch,
}
use sync_tools.Pool.ObjectPool.Holds.{
  Holds, Holds-advanced, Holds-returned, advanced, tail-eq-mod, tail_in, copy_out_lem, copy_in_lem,
}

-- The pool with `cells` written and `k` pointers more.
abbrev pub returned : ObjectPool → List ℕ → ℕ → ObjectPool
returned p cells k = record p { available = cells; available_count = add_size p.available_count k }

module _ {ℓ} {A : Type ℓ} {p : ObjectPool} where
  -- From a pool with no free pointer `acquire` returns null and changes nothing.
  pub acquire-none : (a : A) (h : Memory A) → Holds p [] → acquire a p h ≡ some (none, p, h)
  unfolding acquire
  acquire-none a h hp = rw hp.counted

  -- `acquire` hands out the first free pointer, with the object constructed there.
  pub acquire-some :
      (a : A) (h : Memory A) (x : ℕ) (rest : List ℕ)
      → Holds p (x ∷ rest)
      → (acquire a p h ≡ some (some x, advanced p 1, construct x a h)) × Holds (advanced p 1) rest
  unfolding acquire
  acquire-some a h x rest hp = (
    rw (hp.counted, suc-==-zero (length rest), Window-head x rest hp.head_in hp.window),
    Holds-advanced (x ∷ []) rest hp,
  )

  -- `release` destroys the object and puts the pointer behind the free ones.
  pub release_lem :
      (obj : ℕ) (v : A) (h : Memory A) (free : List ℕ)
      → Holds p free
      → h obj ≡ some v
      → length free < p.pool_size
      → let cells = set p.available (tail_index p) obj in
        (release obj p h ≡ some (returned p cells 1, update h obj none))
        × Holds (returned p cells 1) (free ++ (obj ∷ []))
  unfolding release destroy write_at
  release_lem obj v h free hp live room = (
    rw (live, destroy, lt→ltb (tail_index p) (length p.available) (rw hp.window.long (tail_in hp))),
    Holds-returned free (obj ∷ []) (set p.available (tail_index p) obj) hp (omega arith)
        (rw (tail-eq-mod hp) (Window-snoc free obj hp.head_in room hp.window)),
  )

  -- `acquire_batch` hands out the first `num` free pointers in their order, as many as there are up
  -- to `max_count`, each with an object constructed.
  pub acquire_batch_lem :
      (max_count : ℕ) (make : ℕ → A) (h : Memory A) (xs rest : List ℕ)
      → Holds p (xs ++ rest)
      → length xs ≡ min max_count (length (xs ++ rest))
      → (p' : ObjectPool) × (acquire_batch max_count make p h
          ≡ some (length xs, xs, p', construct_all make 0 xs h))
        × Holds p' rest
        × (p'.pool_size ≡ p.pool_size)
  unfolding acquire_batch construct_all
  acquire_batch_lem max_count make h [] rest hp e = (p, rw (hp.counted, ← e), hp, refl)
  acquire_batch_lem max_count make h (x ∷ xs) rest hp e = (
    advanced p (length (x ∷ xs)),
    rw (hp.counted, ← e, suc-==-zero (length xs), copy_out_lem (x ∷ xs) rest hp),
    Holds-advanced (x ∷ xs) rest hp,
    refl,
  )

  pub acquire_batch_none :
      (max_count : ℕ) (make : ℕ → A) (h : Memory A)
      → Holds p []
      → acquire_batch max_count make p h ≡ some (0, [], p, h)
  unfolding acquire_batch
  acquire_batch_none max_count make h hp =
      let e : min max_count p.available_count ≡ 0 = omega (arith, hp.counted) in rw e

  -- `release_batch` destroys the objects and puts the pointers behind the free ones, in order.
  pub release_batch_lem :
      (items free : List ℕ) (h h' : Memory A)
      → Holds p free
      → length free + length items ≤ p.pool_size
      → destroy_all items h ≡ some h'
      → (p' : ObjectPool) × (release_batch items p h ≡ some (p', h'))
        × Holds p' (free ++ items)
        × (p'.pool_size ≡ p.pool_size)
  unfolding release_batch destroy_all
  release_batch_lem [] free h h' hp l d = (p, cc, rw append-nil hp, refl)
  release_batch_lem (x ∷ xs) free h h' hp l d =
      let (cells, eq, w) = copy_in_lem free (x ∷ xs) hp l in
      (
        returned p cells (length (x ∷ xs)),
        rw (suc-==-zero (length xs), d, eq),
        Holds-returned free (x ∷ xs) cells hp l w,
        refl,
      )

pub length-addresses : (base n : ℕ) → length (addresses base n) ≡ n
length-addresses base zero = refl
length-addresses base (suc n) = ap suc (length-addresses (suc base) n)

-- The constructor, for a size up to `2 ^ 63`: every address of the storage is free, in order, and
-- the pool's size is the least power of two that is not below the size asked for.
pub new_pool_lem :
    {clz : ℕ → ℕ}
    → CountsLeadingZeros clz
    → (base size : ℕ) → size ≤ 2 ^ 63
    → (p : ObjectPool) × (new_pool clz base size ≡ some p)
      × Holds p (addresses base p.pool_size)
      × (size ≤ p.pool_size)
      × ((k : ℕ) → size ≤ 2 ^ k → p.pool_size ≤ 2 ^ k)
unfolding new_pool
new_pool_lem {clz} spec base size l =
    let (n, e, pow, above, least) = round_up_pow2_least spec size l in
    (
      record { pool_size = n; available = addresses base n; head_index = 0; available_count = n },
      rw e,
      record {
        pow = pow;
        window = record {
          long = length-addresses base n;
          at = λ j h.
              ap (λ k. get_elem? (addresses base n) k)
                (mod-eq_of_lt {n = 0 + j} {m = n} (omega (arith, length-addresses base n))
                  ∙ omega arith);
        };
        head_in = IsPow2-pos pow;
        counted = sym (length-addresses base n);
        fits = omega (arith, length-addresses base n);
      },
      above,
      least,
    )
