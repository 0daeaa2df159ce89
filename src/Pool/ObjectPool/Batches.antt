-- ===== src/Pool/ObjectPool/Batches.antt =====
-- `acquire_batch` beside calls of `acquire`, one for each pointer.
use sync_tools.Prelude.{
  ℕ, zero, suc, ◌+◌, ◌%◌, min, ◌≡◌, sym, ◌∙◌, ap, ap₂, Option, none, some, List, [], ◌∷◌, ◌++◌,
  arith, length, length-append, take, drop, take-append-drop, length-take, suc-==-zero, subst,
}
use native.Mathlib.Nat.{mod-add-mod, mod-eq_of_lt}
use sync_tools.Prelude.Words.{IsPow2-le}
use sync_tools.Storage.{◌>>=◌}
use sync_tools.Pool.Memory.{Memory, construct, construct_all}
use sync_tools.Pool.ObjectPool.{ObjectPool, acquire, acquire_batch}
use sync_tools.Pool.ObjectPool.Holds.{Holds, Holds-advanced, advance-eq-mod, advanced, copy_out_lem}
use sync_tools.Pool.ObjectPool.Calls.{acquire-none, acquire-some}

-- `acquire` until it returns null, at most `n` times; the object of the call after `i` others is
-- `make i`.
unfoldable pub acquire_each {ℓ} :
    {A : Type ℓ}
    → (n i : ℕ) → (ℕ → A)
    → ObjectPool
    → Memory A
    → Option (List ℕ × ObjectPool × Memory A)
unfolding acquire
acquire_each zero i make p h = some ([], p, h)
acquire_each (suc n) i make p h = acquire (make i) p h >>= λ r. elim r.0 [
  | none ↦ some ([], r.1, r.2)
  | some x ↦ acquire_each n (suc i) make r.1 r.2 >>= λ s. some (x ∷ s.0, s.1, s.2)
]

module _ {p : ObjectPool} where
  same_pool :
      (head count : ℕ)
      → head ≡ p.head_index
      → count ≡ p.available_count
      → record p { head_index = head; available_count = count } ≡ p
  same_pool head count e f = ap₂ (λ a b. record p { head_index = a; available_count = b }) e f

  advanced_zero : {free : List ℕ} → Holds p free → advanced p 0 ≡ p
  advanced_zero h =
      same_pool _ _
        (advance-eq-mod h 0 (omega arith)
          ∙ mod-eq_of_lt {n = p.head_index + 0} (omega (arith, h.head_in))
          ∙ omega arith)
        (omega (arith, h.counted, h.fits, IsPow2-le h.pow))

  advanced_more :
      (x : ℕ) (xs rest : List ℕ)
      → Holds p (x ∷ (xs ++ rest))
      → advanced (advanced p 1) (length xs) ≡ advanced p (suc (length xs))
  advanced_more x xs rest h =
      let h' : Holds (advanced p 1) (xs ++ rest) = Holds-advanced (x ∷ []) (xs ++ rest) h in
      let n = length-append xs rest in
      ap₂ (λ a b. record p { head_index = a; available_count = b })
        (advance-eq-mod h' (length xs) (omega (arith, h'.fits))
          ∙ ap (λ j. (j + length xs) % p.pool_size) (advance-eq-mod h 1 (omega (arith, h.fits)))
          ∙ mod-add-mod (p.head_index + 1) p.pool_size (length xs)
          ∙ ap (λ j. j % p.pool_size) (omega arith)
          ∙ sym (advance-eq-mod h (suc (length xs)) (omega (arith, h.fits))))
        (omega (arith, h.counted, h.fits, IsPow2-le h.pow))

-- What the calls hand out one by one.
each_lem {ℓ} :
    {A : Type ℓ} (n i : ℕ) (make : ℕ → A) (h : Memory A) (xs rest : List ℕ) {p : ObjectPool}
    → Holds p (xs ++ rest)
    → length xs ≡ min n (length (xs ++ rest))
    → acquire_each n i make p h ≡ some (xs, advanced p (length xs), construct_all make i xs h)
unfolding acquire_each construct_all
each_lem zero i make h [] rest hp e = ap (λ q. some ([], q, h)) (sym (advanced_zero hp))
each_lem zero i make h (x ∷ xs) rest hp e = absurd (omega arith)
each_lem (suc n) i make h [] [] hp e =
    rw (acquire-none (make i) h hp) (ap (λ q. some ([], q, h)) (sym (advanced_zero hp)))
each_lem (suc n) i make h [] (y ∷ rest) hp e = absurd (omega arith)
each_lem (suc n) i make h (x ∷ xs) rest hp e =
    let (got, hp') = acquire-some (make i) h x (xs ++ rest) hp in
    rw (got, each_lem n (suc i) make (construct x (make i) h) xs rest hp' (omega arith))
      (ap (λ q. some (x ∷ xs, q, construct_all make (suc i) xs (construct x (make i) h)))
        (advanced_more x xs rest hp))

-- What a batch hands out.
batch_lem {ℓ} :
    {A : Type ℓ} {p : ObjectPool} (n : ℕ) (make : ℕ → A) (h : Memory A) (xs rest : List ℕ)
    → Holds p (xs ++ rest)
    → length xs ≡ min n (length (xs ++ rest))
    → acquire_batch n make p h
      ≡ some (length xs, xs, advanced p (length xs), construct_all make 0 xs h)
unfolding acquire_batch construct_all
batch_lem {p = p} n make h [] rest hp e =
    let z : min n p.available_count ≡ 0 = omega (arith, hp.counted, e) in
    rw z (ap (λ q. some (0, [], q, h)) (sym (advanced_zero hp)))
batch_lem n make h (x ∷ xs) rest hp e =
    rw (hp.counted, ← e, suc-==-zero (length xs), copy_out_lem (x ∷ xs) rest hp)

module _ {ℓ} {A : Type ℓ} {p : ObjectPool} where
  -- On a pool whose free pointers are `free`, `acquire_batch` returns the pointers that as many calls
  -- of `acquire` return until one returns null, in their order and with their number, and leaves the
  -- pool and the memory as those calls do.
  pub acquire_batch-eq-acquire_each :
      (max_count : ℕ) (make : ℕ → A) (h : Memory A) (free : List ℕ)
      → Holds p free
      → acquire_batch max_count make p h
        ≡ (acquire_each max_count 0 make p h >>= λ r. some (length r.0, r.0, r.1, r.2))
  acquire_batch-eq-acquire_each max_count make h free hp =
      let n : ℕ = min max_count (length free) in
      let xs : List ℕ = take n free in
      let rest : List ℕ = drop n free in
      let cut : xs ++ rest ≡ free = take-append-drop n free in
      let l : length xs ≡ n = length-take n free (omega arith) in
      let hp' : Holds p (xs ++ rest) = subst (λ l. Holds p l) (sym cut) hp in
      let l' : length xs ≡ min max_count (length (xs ++ rest)) =
        l ∙ ap (λ l. min max_count (length l)) (sym cut) in
      rw (each_lem max_count 0 make h xs rest hp' l') (batch_lem max_count make h xs rest hp' l')
