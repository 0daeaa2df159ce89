-- ===== src/Mutex/Tally.antt =====
-- Sums over a list of threads, when one of them changes.
use sync_tools.Prelude.{
  ℕ, zero, suc, ◌+◌, ◌≤◌, ◌<◌, ◌≡◌, ◌≢◌, refl, ap, some, List, [], ◌∷◌, arith, get_elem?, set,
  dec_lt, replicate, ◌++◌, ◌*◌, map, length,
}

module _ {ℓ} {A : Type ℓ} (weight : A → ℕ) where
  unfoldable pub tally : List A → ℕ
  tally [] = 0
  tally (p ∷ ps) = weight p + tally ps

  -- One thread moves from `p` to `p'`.
  pub tally-set :
      (ps : List A) (i : ℕ) (p p' : A)
      → get_elem? ps i ≡ some p
      → tally (set ps i p') + weight p ≡ tally ps + weight p'
  unfolding tally
  tally-set [] i p p' h = cc
  tally-set (q ∷ ps) zero p p' h = let e : q ≡ p = cc h in omega (arith, ap weight e)
  tally-set (q ∷ ps) (suc i) p p' h = omega (arith, tally-set ps i p p' h)

  pub le-tally : (ps : List A) (i : ℕ) (p : A) → get_elem? ps i ≡ some p → weight p ≤ tally ps
  unfolding tally
  le-tally [] i p h = cc
  le-tally (q ∷ ps) zero p h = let e : q ≡ p = cc h in omega (arith, ap weight e)
  le-tally (q ∷ ps) (suc i) p h = omega (arith, le-tally ps i p h)

  pub two-le-tally :
      (ps : List A) (i j : ℕ) (p q : A)
      → i ≢ j
      → get_elem? ps i ≡ some p
      → get_elem? ps j ≡ some q
      → weight p + weight q ≤ tally ps
  unfolding tally
  two-le-tally [] i j p q ne h k = cc
  two-le-tally (r ∷ ps) zero zero p q ne h k = absurd (ne refl)
  two-le-tally (r ∷ ps) zero (suc j) p q ne h k =
      let e : r ≡ p = cc h in omega (arith, ap weight e, le-tally ps j q k)
  two-le-tally (r ∷ ps) (suc i) zero p q ne h k =
      let e : r ≡ q = cc k in omega (arith, ap weight e, le-tally ps i p h)
  two-le-tally (r ∷ ps) (suc i) (suc j) p q ne h k =
      omega (arith, two-le-tally ps i j p q (λ e. ne (ap suc e)) h k)

  -- A positive sum has a thread that counts.
  pub tally-pos :
      (ps : List A) → 0 < tally ps → (i : ℕ) × (p : A) × (get_elem? ps i ≡ some p) × (0 < weight p)
  unfolding tally
  tally-pos [] h = absurd (omega arith)
  tally-pos (q ∷ ps) h = elim (dec_lt 0 (weight q)) [
    | yes l ↦ (0, q, refl, l)
    | no l ↦ let (i, p, e, w) = tally-pos ps (omega arith) in (suc i, p, e, w)
  ]

  pub tally-replicate : (n : ℕ) (p : A) → weight p ≡ 0 → tally (replicate n p) ≡ 0
  unfolding tally
  tally-replicate zero p e = refl
  tally-replicate (suc n) p e = omega (arith, e, tally-replicate n p e)

  pub tally-append : (ps qs : List A) → tally (ps ++ qs) ≡ tally ps + tally qs
  unfolding tally
  tally-append [] qs = omega arith
  tally-append (p ∷ ps) qs = omega (arith, tally-append ps qs)

  -- All weigh the same.
  pub tally-replicate_all : (n : ℕ) (p : A) → tally (replicate n p) ≡ n * weight p
  unfolding tally
  tally-replicate_all zero p = omega arith
  tally-replicate_all (suc n) p = omega (arith, tally-replicate_all n p)

pub tally-map {ℓ κ} :
    {A : Type ℓ} {B : Type κ} (v : A → ℕ) (w : B → ℕ) (f : A → B)
    → ((a : A) → w (f a) ≡ v a)
    → (xs : List A) → tally w (map f xs) ≡ tally v xs
unfolding tally
tally-map v w f same [] = refl
tally-map v w f same (x ∷ xs) = omega (arith, same x, tally-map v w f same xs)

-- With one each, the length.
pub tally-length {ℓ} : {A : Type ℓ} (xs : List A) → tally (λ x. 1) xs ≡ length xs
unfolding tally
tally-length [] = refl
tally-length (x ∷ xs) = omega (arith, tally-length xs)
