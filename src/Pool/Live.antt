-- ===== src/Pool/Live.antt =====
-- Which addresses hold an object, counted, and what constructing and destroying do to it.
use sync_tools.Prelude.{
  ℕ, suc, ◌+◌, ◌≤◌, ◌≡◌, refl, ap, Option, none, some, List, [], ◌∷◌, ◌==◌, if◌then◌else◌, arith,
  Option-cases, inl, inr, Bool-cases, ==_comm,
}
use sync_tools.Prelude.Count.{count, count_self}
use sync_tools.Pool.Memory.{Memory, construct, destroy, construct_all, destroy_all, update}

abbrev pub occupied {ℓ} : {A : Type ℓ} → Option A → ℕ
occupied none = 0
occupied (some v) = 1

-- 1 where the address holds an object.
unfoldable pub live {ℓ} : {A : Type ℓ} → Memory A → ℕ → ℕ
live h x = occupied (h x)

module _ {ℓ} {A : Type ℓ} where
  pub live-some : (h : Memory A) (x : ℕ) → live h x ≡ 1 → (v : A) × (h x ≡ some v)
  unfolding live
  live-some h x e = elim (Option-cases (h x)) [
    | inl n ↦ absurd (omega (arith, ap occupied n))
    | inr s ↦ s
  ]

  pub live-le : (h : Memory A) (x : ℕ) → live h x ≤ 1
  unfolding live
  live-le h x = elim (Option-cases (h x)) [
    | inl n ↦ omega (arith, ap occupied n)
    | inr s ↦ omega (arith, ap occupied s.1)
  ]

  pub live_of_some : (h : Memory A) (x : ℕ) (v : A) → h x ≡ some v → live h x ≡ 1
  unfolding live
  live_of_some h x v e = ap occupied e

  pub live-construct :
      (h : Memory A) (x : ℕ) (v : A) (y : ℕ)
      → live (construct x v h) y ≡ (if y == x then 1 else live h y)
  unfolding live construct
  live-construct h x v y =
      rw (==_comm y x) (elim (Bool-cases (x == y)) [ inl e ↦ rw (e, occupied) | inr e ↦ rw e ])

  pub live-destroyed :
      (h : Memory A) (x y : ℕ) → live (update h x none) y ≡ (if y == x then 0 else live h y)
  unfolding live update
  live-destroyed h x y =
      rw (==_comm y x) (elim (Bool-cases (x == y)) [ inl e ↦ rw (e, occupied) | inr e ↦ rw e ])

  -- Constructing at distinct addresses with no objects.
  pub live-construct_all :
      (make : ℕ → A) (i : ℕ) (xs : List ℕ) (h : Memory A)
      → ((x : ℕ) → count x xs + live h x ≤ 1)
      → (x : ℕ) → live (construct_all make i xs h) x ≡ live h x + count x xs
  unfolding construct_all
  live-construct_all make i [] h d x = omega arith
  live-construct_all make i (y ∷ xs) h d x =
      let d' : (z : ℕ) → count z xs + live (construct y (make i) h) z ≤ 1 =
        λ z. ground (arith, d z, live-construct h y (make i) z) in
      ground (
        arith,
        d x,
        live-construct h y (make i) x,
        live-construct_all make (suc i) xs (construct y (make i) h) d' x,
      )

  -- Destroying the objects at distinct addresses.
  pub live-destroy_all :
      (xs : List ℕ) (h : Memory A)
      → ((x : ℕ) → count x xs ≤ live h x)
      → (h' : Memory A) × (destroy_all xs h ≡ some h')
        × ((x : ℕ) → live h' x + count x xs ≡ live h x)
  unfolding destroy_all destroy
  live-destroy_all [] h d = (h, refl, λ x. omega arith)
  live-destroy_all (y ∷ xs) h d =
      let (v, e) = live-some h y (omega (arith, d y, count_self y xs, live-le h y)) in
      let (h', eq, f) =
        live-destroy_all xs (update h y none)
          (λ x. ground (arith, d x, live-destroyed h y x, live-le h y, count_self y xs, d y)) in
      (
        h',
        rw (e, destroy, eq),
        λ x. ground (arith, f x, live-destroyed h y x, live_of_some h y v e),
      )
