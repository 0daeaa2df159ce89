-- ===== src/Pool/ObjectPool/RoundTrip.antt =====
-- A batch taken from an object pool and given back.
use sync_tools.Prelude.{
  ℕ, suc, ◌≡◌, refl, sym, ◌∙◌, ap, ◌≢◌, subst, Option, none, some, some-injective, List, [], ◌∷◌,
  ◌++◌, arith, length, length-append, inl, inr, Option-cases, ℕ_discrete, ==-eq_false,
}
use sync_tools.Prelude.Count.{count, count-append, count_self}
use sync_tools.Storage.{◌>>=◌}
use sync_tools.Pool.Memory.{Memory, construct, construct_all, destroy, destroy_all, update}
use sync_tools.Pool.Live.{live, live_of_some}
use sync_tools.Pool.ObjectPool.{ObjectPool, acquire_batch, release_batch}
use sync_tools.Pool.ObjectPool.Ownership.{Owned, Parts, acquire_batch-Owned, release_batch_destroys}

apart : (x y : ℕ) (xs : List ℕ) → count y (x ∷ xs) ≡ 0 → x ≢ y
apart x y xs e = λ z. omega (arith, subst (λ k. count y (k ∷ xs) ≡ 0) z e, count_self y xs)

module _ {ℓ} {A : Type ℓ} where
  dead : (h : Memory A) (y : ℕ) → live h y ≡ 0 → h y ≡ none
  dead h y e = elim (Option-cases (h y)) [
    | inl n ↦ n
    | inr s ↦ absurd (omega (arith, e, live_of_some h y s.0 s.1))
  ]

  update_elsewhere : (h : Memory A) (x y : ℕ) (w : Option A) → x ≢ y → update h x w y ≡ h y
  unfolding update
  update_elsewhere h x y w ne = rw (==-eq_false x y ne)

  -- An address that is not among those constructed at, or destroyed.
  constructed_elsewhere :
      (make : ℕ → A) (i : ℕ) (xs : List ℕ) (h : Memory A) (y : ℕ)
      → count y xs ≡ 0
      → construct_all make i xs h y ≡ h y
  unfolding construct_all construct
  constructed_elsewhere make i [] h y e = refl
  constructed_elsewhere make i (x ∷ xs) h y e =
      constructed_elsewhere make (suc i) xs (construct x (make i) h) y (omega arith)
      ∙ update_elsewhere h x y (some (make i)) (apart x y xs e)

  destroyed_elsewhere :
      (xs : List ℕ) (h h' : Memory A) (y : ℕ)
      → count y xs ≡ 0
      → destroy_all xs h ≡ some h'
      → h' y ≡ h y
  unfolding destroy_all destroy
  destroyed_elsewhere [] h h' y e d = ap (λ k. k y) (sym (some-injective h h' d))
  destroyed_elsewhere (x ∷ xs) h h' y e d = go (h x) d (λ d'.
      destroyed_elsewhere xs (update h x none) h' y (omega arith) d'
      ∙ update_elsewhere h x y none (apart x y xs e))
    where
      go :
          (o : Option A)
          → ((elim o [ none ↦ none | some v ↦ some (update h x none) ]) >>= λ k. destroy_all xs k)
            ≡ some h'
          → (destroy_all xs (update h x none) ≡ some h' → h' y ≡ h y)
          → h' y ≡ h y
      go none d rest = absurd (cc d)
      go (some v) d rest = rest d

module _ {ℓ} {A : Type ℓ} {all : List ℕ} {p : ObjectPool} {h : Memory A} where
  -- A batch that `acquire_batch` takes from a pool, each of whose addresses is free or held once,
  -- and that `release_batch` gives back: both are defined, every address of the storage has what it
  -- had, and the addresses of the batch are free again, behind the others.
  pub batch_round_trip :
      (max_count : ℕ) (make : ℕ → A) (free held : List ℕ)
      → Owned all p h free held
      → (out rest : List ℕ) × (p' p'' : ObjectPool) × (h' h'' : Memory A) × (free ≡ out ++ rest)
        × (acquire_batch max_count make p h ≡ some (length out, out, p', h'))
        × (release_batch out p' h' ≡ some (p'', h''))
        × Owned all p'' h'' (rest ++ out) held
        × ((y : ℕ) → count y all ≡ 1 → h'' y ≡ h y)
  batch_round_trip max_count make free held o =
      let (out, rest, p', cut, l, e, o') = acquire_batch-Owned max_count make free held o in
      let parts : Parts (out ++ held) out held = record {
        counts = λ x. count-append x out held;
        lengths = length-append out held;
      } in
      let (p'', h'', e', o'', gone) = release_batch_destroys out rest (out ++ held) held o' parts in
      let same : (y : ℕ) → count y all ≡ 1 → h'' y ≡ h y = λ y in_all.
        elim (ℕ_discrete (count y out) 0) [
          | yes z ↦
              destroyed_elsewhere out (construct_all make 0 out h) h'' y z gone
              ∙ constructed_elsewhere make 0 out h y z
          | no n ↦
              let unheld : count y held ≡ 0 =
                omega (arith, o'.once y, count-append y out held, in_all) in
              dead h'' y (o''.alive y in_all ∙ unheld) ∙ sym (dead h y (o.alive y in_all ∙ unheld))
        ] in
      (out, rest, p', p'', construct_all make 0 out h, h'', cut, e, e', o'', same)
