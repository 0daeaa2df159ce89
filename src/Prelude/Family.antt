-- ===== src/Prelude/Family.antt =====
-- A value for each number, changed at one place.
use Prim.Native.Nat.{ℕ}
use mathlib.Core.Path.{◌≡◌, refl, sym, subst}
use mathlib.Core.Logic.{◌≢◌}
use native.Mathlib.Decide.{ℕ_discrete}
use sync_tools.Prelude.Tests.{◌==◌, if◌then◌else◌, ==_iff, ==-eq_false}

unfoldable pub update {ℓ} : {B : Type ℓ} → (ℕ → B) → ℕ → B → ℕ → B
update f i v j = if i == j then v else f j

module _ {ℓ} {B : Type ℓ} (f : ℕ → B) (i : ℕ) (v : B) where
  pub update_self : update f i v i ≡ v
  unfolding update
  update_self = rw ((==_iff i i).1 refl)

  pub update_other : (j : ℕ) → i ≢ j → update f i v j ≡ f j
  unfolding update
  update_other j ne = rw (==-eq_false i j ne)

  -- What holds of the new value at its place, and of the old ones at all others, holds everywhere.
  pub update_all {κ} :
      (P : ℕ → B → Type κ) → P i v → ((j : ℕ) → i ≢ j → P j (f j)) → (j : ℕ) → P j (update f i v j)
  update_all P new old j = elim (ℕ_discrete i j) [
    | yes e ↦ subst (λ k. P k (update f i v k)) e (subst (P i) (sym update_self) new)
    | no ne ↦ subst (P j) (sym (update_other j ne)) (old j ne)
  ]
