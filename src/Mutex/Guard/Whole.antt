-- ===== src/Mutex/Guard/Whole.antt =====
-- Calls that make a bounded number of accesses: what one alone makes of the data is a function.
use sync_tools.Prelude.{ℕ, zero, suc, ◌≤◌, ◌<◌, ◌≡◌, refl, ◌∙◌, Option, none, some, arith}
use sync_tools.Mutex.Guard.{Guarded}
use sync_tools.Mutex.Guard.Serial.{Ran}

module _ {ℓ} {Data Call Local : Type ℓ} (g : Guarded Data Call Local) where
  -- The data after at most so many accesses.
  unfoldable pub finish : ℕ → Option Local → Data → Data
  finish n none d = d
  finish zero (some l) d = d
  finish (suc n) (some l) d = finish n (g.advance l d).0 (g.advance l d).1

-- How many accesses a call has still to make, at most.
pub record Bounded {ℓ} {Data Call Local : Type ℓ} (g : Guarded Data Call Local) (most : ℕ)
    : Type ℓ where
  pub left : Option Local → ℕ
  pub begins : (c : Call) → left (some (g.begin c)) ≤ most
  pub goes_on : (l : Local) (d : Data) → left (g.advance l d).0 < left (some l)

module _ {ℓ} {Data Call Local : Type ℓ} {g : Guarded Data Call Local} {most : ℕ}
    (b : Bounded g most) where
  finish-more :
      (n m : ℕ) (o : Option Local) (d : Data)
      → b.left o ≤ n
      → b.left o ≤ m
      → finish g n o d ≡ finish g m o d
  unfolding finish
  finish-more n m none d h k = refl
  finish-more zero m (some l) d h k = absurd (omega (arith, b.goes_on l d))
  finish-more (suc n) zero (some l) d h k = absurd (omega (arith, b.goes_on l d))
  finish-more (suc n) (suc m) (some l) d h k =
      finish-more n m (g.advance l d).0 (g.advance l d).1 (omega (arith, b.goes_on l d))
        (omega (arith, b.goes_on l d))

  -- Wherever the call stands, it ends as from its beginning.
  pub Ran-finish :
      {c : Call} {d d' : Data} {o : Option Local}
      → Ran g c d o d'
      → (b.left o ≤ most) × (finish g most o d' ≡ finish g most (some (g.begin c)) d)
  unfolding finish
  Ran-finish {c} Ran.begun = (b.begins c, refl)
  Ran-finish (Ran.then {l} {d'} run) =
      let (h, e) = Ran-finish run in
      (
        omega (arith, b.goes_on l d'),
        finish-more (suc most) most (some l) d' (omega (arith, h)) h ∙ e,
      )
