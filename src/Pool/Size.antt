-- ===== src/Pool/Size.antt =====
-- `ObjectPool::_round_up_pow2`. `__builtin_clzll` is the compiler's: a parameter, with what its
-- documentation says of it.
use sync_tools.Prelude.{
  ℕ, suc, ◌-◌, ◌^◌, ◌≤◌, ◌<◌, ◌≡◌, refl, Option, none, some, leb, ltb, if◌then◌else◌, arith,
  Bool-cases, inl, inr, ℕ_discrete, dec_lt, subst, false, lt→ltb,
}
use native.Mathlib.Nat.{pow-le-pow_right}
use sync_tools.Prelude.Bits.{pow-pos}
use sync_tools.Prelude.Words.{IsPow2}

-- The number of leading zero bits of a nonzero 64-bit word.
pub record CountsLeadingZeros (clz : ℕ → ℕ) : Type 0 where
  pub below : (x : ℕ) → 0 < x → x < 2 ^ 64 → clz x < 64
  pub top_bit : (x : ℕ) → 0 < x → x < 2 ^ 64 → 2 ^ (63 - clz x) ≤ x
  pub no_higher : (x : ℕ) → 0 < x → x < 2 ^ 64 → x < 2 ^ (64 - clz x)

-- `1ULL << shift`: undefined behaviour from the width on.
abbrev shift_one : ℕ → Option ℕ
shift_one shift = if ltb shift 64 then some (2 ^ shift) else none

module _ (clz : ℕ → ℕ) where
  unfoldable pub round_up_pow2 : ℕ → Option ℕ
  round_up_pow2 v = if leb v 1 then some 1 else shift_one (64 - clz (v - 1))

pow-lt-64 : (s : ℕ) → s < 64 → 2 ^ s < 2 ^ 64
pow-lt-64 s h = omega (arith, pow-le-pow_right {n = 2} (omega arith) {i = s} {j = 63} (omega arith))

module _ {clz : ℕ → ℕ} (spec : CountsLeadingZeros clz) where
  clz-pos : (x : ℕ) → 0 < x → x < 2 ^ 63 → 0 < clz x
  clz-pos x l h = elim (ℕ_discrete (clz x) 0) [
    | yes e ↦
        let top : 2 ^ 63 ≤ x = subst (λ c. 2 ^ (63 - c) ≤ x) e (spec.top_bit x l (omega arith)) in
        absurd (omega arith)
    | no ne ↦ omega arith
  ]

  -- The shift is the length of `x` in binary.
  shift_bounds :
      (x : ℕ)
      → 0 < x
      → x < 2 ^ 63
      → (s : ℕ) × (64 - clz x ≡ suc s) × (s < 63) × (2 ^ s ≤ x) × (x < 2 ^ suc s)
  shift_bounds x l h =
      let c = clz-pos x l h in
      let b = spec.below x l (omega arith) in
      let e : 64 - clz x ≡ suc (63 - clz x) = omega arith in
      (
        63 - clz x,
        e,
        omega arith,
        spec.top_bit x l (omega arith),
        subst (λ n. x < 2 ^ n) e (spec.no_higher x l (omega arith)),
      )

  -- For a size up to `2 ^ 63` the result is a power of two, and the least that is not below it.
  pub round_up_pow2_least :
      (v : ℕ)
      → v ≤ 2 ^ 63
      → (n : ℕ) × (round_up_pow2 clz v ≡ some n)
        × IsPow2 n
        × (v ≤ n)
        × ((k : ℕ) → v ≤ 2 ^ k → n ≤ 2 ^ k)
  unfolding round_up_pow2
  round_up_pow2_least v h = elim (Bool-cases (leb v 1)) [
    | inl small ↦ (
      1,
      rw small,
      record { exponent = 0; is_pow = refl; fits = omega arith },
      ground arith,
      λ k _. pow-pos k,
    )
    | inr large ↦
        let l : 1 < v = ground arith in
        let (s, e, s_lt, lo, hi) = shift_bounds (v - 1) (omega arith) (omega arith) in
        (
          2 ^ suc s,
          rw (large, e, lt→ltb (suc s) 64 (omega arith)),
          record { exponent = suc s; is_pow = refl; fits = pow-lt-64 (suc s) (omega arith) },
          omega arith,
          λ k h'. elim (dec_lt s k) [
            | yes a ↦ pow-le-pow_right {n = 2} (omega arith) {i = suc s} {j = k} a
            | no a ↦ absurd (
                omega (arith, pow-le-pow_right {n = 2} (omega arith) {i = k} {j = s} (omega arith)))
          ],
        )
  ]

  -- A size above `2 ^ 63` shifts by the width of the word: undefined behaviour.
  pub round_up_pow2_too_large : (v : ℕ) → 2 ^ 63 < v → v < 2 ^ 64 → round_up_pow2 clz v ≡ none
  unfolding round_up_pow2
  round_up_pow2_too_large v l h =
      let z : clz (v - 1) ≡ 0 = elim (ℕ_discrete (clz (v - 1)) 0) [
        | yes e ↦ e
        | no ne ↦ absurd (
            omega (
              arith,
              spec.no_higher (v - 1) (omega arith) (omega arith),
              pow-le-pow_right {n = 2} (omega arith) {i = 64 - clz (v - 1)} {j = 63} (omega arith),
            ))
      ] in
      let large : leb v 1 ≡ false = ground arith in rw (large, z)
