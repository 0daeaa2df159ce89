-- ===== src/Pool/LeadingZeros.antt =====
-- A counter of leading zeros, as `__builtin_clzll` may be one.
use sync_tools.Prelude.{
  ℕ, zero, suc, ◌-◌, ◌/◌, ◌^◌, ◌≤◌, ◌<◌, ◌≡◌, refl, ◌==◌, if◌then◌else◌, arith, ℕ_discrete,
  ==-eq_false,
}
use native.Mathlib.Nat.{pow-succ'}
use sync_tools.Pool.Size.{CountsLeadingZeros}

-- The length of a number in binary.
unfoldable pub bits : ℕ → ℕ → ℕ
bits zero x = 0
bits (suc f) x = if x == 0 then 0 else suc (bits f (x / 2))

bits-zero : (f : ℕ) → bits f 0 ≡ 0
unfolding bits
bits-zero zero = refl
bits-zero (suc f) = refl

bits_bounds :
    (f x : ℕ)
    → 0 < x
    → x < 2 ^ f
    → (n : ℕ) × (bits f x ≡ suc n) × (n < f) × (2 ^ n ≤ x) × (x < 2 ^ suc n)
unfolding bits
bits_bounds zero x l h = absurd (omega arith)
bits_bounds (suc f) x l h = elim (ℕ_discrete (x / 2) 0) [
  | yes z ↦ (
    0,
    rw (==-eq_false x 0 (λ e. omega arith), z, bits-zero f),
    omega arith,
    omega arith,
    omega arith,
  )
  | no ne ↦
      let (n, e, m, lo, hi) = bits_bounds f (x / 2) (omega arith) (omega (arith, pow-succ' 2 f)) in
      (
        suc n,
        rw (==-eq_false x 0 (λ e. omega arith), e),
        omega arith,
        omega (arith, pow-succ' 2 n),
        omega (arith, pow-succ' 2 (suc n)),
      )
]

unfoldable pub clz : ℕ → ℕ
clz x = 64 - bits 64 x

pub clz_counts : CountsLeadingZeros clz
unfolding clz
clz_counts = record {
  below = λ x l h. let (n, e, m, lo, hi) = bits_bounds 64 x l h in omega (arith, e);
  top_bit = λ x l h.
      let (n, e, m, lo, hi) = bits_bounds 64 x l h in
      let k : 63 - (64 - bits 64 x) ≡ n = omega (arith, e) in rw k lo;
  no_higher = λ x l h.
      let (n, e, m, lo, hi) = bits_bounds 64 x l h in
      let k : 64 - (64 - bits 64 x) ≡ suc n = omega (arith, e) in rw k hi;
}
