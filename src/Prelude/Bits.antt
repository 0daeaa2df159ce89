-- ===== src/Prelude/Bits.antt =====
-- `x & (2 ^ k - 1)` and `n & (n - 1)`, by induction on the rounds of the native operation: any
-- number of rounds that is not below the first operand will do.
use Prim.Native.Nat.{
  ℕ, zero, suc, ◌+◌, ◌-◌, ◌*◌, ◌/◌, ◌%◌, ◌^◌, ◌≤◌, ◌<◌, min, bit_and, digits, bit_and-bitwise,
}
use mathlib.Core.Path.{◌≡◌, refl, sym, ap, ◌∙◌}
use native.Mathlib.Decide.{ℕ_discrete}
use native.Mathlib.Omega.{arith}
use native.Mathlib.Nat.{
  pow-succ', div-add-mod, mod-lt, mod_self, mod-eq_of_lt, mul-add-mod_self_left,
}

-- The operation with its count of rounds.
abbrev conjunction : (rounds x y : ℕ) → ℕ
conjunction rounds x y = digits (λ _. 0) min rounds x y

pub pow-pos : (k : ℕ) → 0 < 2 ^ k
pow-pos zero = omega arith
pow-pos (suc k) = omega (arith, pow-pos k, pow-succ' 2 k)

-- The lowest binary digit and the others, under a doubled modulus.
mod-double : (x p : ℕ) → 0 < p → x % (2 * p) ≡ (x / 2) % p * 2 + x % 2
mod-double x p h =
    let c = x / 2 % p * 2 + x % 2 in
    let e : x ≡ 2 * p * (x / 2 / p) + c = omega (arith, div-add-mod (x / 2) p) in
    ap (λ t. t % (2 * p)) e
    ∙ mul-add-mod_self_left (2 * p) (x / 2 / p) c
    ∙ mod-eq_of_lt (omega (arith, mod-lt (x / 2) h))

conjunction-mask : (rounds k x : ℕ) → x ≤ rounds → conjunction rounds x (2 ^ k - 1) ≡ x % 2 ^ k
conjunction-mask zero k zero h = sym (mod-eq_of_lt (pow-pos k))
conjunction-mask zero k (suc x) h = absurd (omega arith)
conjunction-mask (suc r) k zero h = sym (mod-eq_of_lt (pow-pos k))
conjunction-mask (suc r) zero (suc x) h =
    omega (arith, conjunction-mask r 0 (suc x / 2) (omega arith))
conjunction-mask (suc r) (suc k) (suc x) h =
    let p = pow-pos k in
    let below : (2 ^ suc k - 1) / 2 ≡ 2 ^ k - 1 = omega (arith, pow-succ' 2 k) in
    let others : conjunction r (suc x / 2) ((2 ^ suc k - 1) / 2) ≡ suc x / 2 % 2 ^ k =
      rw below (conjunction-mask r k (suc x / 2) (omega arith)) in
    let whole : suc x % 2 ^ suc k ≡ suc x / 2 % 2 ^ k * 2 + suc x % 2 =
      rw pow-succ' (mod-double (suc x) (2 ^ k) p) in
    omega (arith, others, whole, pow-succ' 2 k)

-- Masking with `2 ^ k - 1` is the remainder modulo `2 ^ k`.
pub bit_and-mask : (k x : ℕ) → bit_and x (2 ^ k - 1) ≡ x % 2 ^ k
bit_and-mask k x = bit_and-bitwise x (2 ^ k - 1) ∙ conjunction-mask x k x (omega arith)

conjunction_same : (rounds x : ℕ) → x ≤ rounds → conjunction rounds x x ≡ x
conjunction_same zero zero h = refl
conjunction_same zero (suc x) h = absurd (omega arith)
conjunction_same (suc r) zero h = refl
conjunction_same (suc r) (suc x) h = omega (arith, conjunction_same r (suc x / 2) (omega arith))

-- A number that has no digit in common with the one below it has one digit.
one_digit :
    (rounds n : ℕ) → suc n ≤ rounds → conjunction rounds (suc n) n ≡ 0 → (k : ℕ) × (suc n ≡ 2 ^ k)
one_digit zero n h e = absurd (omega arith)
one_digit (suc r) zero h e = (0, refl)
one_digit (suc r) (suc n) h e = elim (ℕ_discrete (n % 2) 0) [
  | yes even ↦
      let s : suc (suc n) / 2 ≡ suc (n / 2) = omega arith in
      let t : suc n / 2 ≡ n / 2 = omega arith in
      let z : conjunction r (suc (suc n) / 2) (suc n / 2) ≡ 0 = omega arith in
      let z' : conjunction r (suc (n / 2)) (n / 2) ≡ 0 = rw (s, t) at z in
      let (k, q) = one_digit r (n / 2) (omega arith) z' in (suc k, omega (arith, pow-succ' 2 k))
  | no odd ↦
      let s : suc (suc n) / 2 ≡ suc n / 2 = omega arith in
      let z : conjunction r (suc (suc n) / 2) (suc n / 2) ≡ 0 = omega arith in
      let z' : conjunction r (suc n / 2) (suc n / 2) ≡ 0 = rw s at z in
      absurd (omega (arith, conjunction_same r (suc n / 2) (omega arith)))
]

-- `n & (n - 1)` is zero for nothing but zero and the powers of two.
pub pow2_of_bit_and : (n : ℕ) → bit_and (suc n) n ≡ 0 → (k : ℕ) × (suc n ≡ 2 ^ k)
pow2_of_bit_and n e = one_digit (suc n) n (omega arith) (sym (bit_and-bitwise (suc n) n) ∙ e)

pub bit_and-pow2 : (k : ℕ) → bit_and (2 ^ k) (2 ^ k - 1) ≡ 0
bit_and-pow2 k = bit_and-mask k (2 ^ k) ∙ mod_self (2 ^ k)
