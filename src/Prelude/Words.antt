-- ===== src/Prelude/Words.antt =====
-- `std::size_t` and `intptr_t` of a 64-bit target: addition and subtraction wrap, and a size that
-- passes the queues' `static_assert` makes `& (size - 1)` a remainder.
use Prim.Native.Nat.{ℕ, ◌+◌, ◌-◌, ◌%◌, ◌^◌, ◌≤◌, ◌<◌, bit_and}
use mathlib.Core.Path.{◌≡◌}
use native.Mathlib.Omega.{arith}
use native.Mathlib.Decide.{dec_lt}
use native.Mathlib.Nat.{mod-lt, pow-le-pow_right}
use sync_tools.Prelude.Bits.{bit_and-mask, pow-pos}

abbrev pub add_size : ℕ → ℕ → ℕ
add_size a b = (a + b) % 2 ^ 64

abbrev pub sub_size : ℕ → ℕ → ℕ
sub_size a b = (a + 2 ^ 64 - b) % 2 ^ 64

-- `i & (n - 1)`, the way the containers reduce an index.
unfoldable pub mask : ℕ → ℕ → ℕ
mask n i = bit_and i (sub_size n 1)

-- A power of two that a `std::size_t` holds.
pub record IsPow2 (n : ℕ) : Type 0 where
  pub exponent : ℕ
  pub is_pow : n ≡ 2 ^ exponent
  pub fits : n < 2 ^ 64

pub IsPow2-pos : {n : ℕ} → IsPow2 n → 0 < n
IsPow2-pos p = omega (arith, pow-pos p.exponent, p.is_pow)

pub IsPow2-le : {n : ℕ} → IsPow2 n → n ≤ 2 ^ 63
IsPow2-le p = elim (dec_lt p.exponent 64) [
  | yes small ↦ omega (
    arith,
    p.is_pow,
    pow-le-pow_right {n = 2} (omega arith) {i = p.exponent} {j = 63} (omega arith),
  )
  | no large ↦ absurd (
      omega (
        arith,
        p.is_pow,
        p.fits,
        pow-le-pow_right {n = 2} (omega arith) {i = 64} {j = p.exponent} (omega arith),
      ))
]

-- At a power of two the mask is the remainder.
pub mask-eq-mod : {n : ℕ} → IsPow2 n → (i : ℕ) → mask n i ≡ i % n
unfolding mask
mask-eq-mod {n} p i =
    let e : sub_size n 1 ≡ n - 1 = omega (arith, IsPow2-pos p) in
    rw (e, p.is_pow) (bit_and-mask p.exponent i)

pub mask-lt : {n : ℕ} → IsPow2 n → (i : ℕ) → mask n i < n
mask-lt p i = rw (mask-eq-mod p i) (mod-lt i (IsPow2-pos p))
