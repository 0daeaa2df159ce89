-- ===== src/Prelude/Modular.antt =====
-- Positions round a ring of `n` places.
use Prim.Native.Nat.{ℕ, suc, ◌+◌, ◌-◌, ◌%◌, ◌≤◌, ◌<◌}
use mathlib.Core.Path.{◌≡◌, sym, ◌∙◌, ap}
use native.Mathlib.Decide.{dec_lt}
use native.Mathlib.Omega.{arith}
use native.Mathlib.Nat.{
  mod-lt, add-mod-mod, add-mod_right, mod-mod, mod-add-mod, mod-eq_of_lt, mod-eq-sub-mod,
}

-- A place less than two rounds from zero.
pub mod_once : {n : ℕ} (i : ℕ) → n ≤ i → i < n + n → i % n ≡ i - n
mod_once {n} i h l = mod-eq-sub-mod h ∙ mod-eq_of_lt (omega arith)

-- Fewer than `n` steps from one place reach distinct places.
pub mod_injective : {n t : ℕ} (i j : ℕ) → t < n → i < n → j < n → (t + i) % n ≡ (t + j) % n → i ≡ j
mod_injective {n} {t} i j ht hi hj e = elim (dec_lt (t + i) n) [
  | yes a ↦ elim (dec_lt (t + j) n) [
    | yes b ↦ omega (arith, mod-eq_of_lt a, mod-eq_of_lt b)
    | no b ↦ omega (arith, mod-eq_of_lt a, mod_once {n = n} (t + j) (omega arith) (omega arith))
  ]
  | no a ↦ elim (dec_lt (t + j) n) [
    | yes b ↦ omega (arith, mod-eq_of_lt b, mod_once {n = n} (t + i) (omega arith) (omega arith))
    | no b ↦ omega (
      arith,
      mod_once {n = n} (t + i) (omega arith) (omega arith),
      mod_once {n = n} (t + j) (omega arith) (omega arith),
    )
  ]
]

-- A step of the start is a step of each offset.
pub mod_shift : (n t j : ℕ) → ((t + 1) % n + j) % n ≡ (t + suc j) % n
mod_shift n t j = mod-add-mod (t + 1) n j ∙ ap (λ i. i % n) (omega arith)

-- The place `len` steps after `t`, one step on, is `t` again exactly when the ring is one short of
-- full.
pub mod_full : {n t : ℕ} (len : ℕ) → t < n → len < n → ((t + len) % n + 1) % n ≡ t → len + 1 ≡ n
mod_full {n} {t} len ht hl e = elim (dec_lt (len + 1) n) [
  | yes short ↦
      let z : (t + (len + 1)) % n ≡ (t + 0) % n =
        ap (λ i. i % n) (omega arith)
        ∙ sym (mod-add-mod (t + len) n 1)
        ∙ e
        ∙ sym (mod-eq_of_lt ht)
        ∙ ap (λ i. i % n) (omega arith) in
      absurd (omega (arith, mod_injective (len + 1) 0 ht short (omega arith) z))
  | no full ↦ omega arith
]

pub mod_full_of_eq : {n t : ℕ} (len : ℕ) → t < n → len + 1 ≡ n → ((t + len) % n + 1) % n ≡ t
mod_full_of_eq {n} {t} len ht e =
    mod-add-mod (t + len) n 1
    ∙ mod_once {n = n} (t + len + 1) (omega arith) (omega arith)
    ∙ omega arith

pub mod_empty : {n t : ℕ} (len : ℕ) → t < n → len < n → t ≡ (t + len) % n → len ≡ 0
mod_empty {n} {t} len ht hl e =
    mod_injective len 0 ht hl (omega arith)
      (sym e ∙ sym (mod-eq_of_lt ht) ∙ ap (λ i. i % n) (omega arith))

-- The distance from a place to the place `len` steps on.
pub mod_distance : {n t : ℕ} (len : ℕ) → t < n → len < n → ((t + len) % n + n - t) % n ≡ len
mod_distance {n} {t} len ht hl = elim (dec_lt (t + len) n) [
  | yes a ↦
      rw (mod-eq_of_lt a)
        (mod_once {n = n} (t + len + n - t) (omega arith) (omega arith) ∙ omega arith)
  | no a ↦
      rw (mod_once {n = n} (t + len) (omega arith) (omega arith))
        (mod-eq_of_lt {n = t + len - n + n - t} {m = n} (omega arith) ∙ omega arith)
]

-- Each place is within `n` steps of any other.
pub mod_reach : {n : ℕ} (t i : ℕ) → 0 < n → (j : ℕ) × (j < n) × ((t + j) % n ≡ i % n)
mod_reach {n} t i p = (
  (i % n + (n - t % n)) % n,
  mod-lt (i % n + (n - t % n)) p,
  add-mod-mod t (i % n + (n - t % n)) n
      ∙ sym (mod-add-mod t n (i % n + (n - t % n)))
      ∙ ap (λ k. k % n) (omega (arith, mod-lt t p))
      ∙ add-mod_right (i % n) n
      ∙ mod-mod i n,
)
