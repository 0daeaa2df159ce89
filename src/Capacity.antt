-- ===== src/Capacity.antt =====
-- The template parameter `_size` of both queues: what their `static_assert` lets through.
mod Tests
use sync_tools.Prelude.{
  ℕ, zero, suc, ◌-◌, ◌^◌, ◌<◌, ◌≡◌, refl, Bool, true, ◌==◌, arith, inl, inr, ◌⊎◌, ◌↔◌, ==_iff,
  bit_and,
}
use sync_tools.Prelude.Bits.{pow2_of_bit_and, bit_and-pow2}
use sync_tools.Prelude.Words.{sub_size, mask, IsPow2}

-- `(_size & (_size - 1)) == 0`
unfoldable pub size_accepted : ℕ → Bool
size_accepted size = mask size size == 0

-- The assertion holds for a size exactly if it is zero or a power of two.
pub size_accepted_lem :
    (size : ℕ) → size < 2 ^ 64 → (size_accepted size ≡ true) ↔ ((size ≡ 0) ⊎ IsPow2 size)
unfolding size_accepted mask
size_accepted_lem zero h = (λ e. inl refl, λ c. refl)
size_accepted_lem (suc n) h =
    let below : sub_size (suc n) 1 ≡ n = omega arith in
    (
      λ e.
          let z : bit_and (suc n) (sub_size (suc n) 1) ≡ 0 = (==_iff _ 0).0 e in
          let (k, q) = pow2_of_bit_and n (rw below at z) in
          inr (record { exponent = k; is_pow = q; fits = h }),
      λ c. elim c [
        | inl e ↦ absurd (omega arith)
        | inr p ↦
            let z : bit_and (suc n) (suc n - 1) ≡ 0 = rw p.is_pow (bit_and-pow2 p.exponent) in
            let pred : suc n - 1 ≡ n = omega arith in (==_iff _ 0).1 (rw below (rw pred at z))
      ],
    )
