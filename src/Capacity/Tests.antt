-- ===== src/Capacity/Tests.antt =====
-- The assertion on `_size` at a size of the README and at one that is refused.
use sync_tools.Prelude.{ℕ, ◌≡◌, refl, true, false, arith, ◌⊎◌, ◌↔◌}
use sync_tools.Prelude.Words.{IsPow2, mask}
use sync_tools.Capacity.{size_accepted, size_accepted_lem}

abbrev kibi : ℕ
kibi = 1024

accepts_1024 : size_accepted kibi ≡ true
unfolding size_accepted mask
accepts_1024 = refl

refuses_1000 : size_accepted 1000 ≡ false
unfolding size_accepted mask
refuses_1000 = refl

size_accepted_lem_example : (size_accepted kibi ≡ true) ↔ ((kibi ≡ 0) ⊎ IsPow2 kibi)
size_accepted_lem_example = size_accepted_lem kibi (omega arith)
