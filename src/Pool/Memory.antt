-- ===== src/Pool/Memory.antt =====
-- The memory that objects live in: an address holds an object from its construction to its
-- destructor call. A pointer is an address.
use sync_tools.Prelude.{ℕ, suc, Option, none, some, List, [], ◌∷◌, ◌==◌, if◌then◌else◌}
use sync_tools.Storage.{◌>>=◌}

abbrev pub Memory {ℓ} : Type ℓ → Type ℓ
Memory A = ℕ → Option A

module _ {ℓ} {A : Type ℓ} where
  unfoldable pub update : Memory A → ℕ → Option A → Memory A
  update h x w y = if x == y then w else h y

  -- `new (obj) T(args...)`
  unfoldable pub construct : ℕ → A → Memory A → Memory A
  unfolding update
  construct obj a h = update h obj (some a)

  -- `obj->~T()`: undefined behaviour where there is no object.
  unfoldable pub destroy : ℕ → Memory A → Option (Memory A)
  destroy obj h = elim (h obj) [ none ↦ none | some v ↦ some (update h obj none) ]

  -- `for (i = 0; i < num; ++i) new (out[i]) T(...)`: what the i-th call builds is `make i`, since
  -- a call may move out of the arguments.
  unfoldable pub construct_all : (ℕ → A) → ℕ → List ℕ → Memory A → Memory A
  construct_all make i [] h = h
  construct_all make i (x ∷ xs) h = construct_all make (suc i) xs (construct x (make i) h)

  -- `for (i = 0; i < num; ++i) items[i]->~T()`
  unfoldable pub destroy_all : List ℕ → Memory A → Option (Memory A)
  destroy_all [] h = some h
  destroy_all (x ∷ xs) h = destroy x h >>= λ h'. destroy_all xs h'

-- `&_nodes[i]` for each `i`, where the storage begins at `base`.
abbrev pub addresses : (base n : ℕ) → List ℕ
addresses base ℕ.zero = []
addresses base (suc n) = base ∷ addresses (suc base) n
