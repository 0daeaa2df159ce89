-- ===== src/Storage.antt =====
-- Raw storage for elements, as both queues keep it: a slot is `none` while it holds no object, and
-- `some v` between the placement `new` of `v` and its destructor call. An access outside the array,
-- and a read or destructor call on a slot with no object, are undefined behaviour: `none`.
use sync_tools.Prelude.{
  ℕ, ◌<◌, ◌≡◌, Option, none, some, List, ltb, if◌then◌else◌, Bool, length, get_or, set, lt→ltb,
}

-- What the element type `T` supports, and what a move leaves behind in its source. Copies and
-- moves hand over the same value.
pub record ElementType {ℓ} (A : Type ℓ) : Type ℓ where
  pub is_move_constructible : Bool
  pub is_move_assignable : Bool
  pub moved_from : A → A

-- The caller's variable after `T(std::move(v))`, or after `T(v)` where `T` cannot be moved.
abbrev pub after_construct {ℓ} : {A : Type ℓ} → ElementType A → A → A
after_construct e v = if e.is_move_constructible then e.moved_from v else v

infixl 5 ◌>>=◌
abbrev pub ◌>>=◌ {ℓ κ} : {A : Type ℓ} {B : Type κ} → Option A → (A → Option B) → Option B
none >>= f = none
some a >>= f = f a

module _ {ℓ} {A : Type ℓ} where
  abbrev pub slot : List (Option A) → ℕ → Option A
  slot cells i = get_or cells i none

  -- `new (&cells[i]) T(v)`
  unfoldable pub construct_at : List (Option A) → ℕ → A → Option (List (Option A))
  construct_at cells i v = if ltb i (length cells) then some (set cells i (some v)) else none

  -- `T result = std::move(*ptr); ptr->~T();` on the object in slot `i`
  unfoldable pub take_at : List (Option A) → ℕ → Option (A × List (Option A))
  take_at cells i = elim (slot cells i) [ none ↦ none | some v ↦ some (v, set cells i none) ]

  pub construct_at-ok :
      (cells : List (Option A)) (i : ℕ) (v : A)
      → i < length cells
      → construct_at cells i v ≡ some (set cells i (some v))
  unfolding construct_at
  construct_at-ok cells i v h = rw (lt→ltb i (length cells) h)

  pub take_at-ok :
      (cells : List (Option A)) (i : ℕ) (v : A)
      → slot cells i ≡ some v
      → take_at cells i ≡ some (v, set cells i none)
  unfolding take_at
  take_at-ok cells i v e = rw (e, take_at)
