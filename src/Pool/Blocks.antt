-- ===== src/Pool/Blocks.antt =====
-- The circular buffer of pointers under an object pool: which part of it is in use, and `memcpy`
-- from and to a block of it.
use sync_tools.Prelude.{
  ℕ, zero, suc, ◌+◌, ◌%◌, ◌≤◌, ◌<◌, ◌≡◌, refl, sym, ◌∙◌, ap, Option, none, some, List, [], ◌∷◌,
  ◌++◌, ◌==◌, if◌then◌else◌, ltb, lt→ltb, arith, length, get_elem?, set, length-set, get_elem?-set,
  length-snoc, get_elem?-snoc, ==_congr, append_assoc, append-nil, dec_lt, false, ℕ_discrete,
  ==_iff,
}
use native.Mathlib.Nat.{mod-lt, mod-eq_of_lt, mod-add-mod, add-zero}
use sync_tools.Prelude.Modular.{mod_injective, mod_shift}
use sync_tools.Storage.{◌>>=◌}

module _ {ℓ} {A : Type ℓ} where
  -- `v[i] = x`, and `memcpy` of `n` entries from `v.data() + i`, and of a block to it. An access
  -- outside the vector is undefined behaviour.
  unfoldable pub write_at : List A → ℕ → A → Option (List A)
  write_at cells i x = if ltb i (length cells) then some (set cells i x) else none

  unfoldable pub read_block : List A → ℕ → ℕ → Option (List A)
  read_block cells i zero = some []
  read_block cells i (suc n) = do
    x ← get_elem? cells i
    read_block cells (suc i) n >>= λ xs. some (x ∷ xs)

  unfoldable pub write_block : List A → ℕ → List A → Option (List A)
  unfolding write_at
  write_block cells i [] = some cells
  write_block cells i (x ∷ xs) = write_at cells i x >>= λ cells'. write_block cells' (suc i) xs

module _ {ℓ} {A : Type ℓ} (size : ℕ) where
  -- From `head` on, going round, the cells hold the list.
  pub record Window (cells : List A) (head : ℕ) (l : List A) : Type ℓ where
    pub long : length cells ≡ size
    pub at : (j : ℕ) → j < length l → get_elem? cells ((head + j) % size) ≡ get_elem? l j

module _ {ℓ} {A : Type ℓ} {size : ℕ} where
  pub Window-tail :
      {cells : List A} {head : ℕ} (x : A) (l : List A)
      → Window size cells head (x ∷ l)
      → Window size cells ((head + 1) % size) l
  Window-tail {cells} {head} x l w = record {
    long = w.long;
    at = λ j h. ap (λ i. get_elem? cells i) (mod_shift size head j) ∙ w.at (suc j) (omega arith);
  }

  pub Window-head :
      {cells : List A} {head : ℕ} (x : A) (l : List A)
      → head < size
      → Window size cells head (x ∷ l)
      → get_elem? cells head ≡ some x
  Window-head {cells} {head} x l h w =
      ap (λ i. get_elem? cells i)
        (sym (mod-eq_of_lt {n = head + 0} {m = size} (omega arith) ∙ omega arith))
      ∙ w.at 0 (omega arith)

  pub Window-drop :
      {cells : List A} {head : ℕ} (xs l : List A)
      → 0 < size
      → head < size
      → Window size cells head (xs ++ l)
      → Window size cells ((head + length xs) % size) l
  Window-drop {cells} {head} [] l p h w =
      rw (mod-eq_of_lt {n = head + 0} {m = size} (omega arith)) (rw add-zero w)
  Window-drop {cells} {head} (x ∷ xs) l p h w = rw (sym (mod_shift size head (length xs))) (
      Window-drop {cells = cells} {head = (head + 1) % size} xs l p (mod-lt (head + 1) p)
        (Window-tail x (xs ++ l) w))

  -- A write just behind the list extends it.
  pub Window-snoc :
      {cells : List A} {head : ℕ} (l : List A) (x : A)
      → head < size
      → length l < size
      → Window size cells head l
      → Window size (set cells ((head + length l) % size) x) head (l ++ (x ∷ []))
  Window-snoc {cells} {head} l x hs hl w = record {
    long = length-set cells ((head + length l) % size) x ∙ w.long;
    at = λ j h.
        get_elem?-set cells ((head + length l) % size) ((head + j) % size) x
          (rw w.long (mod-lt (head + length l) (omega arith)))
        ∙ (inside j (omega (arith, length-snoc l x)))
        ∙ sym (get_elem?-snoc l x j);
  }
    where
      inside :
          (j : ℕ)
          → j ≤ length l
          → (if (head + length l) % size == (head + j) % size
              then some x
              else get_elem? cells ((head + j) % size))
            ≡ (if length l == j then some x else get_elem? l j)
      inside j h =
          rw
            (==_congr ((head + length l) % size) ((head + j) % size) (length l) j
              (mod_injective (length l) j hs hl (omega arith)) (ap (λ k. (head + k) % size)))
            (elim (ℕ_discrete (length l) j) [
              | yes e ↦ rw ((==_iff (length l) j).1 e)
              | no ne ↦ rw (w.at j (omega arith))
            ])

  -- `memcpy` of a block that does not reach round the end.
  pub read_block_lem :
      {cells : List A} {head : ℕ} (i : ℕ) (xs l : List A)
      → head < size
      → i % size ≡ head
      → i + length xs ≤ size
      → Window size cells head (xs ++ l)
      → read_block cells i (length xs) ≡ some xs
  unfolding read_block
  read_block_lem i [] l hs e fits w = refl
  read_block_lem {cells} {head} i (x ∷ xs) l hs e fits w =
      let here : i ≡ head = sym (mod-eq_of_lt {n = i} {m = size} (omega arith)) ∙ e in
      let next : suc i % size ≡ (head + 1) % size = ap (λ k. k % size) (omega arith) in
      rw (
        ap (λ k. get_elem? cells k) here ∙ Window-head x (xs ++ l) hs w,
        read_block_lem {cells = cells} {head = (head + 1) % size} (suc i) xs l
            (mod-lt (head + 1) (omega arith)) next (omega arith) (Window-tail x (xs ++ l) w),
      )

  pub write_block_lem :
      {cells : List A} {head : ℕ} (i : ℕ) (xs l : List A)
      → head < size
      → i % size ≡ (head + length l) % size
      → i + length xs ≤ size
      → length l + length xs ≤ size
      → Window size cells head l
      → (cells' : List A) × (write_block cells i xs ≡ some cells')
        × Window size cells' head (l ++ xs)
  unfolding write_block
  write_block_lem {cells} i [] l hs e fits room w = (cells, refl, rw append-nil w)
  write_block_lem {cells} {head} i (x ∷ xs) l hs e fits room w =
      let here : i ≡ (head + length l) % size =
        sym (mod-eq_of_lt {n = i} {m = size} (omega arith)) ∙ e in
      let next : suc i % size ≡ (head + length (l ++ (x ∷ []))) % size =
        ap (λ k. k % size) (omega (arith, here))
        ∙ mod-add-mod (head + length l) size 1
        ∙ ap (λ k. k % size) (omega (arith, length-snoc l x)) in
      let w' : Window size (set cells i x) head (l ++ (x ∷ [])) =
        rw here (Window-snoc l x hs (omega arith) w) in
      let (cells', eq, w'') =
        write_block_lem {cells = set cells i x} {head = head} (suc i) xs (l ++ (x ∷ [])) hs next
          (omega arith) (omega (arith, length-snoc l x)) w' in
      (
        cells',
        rw (lt→ltb i (length cells) (rw w.long (omega arith)), eq),
        rw (sym (append_assoc l (x ∷ []) xs)) w'',
      )

-- A block that does not fit is written past the end.
pub write_block_overflows {ℓ} :
    {A : Type ℓ} (cells : List A) (i : ℕ) (xs : List A)
    → length cells < i + length xs
    → i ≤ length cells
    → write_block cells i xs ≡ none
unfolding write_block
write_block_overflows cells i [] h l = absurd (omega arith)
write_block_overflows cells i (x ∷ xs) h l = elim (dec_lt i (length cells)) [
  | yes room ↦ rw (lt→ltb i (length cells) room) (
      write_block_overflows (set cells i x) (suc i) xs (omega (arith, length-set cells i x))
        (omega (arith, length-set cells i x)))
  | no full ↦ let t : ltb i (length cells) ≡ false = ground arith in rw t
]
