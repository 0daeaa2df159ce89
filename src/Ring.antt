-- ===== src/Ring.antt =====
-- A circular array of slots, read from a starting place: what writing one slot and moving the
-- start do to the view. Both queues lay their elements out so.
use sync_tools.Prelude.{
  ℕ, suc, ◌+◌, ◌%◌, ◌<◌, ◌≡◌, sym, ap, ◌∙◌, Option, none, some, List, [], ◌∷◌, ◌++◌, ◌==◌,
  if◌then◌else◌, arith, length, get_elem?, set, length-set, get_or-set, get_elem?-snoc,
  get_elem?_of_ge, ==_congr, ==_comm, suc-==-zero, dec_lt, subst, replicate, get_or-replicate,
  length-replicate,
}
use native.Mathlib.Nat.{mod-lt, mod-eq_of_lt}
use sync_tools.Prelude.Modular.{mod_injective, mod_shift, mod_once}
use sync_tools.Storage.{slot}

module _ {ℓ} {A : Type ℓ} (size : ℕ) where
  -- The slot `j` places after `start` is `view j`, for each of the `size` places.
  pub record Slots (cells : List (Option A)) (start : ℕ) (view : ℕ → Option A) : Type ℓ where
    pub long : length cells ≡ size
    pub at : (j : ℕ) → j < size → slot cells ((start + j) % size) ≡ view j

module _ {ℓ} {A : Type ℓ} {size : ℕ} {cells : List (Option A)} {start : ℕ} where
  pub Slots-ext :
      {f g : ℕ → Option A}
      → Slots size cells start f
      → ((j : ℕ) → j < size → f j ≡ g j)
      → Slots size cells start g
  Slots-ext s h = record { long = s.long; at = λ j l. s.at j l ∙ h j l }

  pub Slots-set :
      {f : ℕ → Option A} (i : ℕ) (w : Option A)
      → Slots size cells start f
      → start < size
      → i < size
      → Slots size (set cells ((start + i) % size) w) start (λ j. if i == j then w else f j)
  Slots-set {f} i w s hs hi = record {
    long = length-set cells ((start + i) % size) w ∙ s.long;
    at = λ j l.
        get_or-set cells ((start + i) % size) ((start + j) % size) w none
          (rw s.long (mod-lt (start + i) (omega arith)))
        ∙ pick j l;
  }
    where
      pick :
          (j : ℕ)
          → j < size
          → (if (start + i) % size == (start + j) % size
              then w
              else slot cells ((start + j) % size))
            ≡ (if i == j then w else f j)
      pick j l = rw (
        ==_congr ((start + i) % size) ((start + j) % size) i j
            (mod_injective {n = size} {t = start} i j hs hi l) (ap (λ k. (start + k) % size)),
        s.at j l,
      )

  -- The start moves on by one place: the first slot becomes the last.
  pub Slots-shift :
      {f : ℕ → Option A}
      → Slots size cells start f
      → (g : ℕ → Option A) → ((j : ℕ) → suc j < size → f (suc j) ≡ g j)
      → ((j : ℕ) → suc j ≡ size → f 0 ≡ g j)
      → start < size
      → Slots size cells ((start + 1) % size) g
  Slots-shift {f} s g inner last hs = record {
    long = s.long;
    at = λ j l. ap (λ k. slot cells k) (mod_shift size start j) ∙ moved j l;
  }
    where
      round : (j : ℕ) → suc j ≡ size → (start + suc j) % size ≡ (start + 0) % size
      round j e =
          mod_once {n = size} (start + suc j) (omega arith) (omega arith)
          ∙ sym (mod-eq_of_lt {n = start + 0} {m = size} (omega arith) ∙ omega arith)

      moved : (j : ℕ) → j < size → slot cells ((start + suc j) % size) ≡ g j
      moved j l = elim (dec_lt (suc j) size) [
        | yes h ↦ s.at (suc j) h ∙ inner j h
        | no h ↦
            let e : suc j ≡ size = omega arith in
            ap (λ k. slot cells k) (round j e) ∙ s.at 0 (omega arith) ∙ last j e
      ]

  -- The slot at the start, and the one after the last of a view that is a list.
  pub Slots-first :
      {f : ℕ → Option A} → Slots size cells start f → start < size → slot cells start ≡ f 0
  Slots-first s hs =
      ap (λ k. slot cells k)
        (sym (mod-eq_of_lt {n = start + 0} {m = size} (omega arith) ∙ omega arith))
      ∙ s.at 0 (omega arith)

  -- The slot at the start becomes empty.
  pub Slots-clear :
      {f : ℕ → Option A}
      → Slots size cells start f
      → start < size
      → Slots size (set cells start none) start (λ j. if 0 == j then none else f j)
  Slots-clear {f} s hs =
      subst (λ k. Slots size (set cells k none) start (λ j. if 0 == j then none else f j))
        (mod-eq_of_lt {n = start + 0} {m = size} (omega arith) ∙ omega arith)
        (Slots-set 0 none s hs (omega arith))

-- The view of a list: its elements, and then no objects.
abbrev pub view_of {ℓ} : {A : Type ℓ} → List A → ℕ → Option A
view_of c j = get_elem? c j

module _ {ℓ} {A : Type ℓ} {size : ℕ} where
  pub Slots-fresh : Slots size (replicate size none) 0 (view_of {A = A} [])
  Slots-fresh = record {
    long = length-replicate size none;
    at = λ j l. get_or-replicate size ((0 + j) % size) none;
  }

  -- An object constructed just past the list's elements extends the list.
  pub Slots-append :
      {cells : List (Option A)} {start : ℕ} (c : List A) (v : A)
      → Slots size cells start (view_of c)
      → start < size
      → length c < size
      → Slots size (set cells ((start + length c) % size) (some v)) start (view_of (c ++ (v ∷ [])))
  Slots-append c v s hs hl =
      Slots-ext (Slots-set (length c) (some v) s hs hl) (λ j l. sym (get_elem?-snoc c v j))

  -- Destroying the first element and moving on drops it from the list.
  pub Slots-drop :
      {cells : List (Option A)} {start : ℕ} (x : A) (c : List A)
      → Slots size cells start (view_of (x ∷ c))
      → start < size
      → length c < size
      → Slots size (set cells start none) ((start + 1) % size) (view_of c)
  Slots-drop {cells} {start} x c s hs hl =
      Slots-shift (Slots-clear s hs) (view_of c) (λ j l. rw (==_comm 0 (suc j), suc-==-zero j))
        (λ j e. sym (get_elem?_of_ge c j (omega arith))) hs
