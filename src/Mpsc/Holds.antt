-- ===== src/Mpsc/Holds.antt =====
-- What a queue holds between calls: each cell's sequence number says whose turn it is, and the
-- cells between `_tail` and `_head` hold the elements.
use sync_tools.Prelude.{
  ℕ, zero, suc, ◌+◌, ◌%◌, ◌^◌, ◌≤◌, ◌<◌, ◌≡◌, refl, sym, ◌∙◌, ap, none, some, List, [], ◌∷◌, ◌++◌,
  ◌==◌, ltb, if◌then◌else◌, arith, length, set, get_elem?, length-snoc, length-set, get_elem?-set,
  get_elem?-snoc, get_elem?_of_ge, ==_congr, ==_iff, ==-eq_false, lt→ltb, Bool-cases, true, false,
  inl, inr, dec_lt, Option,
}
use native.Mathlib.Nat.{add-mod_right, mod-lt, mod-eq_of_lt, mod-add-mod}
use sync_tools.Prelude.Words.{add_size, mask, IsPow2, IsPow2-pos, IsPow2-le, mask-eq-mod}
use sync_tools.Prelude.Modular.{mod_injective}
use sync_tools.Fifo.{QueueStatus}
use sync_tools.Mpsc.Queue.{Cell, Queue, new_queue, fresh_cells, diff, sign_of, publish, consumed}

-- The cell `j` places after the tail, in a queue of `n` elements: number and object.
abbrev pub seq_at : (tail n j : ℕ) → ℕ
seq_at tail n j = if ltb j n then tail + j + 1 else tail + j

abbrev pub cell_at {ℓ} : {A : Type ℓ} → ℕ → List A → ℕ → Cell A
cell_at tail c j = record { seq = seq_at tail (length c) j; storage = get_elem? c j }

module _ {ℓ} {A : Type ℓ} (size : ℕ) where
  -- The queue holds the elements `c`, oldest at `tail`.
  pub record Holds (q : Queue A) (c : List A) : Type ℓ where
    pub long : length q.cells ≡ size
    pub at :
        (j : ℕ) → j < size → get_elem? q.cells ((q.tail + j) % size) ≡ some (cell_at q.tail c j)
    pub head_at : q.head ≡ q.tail + length c
    pub room : length c ≤ size

-- Below `2 ^ 63` the difference is that of the numbers.
pub diff_lem : (a b : ℕ) → a < 2 ^ 63 → b < 2 ^ 63 → diff a b ≡ some (sign_of a b)
unfolding diff
diff_lem a b h k = ground arith

module _ {ℓ} (A : Type ℓ) where
  length-fresh_cells : (i n : ℕ) → length (fresh_cells {A = A} i n) ≡ n
  length-fresh_cells i zero = refl
  length-fresh_cells i (suc n) = ap suc (length-fresh_cells (suc i) n)

  get_elem?-fresh_cells :
      (i n j : ℕ)
      → j < n
      → get_elem? (fresh_cells {A = A} i n) j ≡ some (record { seq = i + j; storage = none })
  get_elem?-fresh_cells i zero j h = absurd (omega arith)
  get_elem?-fresh_cells i (suc n) zero h =
      ap (λ k. some (record { seq = k; storage = none })) (omega arith)
  get_elem?-fresh_cells i (suc n) (suc j) h =
      get_elem?-fresh_cells (suc i) n j (omega arith)
      ∙ ap (λ k. some (record { seq = k; storage = none })) (omega arith)

-- Places round the ring, from a start that may be past its end.
pub place_injective :
    {size : ℕ} (t i j : ℕ) → i < size → j < size → (t + i) % size ≡ (t + j) % size → i ≡ j
place_injective {size} t i j hi hj e =
    mod_injective {n = size} {t = t % size} i j (mod-lt t (omega arith)) hi hj
      (mod-add-mod t size i ∙ e ∙ sym (mod-add-mod t size j))

fresh_seq : (j : ℕ) → 0 + (0 + j) ≡ seq_at 0 0 j
fresh_seq j = ground arith

seq_first : (t n : ℕ) → seq_at t (suc n) 0 ≡ t + 1
seq_first t n = ground arith

seq_shift : (t n j : ℕ) → seq_at t (suc n) (suc j) ≡ seq_at (t + 1) n j
seq_shift t n j = ground arith

seq_last : (t n j : ℕ) → n ≤ j → seq_at (t + 1) n j ≡ t + suc j
seq_last t n j h = ground arith

module _ {ℓ} {A : Type ℓ} {size : ℕ} where
  -- The status plays no part.
  pub Holds-status :
      {q : Queue A} {c : List A} (s : QueueStatus)
      → Holds size q c
      → Holds size (record q { status = s }) c
  Holds-status s h = record { long = h.long; at = h.at; head_at = h.head_at; room = h.room }

  -- A cell written at one place, read at another.
  set_at :
      {q : Queue A} {c : List A}
      → Holds size q c
      → (i j : ℕ) (w : Cell A) → i < size
      → j < size
      → get_elem? (set q.cells ((q.tail + i) % size) w) ((q.tail + j) % size)
        ≡ (if i == j then some w else some (cell_at q.tail c j))
  set_at {q} {c} h i j w hi hj =
      get_elem?-set q.cells ((q.tail + i) % size) ((q.tail + j) % size) w
        (rw h.long (mod-lt (q.tail + i) (omega arith)))
      ∙ rw (
        ==_congr ((q.tail + i) % size) ((q.tail + j) % size) i j (place_injective q.tail i j hi hj)
            (ap (λ k. (q.tail + k) % size)),
        h.at j hj,
      )

module _ {ℓ} {A : Type ℓ} where
  cell_at-snoc :
      (t : ℕ) (c : List A) (v : A) (j : ℕ)
      → cell_at t (c ++ (v ∷ [])) j ≡ (
          if length c == j
          then record { seq = t + length c + 1; storage = some v }
          else cell_at t c j)
  cell_at-snoc t c v j = elim (Bool-cases (length c == j)) [
    | inl e ↦
        let l : ltb j (length (c ++ (v ∷ []))) ≡ true = ground (arith, length-snoc c v) in
        rw (e, get_elem?-snoc c v j, e, l)
          (ap (λ k. record { seq = t + k + 1; storage = some v }) (sym ((==_iff _ _).0 e)))
    | inr e ↦
        let l : ltb j (length (c ++ (v ∷ []))) ≡ ltb j (length c) =
          ground (arith, length-snoc c v) in
        rw (e, get_elem?-snoc c v j, e, l)
  ]

module _ {ℓ} {A : Type ℓ} {size : ℕ} (p : IsPow2 size) where
  pub new_queue-Holds : Holds size (new_queue A size) []
  unfolding new_queue
  new_queue-Holds = record {
    long = length-fresh_cells A 0 size;
    at = λ j h.
        ap (λ k. get_elem? (fresh_cells 0 size) k)
          (mod-eq_of_lt {n = 0 + j} {m = size} (omega arith))
        ∙ get_elem?-fresh_cells A 0 size (0 + j) (omega arith)
        ∙ ap (λ k. some (record { seq = k; storage = none })) (fresh_seq j);
    head_at = refl;
    room = omega arith;
  }

  module _ {q : Queue A} {c : List A} (h : Holds size q c) where
    cell_tail : get_elem? q.cells (mask size q.tail) ≡ some (cell_at q.tail c 0)
    cell_tail =
        ap (λ k. get_elem? q.cells k) (mask-eq-mod p q.tail ∙ ap (λ k. k % size) (omega arith))
        ∙ h.at 0 (IsPow2-pos p)

    place_head : mask size q.head ≡ (q.tail + length c) % size
    place_head = mask-eq-mod p q.head ∙ ap (λ k. k % size) h.head_at

    -- The cell that a producer tries to claim.
    pub head_room :
        length c < size
        → get_elem? q.cells (mask size q.head) ≡ some (record { seq = q.head; storage = none })
    head_room l =
        let n : ltb (length c) (length c) ≡ false = ground arith in
        ap (λ k. get_elem? q.cells k) place_head
        ∙ h.at (length c) l
        ∙ rw (n, get_elem?_of_ge c (length c) (omega arith), h.head_at)

    pub head_full :
        length c ≡ size
        → (w : Option A) × (get_elem? q.cells (mask size q.head)
            ≡ some (record { seq = q.tail + 1; storage = w }))
    head_full l =
        let n : ltb 0 (length c) ≡ true = lt→ltb 0 (length c) (omega (arith, IsPow2-pos p)) in
        let round : mask size q.head ≡ mask size q.tail =
          place_head
          ∙ ap (λ k. (q.tail + k) % size) l
          ∙ add-mod_right q.tail size
          ∙ sym (mask-eq-mod p q.tail) in
        (
          get_elem? c 0,
          ap (λ k. get_elem? q.cells k) round
              ∙ cell_tail
              ∙ rw n (ap (λ k. some (record { seq = k; storage = get_elem? c 0 })) (omega arith)),
        )

  pub tail_nil :
      {q : Queue A}
      → Holds size q []
      → get_elem? q.cells (mask size q.tail) ≡ some (record { seq = q.tail; storage = none })
  tail_nil {q} h = cell_tail h ∙ ap (λ k. some (record { seq = k; storage = none })) (omega arith)

  pub tail_cons :
      {q : Queue A} (x : A) (c : List A)
      → Holds size q (x ∷ c)
      → get_elem? q.cells (mask size q.tail) ≡ some (record { seq = q.tail + 1; storage = some x })
  tail_cons {q} x c h =
      cell_tail h
      ∙ ap (λ k. some (record { seq = k; storage = some x })) (seq_first q.tail (length c))

  -- After a producer has published its cell.
  pub Holds-pushed :
      {q : Queue A} {c : List A} (v : A)
      → Holds size q c
      → length c < size
      → q.head < 2 ^ 63
      → Holds size (publish size q.head v q) (c ++ (v ∷ []))
  Holds-pushed {q} {c} v h l b =
      let up : add_size q.head 1 ≡ q.tail + length c + 1 = omega (arith, h.head_at) in
      record {
        long = length-set q.cells (mask size q.head) _ ∙ h.long;
        at = λ j i.
            rw (place_head h, up)
              (set_at h (length c) j _ l i
                ∙ rw (cell_at-snoc q.tail c v j)
                    (elim (Bool-cases (length c == j)) [ inl e ↦ rw e | inr e ↦ rw e ]));
        head_at = up ∙ omega (arith, length-snoc c v);
        room = omega (arith, length-snoc c v);
      }

  -- After the consumer has given its cell back.
  pub Holds-popped :
      {q : Queue A} (x : A) (c : List A)
      → Holds size q (x ∷ c)
      → q.tail < 2 ^ 63
      → Holds size (consumed size q) c
  Holds-popped {q} x c h b =
      let up : add_size q.tail 1 ≡ q.tail + 1 = omega arith in
      let over : add_size q.tail size ≡ q.tail + size = omega (arith, IsPow2-le p) in
      record {
        long = length-set q.cells (mask size q.tail) _ ∙ h.long;
        at = λ j i. rw (up, over) (moved j i);
        head_at = h.head_at ∙ rw up (omega arith);
        room = omega (arith, h.room);
      }
    where
      back : Cell A
      back = record { seq = q.tail + size; storage = none }

      place : mask size q.tail ≡ (q.tail + 0) % size
      place = mask-eq-mod p q.tail ∙ ap (λ k. k % size) (omega arith)

      next : (j : ℕ) → q.tail + 1 + j ≡ q.tail + suc j
      next j = omega arith

      wrapped :
          (j : ℕ)
          → suc j ≡ size
          → cell_at (q.tail + 1) c j ≡ record { seq = q.tail + size; storage = none }
      wrapped j e =
          ap (λ n. record { seq = n; storage = get_elem? c j })
            (seq_last q.tail (length c) j (omega (arith, h.room)) ∙ ap (λ n. q.tail + n) e)
          ∙ ap (λ w. record { seq = q.tail + size; storage = w })
              (get_elem?_of_ge c j (omega (arith, h.room)))

      moved :
          (j : ℕ)
          → j < size
          → get_elem?
              (set q.cells (mask size q.tail) (record { seq = q.tail + size; storage = none }))
              ((q.tail + 1 + j) % size)
            ≡ some (cell_at (q.tail + 1) c j)
      moved j i = elim (dec_lt (suc j) size) [
        | yes k ↦ rw place (
            ap (λ n. get_elem? (set q.cells ((q.tail + 0) % size) back) (n % size)) (next j)
            ∙ set_at h 0 (suc j) back (omega arith) k
            ∙ rw (==-eq_false 0 (suc j) (λ e. omega arith)) (
                ap (λ n. some (record { seq = n; storage = get_elem? c j }))
                  (seq_shift q.tail (length c) j)))
        | no k ↦
            let e : suc j ≡ size = omega arith in
            let round : (q.tail + 1 + j) % size ≡ (q.tail + 0) % size =
              ap (λ n. n % size) (next j)
              ∙ ap (λ n. (q.tail + n) % size) e
              ∙ add-mod_right q.tail size
              ∙ ap (λ n. n % size) (omega arith) in
            rw place (
              ap (λ n. get_elem? (set q.cells ((q.tail + 0) % size) back) n) round
              ∙ set_at h 0 0 back (omega arith) (omega arith)
              ∙ ap some (sym (wrapped j e)))
      ]
