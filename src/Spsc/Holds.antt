-- ===== src/Spsc/Holds.antt =====
-- What a queue holds between calls: the relation between the ring and the list of its elements,
-- and what each member function does to it.
use sync_tools.Prelude.{
  ℕ, suc, ◌+◌, ◌-◌, ◌%◌, ◌<◌, ◌≡◌, sym, ◌∙◌, none, some, List, [], ◌∷◌, ◌++◌, ◌==◌, arith, length,
  set, length-snoc, ==_congr, ap,
}
use native.Mathlib.Nat.{mod-lt, mod-eq_of_lt, mod-add-mod, add-zero}
use sync_tools.Prelude.Words.{add_size, sub_size, IsPow2, IsPow2-pos, IsPow2-le, mask-eq-mod}
use sync_tools.Prelude.Modular.{mod_full, mod_full_of_eq, mod_empty, mod_distance, mod_shift}
use sync_tools.Storage.{construct_at, take_at, construct_at-ok, take_at-ok}
use sync_tools.Ring.{Slots, view_of, Slots-fresh, Slots-append, Slots-drop, Slots-first}
use sync_tools.Fifo.{QueueStatus}
use sync_tools.Spsc.Queue.{Queue, new_queue, next_index, size_of}

module _ {ℓ} {A : Type ℓ} (size : ℕ) where
  -- The objects in the buffer are the elements `c`, oldest at `tail`; `head` is the slot after
  -- them, and at least that one slot holds no object.
  pub record Holds (q : Queue A) (c : List A) : Type ℓ where
    pub slots : Slots size q.buffer q.tail (view_of c)
    pub tail_in : q.tail < size
    pub room : length c < size
    pub head_at : q.head ≡ (q.tail + length c) % size

module _ {ℓ} {A : Type ℓ} (size : ℕ) where
  -- The queue after a push that succeeds, and after a pop.
  abbrev pub pushed : Queue A → A → Queue A
  pushed q v = record q { buffer = set q.buffer q.head (some v); head = next_index size q.head }

  abbrev pub popped : Queue A → Queue A
  popped q = record q { buffer = set q.buffer q.tail none; tail = next_index size q.tail }

module _ {ℓ} {A : Type ℓ} {size : ℕ} where
  -- The status plays no part.
  pub Holds-status :
      {q : Queue A} {c : List A} (s : QueueStatus)
      → Holds size q c
      → Holds size (record q { status = s }) c
  Holds-status s h = record {
    slots = h.slots;
    tail_in = h.tail_in;
    room = h.room;
    head_at = h.head_at;
  }

-- `(i + 1) & _mask` at an index in range.
pub next_index_lem :
    {size : ℕ} → IsPow2 size → (i : ℕ) → i < size → next_index size i ≡ (i + 1) % size
next_index_lem {size} p i h =
    mask-eq-mod p (add_size i 1) ∙ ap (λ k. k % size) (omega (arith, IsPow2-le p))

module _ {ℓ} {A : Type ℓ} {size : ℕ} (p : IsPow2 size) where
  pub new_queue-Holds : Holds size (new_queue A size) []
  unfolding new_queue
  new_queue-Holds = record {
    slots = Slots-fresh;
    tail_in = IsPow2-pos p;
    room = IsPow2-pos p;
    head_at = sym (mod-eq_of_lt (IsPow2-pos p));
  }

  module _ {q : Queue A} {c : List A} (h : Holds size q c) where
    pub head_in : q.head < size
    head_in = rw h.head_at (mod-lt (q.tail + length c) (IsPow2-pos p))

    -- The test for a full queue.
    pub full_test : (next_index size q.head == q.tail) ≡ (suc (length c) == size)
    full_test =
        rw (next_index_lem p q.head head_in, h.head_at)
          (==_congr (((q.tail + length c) % size + 1) % size) q.tail (suc (length c)) size
            (λ e. omega (arith, mod_full (length c) h.tail_in h.room e))
            (λ e. mod_full_of_eq (length c) h.tail_in (omega arith)))

    pub empty_test : (q.tail == q.head) ≡ (length c == 0)
    empty_test = rw h.head_at (
        ==_congr q.tail ((q.tail + length c) % size) (length c) 0
          (mod_empty (length c) h.tail_in h.room)
          (λ e. sym (ap (λ k. (q.tail + k) % size) e ∙ rw add-zero (mod-eq_of_lt h.tail_in))))

    pub size_test : size_of size q ≡ length c
    unfolding size_of
    size_test =
        let e : sub_size (add_size q.head size) q.tail ≡ q.head + size - q.tail =
          omega (arith, IsPow2-le p, head_in, h.tail_in) in
        let d : (q.head + size - q.tail) % size ≡ length c =
          rw h.head_at (mod_distance (length c) h.tail_in h.room) in
        mask-eq-mod p (sub_size (add_size q.head size) q.tail) ∙ ap (λ k. k % size) e ∙ d

    -- After the placement `new` and the store to `_head`.
    pub Holds-pushed :
        (v : A) → suc (length c) < size → Holds size (pushed size q v) (c ++ (v ∷ []))
    Holds-pushed v room = record {
      slots = rw h.head_at (Slots-append c v h.slots h.tail_in (omega arith));
      tail_in = h.tail_in;
      room = omega (arith, length-snoc c v);
      head_at =
          next_index_lem p q.head head_in
          ∙ ap (λ k. (k + 1) % size) h.head_at
          ∙ mod-add-mod (q.tail + length c) size 1
          ∙ ap (λ k. k % size) (omega (arith, length-snoc c v));
    }

    pub construct-head :
        (v : A) → construct_at q.buffer q.head v ≡ some (set q.buffer q.head (some v))
    construct-head v = construct_at-ok q.buffer q.head v (rw h.slots.long head_in)

  -- After the destructor call and the store to `_tail`.
  pub Holds-popped :
      {q : Queue A} (x : A) (c : List A) → Holds size q (x ∷ c) → Holds size (popped size q) c
  Holds-popped {q} x c h = record {
    slots =
        rw (next_index_lem p q.tail h.tail_in)
          (Slots-drop x c h.slots h.tail_in (omega (arith, h.room)));
    tail_in = rw (next_index_lem p q.tail h.tail_in) (mod-lt (q.tail + 1) (IsPow2-pos p));
    room = omega (arith, h.room);
    head_at =
        h.head_at ∙ rw (next_index_lem p q.tail h.tail_in) (sym (mod_shift size q.tail (length c)));
  }

  pub take-tail :
      {q : Queue A} (x : A) (c : List A)
      → Holds size q (x ∷ c)
      → take_at q.buffer q.tail ≡ some (x, set q.buffer q.tail none)
  take-tail {q} x c h = take_at-ok q.buffer q.tail x (Slots-first h.slots h.tail_in)
