-- ===== src/Mpsc/Threads/Take.antt =====
-- The consumer moves on without writing to a cell, or writes to the oldest one.
use sync_tools.Prelude.{
  ℕ, suc, ◌+◌, ◌^◌, ◌≤◌, ◌<◌, ◌≡◌, ◌≢◌, refl, sym, ◌∙◌, ap, subst, Option, none, some, List, [],
  ◌∷◌, ◌++◌, inl, inr, arith, length, set, length-snoc, length-set, get_elem?, get_elem?-snoc,
  get_elem?-append_left, dec_lt, ==_iff,
}
use native.Mathlib.Nat.{add-mod_right}
use sync_tools.Prelude.Words.{IsPow2, IsPow2-pos, add_size, mask}
use sync_tools.Spsc.Threads.{Mode}
use sync_tools.Mpsc.Queue.{Cell, Queue}
use sync_tools.Mpsc.Threads.{Producer, Consumer, CellOf, put_cell}
use sync_tools.Mpsc.Threads.Invariant.{
  in_flight, taken, tail_of, IsAt, Published, ProducerKnows, ConsumerKnows, Inv,
}
use sync_tools.Mpsc.Threads.Cells.{
  read-put_self, read-put_other, Published-put, ProducerKnows-put, not_owned,
}
use sync_tools.Mpsc.Threads.Knows.{flight_owns, ProducerKnows-taken, ProducerKnows-released}
use sync_tools.Mpsc.Threads.Facts.{taken_range, read_cell}

-- The consumer moves to `k'`, at most with a store to `_tail`.
pub Inv-still {ℓ} :
    {A : Type ℓ} {size h r : ℕ} {q : Queue A} {ps : ℕ → Producer A} {k : Consumer A}
    {claimed popped : List A}
    → Inv size h r q ps k claimed popped
    → (k' : Consumer A) (t : ℕ) → taken k r ≡ taken k' r
    → t ≡ tail_of k' r
    → ConsumerKnows size h r q.cells claimed k'
    → Inv size h r (record q { tail = t }) ps k' claimed popped
Inv-still {size = size} {h} {r} {q} {ps} {claimed = claimed} inv k' t same at knows = record {
  long = inv.long;
  claims = inv.claims;
  pops = inv.pops;
  head_at = inv.head_at;
  tail_at = at;
  behind = inv.behind;
  room = inv.room;
  order = inv.order;
  free = inv.free;
  filled = λ n a b. inv.filled n (omega arith) b;
  producers_know =
      λ i. subst (λ t. ProducerKnows size h r q.cells claimed t (ps i)) same (inv.producers_know i);
  distinct = inv.distinct;
  consumer_knows = knows;
}

-- What the consumer knows where it stands.
pub ConsumerKnows-at {ℓ} :
    {A : Type ℓ} {size h r : ℕ} {q : Queue A} {ps : ℕ → Producer A} {k : Consumer A}
    {claimed popped : List A} (inv : Inv size h r q ps k claimed popped) {k' : Consumer A}
    → k ≡ k'
    → ConsumerKnows size h r q.cells claimed k'
ConsumerKnows-at {size = size} {h} {r} {q} {claimed = claimed} inv e =
    subst (λ k. ConsumerKnows size h r q.cells claimed k) e inv.consumer_knows

-- The consumer writes `c` to the cell at `r`, which no producer has.
module _ {ℓ} {A : Type ℓ} {size h r : ℕ} (pow : IsPow2 size) {q : Queue A} {ps : ℕ → Producer A}
    {k : Consumer A} {claimed popped : List A} (inv : Inv size h r q ps k claimed popped)
    (grounded : (i : ℕ) → in_flight (ps i) ≢ some r) (below : r < h) (c : Cell A) where
  abbrev written : List (Cell A)
  written = set q.cells (mask size r) c

  written_free : (n : ℕ) → h ≤ n → n < r + size → IsAt size written n n none
  written_free n a b =
      read-put_other pow q.cells inv.long r r c (omega arith) (omega (arith, IsPow2-pos pow)) n
        (omega arith) b (λ e. omega arith)
      ∙ inv.free n a b

  written-Published :
      (n : ℕ) → r < n → n < h → Published size q.cells claimed n → Published size written claimed n
  written-Published n a b o =
      Published-put pow q.cells inv.long r r c (omega arith) (omega (arith, IsPow2-pos pow)) n
        (omega arith) (omega (arith, inv.room)) (λ e. omega arith) o

  written_knows : (i : ℕ) → ProducerKnows size h r written claimed (taken k r) (ps i)
  written_knows i =
      ProducerKnows-put pow q.cells inv.long r r c (omega arith) (omega (arith, IsPow2-pos pow))
        claimed h (taken k r) (omega (arith, taken_range k r)) inv.room (ps i) (grounded i)
        (inv.producers_know i)

module _ {ℓ} {A : Type ℓ} {size h r : ℕ} (pow : IsPow2 size) {q : Queue A} {ps : ℕ → Producer A}
    {claimed popped : List A} {m : Mode} {v : A} {c : Cell A} (here : CellOf size q r c) where
  -- The object moves out of the oldest cell.
  pub Inv-take :
      Inv size h r q ps (Consumer.take_object m r) claimed popped
      → c.storage ≡ some v
      → Inv size h r
          (put_cell size q r (record c { storage = none }))
          ps
          (Consumer.store_seq m r v)
          claimed
          popped
  Inv-take inv full = record {
    long = length-set q.cells (mask size r) c' ∙ inv.long;
    claims = inv.claims;
    pops = inv.pops;
    head_at = inv.head_at;
    tail_at = inv.tail_at;
    behind = inv.behind;
    room = inv.room;
    order = inv.order;
    free = written_free pow inv grounded below c';
    filled = λ n a b. elim (inv.filled n (omega arith) b) [
      | inl o ↦ inl (written-Published pow inv grounded below c' n a b o)
      | inr f ↦ inr f
    ];
    producers_know = λ i.
        ProducerKnows-taken size h r r (set q.cells (mask size r) c') claimed (ps i) (grounded i)
          (written_knows pow inv grounded below c' i);
    distinct = inv.distinct;
    consumer_knows = (
      refl,
      below,
      published.claimed_for ∙ sym same_value,
      read-put_self pow q.cells inv.long r c'
          ∙ ap {A = Cell A} {B = Option (Cell A)} (λ d. some (record d { storage = none })) cell,
    );
  }
    where
      c' : Cell A
      c' = record c { storage = none }

      below : r < h
      below = inv.consumer_knows.1

      published : Published size q.cells claimed r
      published = inv.consumer_knows.2

      cell : c ≡ record { seq = suc r; storage = some published.value }
      cell = read_cell pow inv r here published.there

      same_value : some v ≡ some published.value
      same_value = sym full ∙ ap (λ d. d.storage) cell

      grounded : (i : ℕ) → in_flight (ps i) ≢ some r
      grounded i f =
          let (w, x, o) = flight_owns size h r r q.cells claimed (ps i) (inv.producers_know i) f in
          not_owned size r r q.cells x (some published.value) o.there published.there refl

  -- The store that gives the cell back.
  pub Inv-release :
      h + size < 2 ^ 63
      → Inv size h r q ps (Consumer.store_seq m r v) claimed popped
      → Inv size h
          (suc r)
          (put_cell size q r (record c { seq = add_size r size }))
          ps
          Consumer.idle
          claimed
          (popped ++ (v ∷ []))
  Inv-release b inv = record {
    long = length-set q.cells (mask size r) c' ∙ inv.long;
    claims = inv.claims;
    pops = omega (arith, length-snoc popped v, inv.pops);
    head_at = inv.head_at;
    tail_at = inv.tail_at;
    behind = omega arith;
    room = omega (arith, inv.room);
    order = λ n l. elim (dec_lt n r) [
      | yes old ↦
          get_elem?-append_left popped (v ∷ []) n (omega (arith, inv.pops)) ∙ inv.order n old
      | no new ↦
          let e : r ≡ n = omega arith in
          get_elem?-snoc popped v n
          ∙ rw ((==_iff (length popped) n).1 (inv.pops ∙ e))
              (sym inv.consumer_knows.2 ∙ ap (λ j. get_elem? claimed j) e)
    ];
    free = λ n a l. elim (dec_lt n (r + size)) [
      | yes old ↦ written_free pow inv grounded below c' n a old
      | no new ↦
          let e : r + size ≡ n = omega arith in
          subst (λ j. IsAt size (set q.cells (mask size r) c') j j none) e again
    ];
    filled = λ n a l. elim (inv.filled n a l) [
      | inl o ↦ inl (written-Published pow inv grounded below c' n a l o)
      | inr f ↦ inr f
    ];
    producers_know = λ i.
        ProducerKnows-released size h r (suc r) (set q.cells (mask size r) c') claimed (ps i)
          (written_knows pow inv grounded below c' i);
    distinct = inv.distinct;
    consumer_knows = tt;
  }
    where
      c' : Cell A
      c' = record c { seq = add_size r size }

      below : r < h
      below = inv.consumer_knows.1

      cell : c ≡ record { seq = suc r; storage = none }
      cell = read_cell pow inv r here inv.consumer_knows.3

      again : IsAt size (set q.cells (mask size r) c') (r + size) (r + size) none
      again =
          ap (λ j. get_elem? (set q.cells (mask size r) c') j) (add-mod_right r size)
          ∙ read-put_self pow q.cells inv.long r c'
          ∙ ap {A = Cell A} {B = Option (Cell A)} (λ d. some (record d { seq = add_size r size }))
              cell
          ∙ ap {B = Option (Cell A)} (λ j. some (record { seq = j; storage = none }))
              (omega (arith, inv.behind))

      grounded : (i : ℕ) → in_flight (ps i) ≢ some r
      grounded i f =
          let (w, x, o) =
            flight_owns size h r (suc r) q.cells claimed (ps i) (inv.producers_know i) f in
          omega (arith, o.from)
