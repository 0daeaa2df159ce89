-- ===== src/Mpsc/Threads/Write.antt =====
-- A producer writes to the cell that it has claimed.
use sync_tools.Prelude.{
  ℕ, suc, ◌+◌, ◌^◌, ◌≤◌, ◌<◌, ◌≡◌, ◌≢◌, refl, sym, ◌∙◌, ap, subst, Option, none, some,
  some-injective, List, ◌⊎◌, inl, inr, arith, set, length-set, ℕ_discrete,
}
use sync_tools.Prelude.Words.{IsPow2, add_size, mask}
use sync_tools.Prelude.Family.{update, update_self, update_other, update_all}
use sync_tools.Spsc.Threads.{Mode}
use sync_tools.Mpsc.Queue.{Cell, Queue}
use sync_tools.Mpsc.Threads.{Producer, Consumer, CellOf, put_cell}
use sync_tools.Mpsc.Threads.Invariant.{
  in_flight, taken, IsAt, Published, OwnsCell, ProducerKnows, ConsumerKnows, Inv,
}
use sync_tools.Mpsc.Threads.Cells.{
  read-put_self, read-put_other, Published-put, ProducerKnows-put, ConsumerKnows-put,
}
use sync_tools.Mpsc.Threads.Flight.{distinct-update}
use sync_tools.Mpsc.Threads.Facts.{taken_range, read_cell}

-- Producer `i` writes `c` to the cell that it owns.
module _ {ℓ} {A : Type ℓ} {size h r : ℕ} (pow : IsPow2 size) {q : Queue A} {ps : ℕ → Producer A}
    {k : Consumer A} {claimed popped : List A} (inv : Inv size h r q ps k claimed popped) (i : ℕ)
    {pos : ℕ} {v : A} {x : Option A} (flies : in_flight (ps i) ≡ some pos)
    (own : OwnsCell size q.cells h claimed (taken k r) pos v x) (c : Cell A) where
  own_from : r ≤ pos
  own_from = omega (arith, own.from, taken_range k r)

  own_below : pos < r + size
  own_below = omega (arith, own.below, inv.room)

  abbrev written : List (Cell A)
  written = set q.cells (mask size pos) c

  written_free : (pos' : ℕ) → h ≤ pos' → pos' < r + size → IsAt size written pos' pos' none
  written_free pos' a b =
      read-put_other pow q.cells inv.long r pos c own_from own_below pos'
        (omega (arith, inv.behind)) b (λ e. omega (arith, own.below))
      ∙ inv.free pos' a b

  written-Published :
      (pos' : ℕ)
      → taken k r ≤ pos'
      → pos' < h
      → pos ≢ pos'
      → Published size q.cells claimed pos'
      → Published size written claimed pos'
  written-Published pos' a b ne o =
      Published-put pow q.cells inv.long r pos c own_from own_below pos'
        (omega (arith, taken_range k r)) (omega (arith, inv.room)) ne o

  written_others : (j : ℕ) → i ≢ j → ProducerKnows size h r written claimed (taken k r) (ps j)
  written_others j ne =
      ProducerKnows-put pow q.cells inv.long r pos c own_from own_below claimed h (taken k r)
        (omega (arith, taken_range k r)) inv.room (ps j) (λ f. ne (inv.distinct i j pos flies f))
        (inv.producers_know j)

  written_consumer : ConsumerKnows size h r written claimed k
  written_consumer =
      ConsumerKnows-put pow q.cells inv.long r pos c own_from own_below claimed h x k own.there
        inv.consumer_knows

  -- The producer is at `p` after it, and flies at `pos` still or has published.
  pub Inv-write :
      (p : Producer A)
      → ((n : ℕ) → in_flight p ≡ some n → pos ≡ n)
      → ProducerKnows size h r written claimed (taken k r) p
      → Published size written claimed pos ⊎ (in_flight p ≡ some pos)
      → Inv size h r (put_cell size q pos c) (update ps i p) k claimed popped
  Inv-write p there knows fills = record {
    long = length-set q.cells (mask size pos) c ∙ inv.long;
    claims = inv.claims;
    pops = inv.pops;
    head_at = inv.head_at;
    tail_at = inv.tail_at;
    behind = inv.behind;
    room = inv.room;
    order = inv.order;
    free = written_free;
    filled = λ n a b. elim (ℕ_discrete pos n) [
      | yes e ↦
          subst Filled e
            (elim fills [ inl o ↦ inl o | inr f ↦ inr (i, ap in_flight (update_self ps i p) ∙ f) ])
      | no ne ↦ elim (inv.filled n a b) [
        | inl o ↦ inl (written-Published n a b ne o)
        | inr f ↦
            inr
              (f.0, ap in_flight (update_other ps i p f.0 (λ e. ne (same_place f.0 n e f.1))) ∙ f.1)
      ]
    ];
    producers_know =
        update_all ps i p (λ j p'. ProducerKnows size h r written claimed (taken k r) p') knows
          written_others;
    distinct =
        distinct-update ps i p inv.distinct
          (λ j n ne f f'. ne (inv.distinct i j pos flies (f ∙ ap some (sym (there n f')))));
    consumer_knows = written_consumer;
  }
    where
      Filled : ℕ → Type ℓ
      Filled n =
          Published size written claimed n ⊎ ((j : ℕ) × (in_flight (update ps i p j) ≡ some n))

      same_place : (j n : ℕ) → i ≡ j → in_flight (ps j) ≡ some n → pos ≡ n
      same_place j n e f = some-injective _ _ (sym flies ∙ ap (λ l. in_flight (ps l)) e ∙ f)

pub producer_knows {ℓ} :
    {A : Type ℓ} {size h r : ℕ} {q : Queue A} {ps : ℕ → Producer A} {k : Consumer A}
    {claimed popped : List A} (inv : Inv size h r q ps k claimed popped) (i : ℕ) {p : Producer A}
    → ps i ≡ p
    → ProducerKnows size h r q.cells claimed (taken k r) p
producer_knows {size = size} {h = h} {r = r} {q = q} {k = k} {claimed = claimed} inv i e =
    subst (λ p. ProducerKnows size h r q.cells claimed (taken k r) p) e (inv.producers_know i)

module _ {ℓ} {A : Type ℓ} {size h r : ℕ} (pow : IsPow2 size) {q : Queue A} {ps : ℕ → Producer A}
    {k : Consumer A} {claimed popped : List A} (inv : Inv size h r q ps k claimed popped) (i : ℕ)
    {m : Mode} {v : A} {pos : ℕ} {c : Cell A} (here : CellOf size q pos c) where
  -- The placement `new` in the cell.
  pub Inv-construct :
      ps i ≡ Producer.construct m v pos
      → Inv size h r
          (put_cell size q pos (record c { storage = some v }))
          (update ps i (Producer.store_seq m v pos))
          k
          claimed
          popped
  Inv-construct e =
      let own : OwnsCell size q.cells h claimed (taken k r) pos v none = producer_knows inv i e in
      Inv-write pow inv i (ap in_flight e) own (record c { storage = some v })
        (Producer.store_seq m v pos) (λ n f. some-injective _ _ f)
        (record {
          from = own.from;
          below = own.below;
          claimed_for = own.claimed_for;
          there =
              read-put_self pow q.cells inv.long pos (record c { storage = some v })
              ∙ ap {A = Cell A} {B = Option (Cell A)} (λ d. some (record d { storage = some v }))
                  (read_cell pow inv pos here own.there);
        })
        (inr refl)

  -- The store to its number.
  pub Inv-publish :
      h + size < 2 ^ 63
      → ps i ≡ Producer.store_seq m v pos
      → Inv size h r
          (put_cell size q pos (record c { seq = add_size pos 1 }))
          (update ps i Producer.idle)
          k
          claimed
          popped
  Inv-publish b e =
      let own : OwnsCell size q.cells h claimed (taken k r) pos v (some v) =
        producer_knows inv i e in
      let up : add_size pos 1 ≡ suc pos = omega (arith, own.below) in
      Inv-write pow inv i (ap in_flight e) own (record c { seq = add_size pos 1 }) Producer.idle
        (λ n f. absurd (cc f)) tt
        (inl (record {
          value = v;
          claimed_for = own.claimed_for;
          there =
              read-put_self pow q.cells inv.long pos (record c { seq = add_size pos 1 })
              ∙ ap {A = Cell A} {B = Option (Cell A)}
                  (λ d. some (record d { seq = add_size pos 1 }))
                  (read_cell pow inv pos here own.there)
              ∙ ap {B = Option (Cell A)} (λ n. some (record { seq = n; storage = some v })) up;
        }))
