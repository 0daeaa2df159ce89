-- ===== src/Mpsc/Threads/Facts.antt =====
-- What a thread can read: the number of every cell, and what an answer of `diff` means.
use sync_tools.Prelude.{
  ℕ, suc, ◌+◌, ◌%◌, ◌^◌, ◌≤◌, ◌<◌, ◌≡◌, refl, sym, ◌∙◌, ap, subst, Option, none, some,
  some-injective, List, inl, inr, arith, get_elem?, dec_lt, ℕ_discrete,
}
use sync_tools.Prelude.Words.{IsPow2, IsPow2-pos, add_size}
use sync_tools.Prelude.Modular.{mod_reach}
use sync_tools.Mpsc.Queue.{Cell, Queue, diff, same, negative}
use sync_tools.Mpsc.Threads.{Producer, Consumer, CellOf}
use sync_tools.Mpsc.Threads.Invariant.{taken, in_flight, IsAt, Published, ConsumerKnows, Inv}
use sync_tools.Mpsc.Threads.Cells.{read_lem, diff_same_inv, diff_negative_inv, window_injective}
use sync_tools.Mpsc.Threads.Knows.{flight_owns}

pub taken_range {ℓ} : {A : Type ℓ} (k : Consumer A) (r : ℕ) → (r ≤ taken k r) × (taken k r ≤ suc r)
taken_range (Consumer.store_seq m pos v) r = omega arith
taken_range (Consumer.store_tail m pos) r = omega arith
taken_range (Consumer.take_object m pos) r = omega arith
taken_range (Consumer.load_seq m pos) r = omega arith
taken_range (Consumer.load_tail m) r = omega arith
taken_range Consumer.idle r = omega arith
taken_range Consumer.check_relaxed r = omega arith
taken_range Consumer.check_acquire r = omega arith

module _ {ℓ} {A : Type ℓ} (size h r : ℕ) (cells : List (Cell A)) (claimed : List A) where
  pub taken-le : (k : Consumer A) → ConsumerKnows size h r cells claimed k → r ≤ h → taken k r ≤ h
  taken-le (Consumer.store_seq m pos v) o l = omega (arith, o.1)
  taken-le (Consumer.store_tail m pos) o l = l
  taken-le (Consumer.take_object m pos) o l = l
  taken-le (Consumer.load_seq m pos) o l = l
  taken-le (Consumer.load_tail m) o l = l
  taken-le Consumer.idle o l = l
  taken-le Consumer.check_relaxed o l = l
  taken-le Consumer.check_acquire o l = l

  taken_cell :
      (k : Consumer A)
      → ConsumerKnows size h r cells claimed k
      → r < taken k r
      → IsAt size cells r (suc r) none
  taken_cell (Consumer.store_seq m pos v) o l = o.3
  taken_cell (Consumer.store_tail m pos) o l = absurd (omega arith)
  taken_cell (Consumer.take_object m pos) o l = absurd (omega arith)
  taken_cell (Consumer.load_seq m pos) o l = absurd (omega arith)
  taken_cell (Consumer.load_tail m) o l = absurd (omega arith)
  taken_cell Consumer.idle o l = absurd (omega arith)
  taken_cell Consumer.check_relaxed o l = absurd (omega arith)
  taken_cell Consumer.check_acquire o l = absurd (omega arith)

-- The cell of position `p` has the number `p` or the one after it.
pub record Numbered {ℓ} {A : Type ℓ} (size r : ℕ) (cells : List (Cell A)) (p : ℕ) : Type ℓ where
  pub from : r ≤ p
  pub below : p < r + size
  pub seq : ℕ
  pub storage : Option A
  pub there : IsAt size cells p seq storage
  pub least : p ≤ seq
  pub most : seq ≤ suc p

module _ {ℓ} {A : Type ℓ} {size h r : ℕ} (pow : IsPow2 size) {q : Queue A} {ps : ℕ → Producer A}
    {k : Consumer A} {claimed popped : List A} (inv : Inv size h r q ps k claimed popped) where
  pub window_cell : (p : ℕ) → r ≤ p → p < r + size → Numbered size r q.cells p
  window_cell p a b = elim (dec_lt p h) [
    | no l ↦ record {
      from = a;
      below = b;
      seq = p;
      storage = none;
      there = inv.free p (omega arith) b;
      least = omega arith;
      most = omega arith;
    }
    | yes l ↦ elim (dec_lt p (taken k r)) [
      | yes g ↦
          let e : r ≡ p = omega (arith, taken_range k r) in
          let out : IsAt size q.cells r (suc r) none =
            taken_cell size h r q.cells claimed k inv.consumer_knows (omega arith) in
          record {
            from = a;
            below = b;
            seq = suc p;
            storage = none;
            there = subst (λ n. IsAt size q.cells n (suc n) none) e out;
            least = omega arith;
            most = omega arith;
          }
      | no g ↦ elim (inv.filled p (omega arith) l) [
        | inl o ↦ record {
          from = a;
          below = b;
          seq = suc p;
          storage = some o.value;
          there = o.there;
          least = omega arith;
          most = omega arith;
        }
        | inr f ↦
            let (v, x, o) =
              flight_owns size h r (taken k r) q.cells claimed (ps f.0) (inv.producers_know f.0)
                f.1 in
            record {
              from = a;
              below = b;
              seq = p;
              storage = x;
              there = o.there;
              least = omega arith;
              most = omega arith;
            }
      ]
    ]
  ]

  -- Every position has the cell of one in use.
  pub cell_known : (pos : ℕ) → (p : ℕ) × (p % size ≡ pos % size) × Numbered size r q.cells p
  cell_known pos =
      let (j, l, e) = mod_reach {n = size} r pos (IsPow2-pos pow) in
      (r + j, e, window_cell (r + j) (omega arith) (omega arith))

  -- What a thread reads is that cell.
  pub read_cell :
      (pos : ℕ) {n : ℕ} {x : Option A} {c : Cell A}
      → CellOf size q pos c
      → IsAt size q.cells pos n x
      → c ≡ record { seq = n; storage = x }
  read_cell pos {n} {x} {c} e there =
      let z : ◌≡◌ {A = Option (Cell A)} (some c) (some (record { seq = n; storage = x })) =
        sym (read_lem pow q pos e) ∙ there in
      some-injective _ _ z

  pub read_seq :
      (pos : ℕ) {n : ℕ} {x : Option A} {c : Cell A}
      → CellOf size q pos c
      → IsAt size q.cells pos n x
      → c.seq ≡ n
  read_seq pos e there = ap (λ c. c.seq) (read_cell pos e there)

  pub cell_seq :
      (pos p : ℕ) {c : Cell A}
      → CellOf size q pos c
      → p % size ≡ pos % size
      → (n : Numbered size r q.cells p) → c.seq ≡ n.seq
  cell_seq pos p {c} e place n =
      read_seq pos e (ap (λ i. get_elem? q.cells i) (sym place) ∙ n.there)

  module _ (two : 2 ≤ size) (b : h + size < 2 ^ 63) where
    -- A number that is a position that `_head` has had is of the cell in use for that position.
    pub same_window :
        {pos : ℕ} {c : Cell A}
        → pos ≤ h
        → CellOf size q pos c
        → diff c.seq pos ≡ some same
        → (r ≤ pos) × (pos < r + size) × (c.seq ≡ pos)
    same_window {pos} {c} l e d =
        let (p, place, n) = cell_known pos in
        let s : c.seq ≡ n.seq = cell_seq pos p e place n in
        let z : c.seq ≡ pos =
          diff_same_inv c.seq pos (omega (arith, s, n.most, n.below, inv.behind)) (omega arith) d in
        elim (ℕ_discrete p pos) [
          | yes q ↦ (omega (arith, n.from), omega (arith, n.below), z)
          | no ne ↦
              let gap : pos ≡ suc p = omega (arith, s, z, n.least, n.most) in
              absurd (
                omega (
                  arith,
                  window_injective size p {pos = p} {pos' = pos} (omega arith) (omega arith)
                      (omega arith) (omega arith) place,
                ))
        ]

    pub same_free :
        {pos : ℕ} {c : Cell A}
        → pos ≤ h
        → CellOf size q pos c
        → diff c.seq pos ≡ some same
        → pos < r + size
    same_free l e d = (same_window l e d).1

    -- Such a cell is free, or a producer has claimed it and not yet published.
    pub same_claimed :
        {pos : ℕ} {c : Cell A}
        → pos < h
        → CellOf size q pos c
        → diff c.seq pos ≡ some same
        → (i : ℕ) × (in_flight (ps i) ≡ some pos)
    same_claimed {pos} {c} l e d =
        let (from, below, z) = same_window (omega arith) e d in
        elim (dec_lt pos (taken k r)) [
          | yes g ↦
              let at : r ≡ pos = omega (arith, taken_range k r) in
              let out : IsAt size q.cells r (suc r) none =
                taken_cell size h r q.cells claimed k inv.consumer_knows (omega arith) in
              let n : c.seq ≡ suc r =
                read_seq pos e (subst (λ n. IsAt size q.cells n (suc r) none) at out) in
              absurd (omega arith)
          | no g ↦ elim (inv.filled pos (omega arith) l) [
            | inl o ↦ absurd (omega (arith, read_seq pos e o.there))
            | inr f ↦ f
          ]
        ]

    -- A cell that is behind a position that `_head` has had shows that all cells are in use.
    pub negative_full :
        {pos : ℕ} {c : Cell A}
        → pos ≤ h
        → CellOf size q pos c
        → diff c.seq pos ≡ some negative
        → h ≡ r + size
    negative_full {pos} {c} l e d =
        let (p, place, n) = cell_known pos in
        let s : c.seq ≡ n.seq = cell_seq pos p e place n in
        let z : c.seq < pos =
          diff_negative_inv c.seq pos (omega (arith, s, n.most, n.below, inv.behind)) (omega arith)
            d in
        elim (dec_lt pos (r + size)) [
          | no g ↦ omega (arith, inv.room)
          | yes g ↦
              let same_place : p ≡ pos =
                window_injective size r n.from n.below (omega (arith, n.from, s, n.least)) g
                  place in
              absurd (omega (arith, s, n.least))
        ]

    -- The consumer sees an object where the oldest cell is published.
    pub same-Published :
        {c : Cell A}
        → taken k r ≡ r
        → CellOf size q r c
        → diff c.seq (add_size r 1) ≡ some same
        → (r < h) × Published size q.cells claimed r
    same-Published {c} t e d =
        let up : add_size r 1 ≡ r + 1 = omega (arith, inv.behind) in
        let n : Numbered size r q.cells r =
          window_cell r (omega arith) (omega (arith, IsPow2-pos pow)) in
        let s : c.seq ≡ n.seq = cell_seq r r e refl n in
        let z : c.seq ≡ r + 1 =
          diff_same_inv c.seq (r + 1) (omega (arith, s, n.most, inv.behind))
            (omega (arith, inv.behind)) (rw up at d) in
        elim (dec_lt r h) [
          | no l ↦ absurd (
              omega
                (arith, z, read_seq r e (inv.free r (omega arith) (omega (arith, IsPow2-pos pow)))))
          | yes l ↦ elim (inv.filled r (omega arith) l) [
            | inl o ↦ (l, o)
            | inr f ↦
                let (v, x, o) =
                  flight_owns size h r (taken k r) q.cells claimed (ps f.0) (inv.producers_know f.0)
                    f.1 in
                absurd (omega (arith, z, read_seq r e o.there))
          ]
        ]
