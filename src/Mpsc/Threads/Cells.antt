-- ===== src/Mpsc/Threads/Cells.antt =====
-- Reading and writing cells by position, within the window of positions that are in use.
use sync_tools.Prelude.{
  ℕ, suc, ◌+◌, ◌-◌, ◌%◌, ◌^◌, ◌≤◌, ◌<◌, ◌≡◌, ◌≢◌, refl, sym, ◌∙◌, ap, subst, Option, none, some,
  List, arith, length, get_elem?, set, get_elem?-set, ==_iff, ==-eq_false,
}
use sync_tools.Prelude.Words.{IsPow2, IsPow2-pos, mask, mask-eq-mod}
use native.Mathlib.Nat.{mod-lt}
use sync_tools.Mpsc.Queue.{Cell, Queue, diff, sign_of, Sign, same, negative, positive}
use sync_tools.Mpsc.Holds.{diff_lem, place_injective}
use sync_tools.Mpsc.Threads.{Producer, Consumer, CellOf}
use sync_tools.Mpsc.Threads.Invariant.{
  read, in_flight, IsAt, Published, OwnsCell, ProducerKnows, ConsumerKnows,
}

pub diff_same_inv : (a b : ℕ) → a < 2 ^ 63 → b < 2 ^ 63 → diff a b ≡ some same → a ≡ b
diff_same_inv a b h k e =
    let e' : ◌≡◌ {A = Option Sign} (some (sign_of a b)) (some same) = sym (diff_lem a b h k) ∙ e in
    ground arith

pub diff_negative_inv : (a b : ℕ) → a < 2 ^ 63 → b < 2 ^ 63 → diff a b ≡ some negative → a < b
diff_negative_inv a b h k e =
    let e' : ◌≡◌ {A = Option Sign} (some (sign_of a b)) (some negative) =
      sym (diff_lem a b h k) ∙ e in
    ground arith

pub diff_positive_inv : (a b : ℕ) → a < 2 ^ 63 → b < 2 ^ 63 → diff a b ≡ some positive → b < a
diff_positive_inv a b h k e =
    let e' : ◌≡◌ {A = Option Sign} (some (sign_of a b)) (some positive) =
      sym (diff_lem a b h k) ∙ e in
    ground arith

-- Positions of one window with one cell are one position.
pub window_injective :
    (size r : ℕ) {pos pos' : ℕ}
    → r ≤ pos
    → pos < r + size
    → r ≤ pos'
    → pos' < r + size
    → pos % size ≡ pos' % size
    → pos ≡ pos'
window_injective size r {pos} {pos'} a b a' b' e =
    let from : (k : ℕ) → r ≤ k → (r + (k - r)) % size ≡ k % size =
      λ k h. ap (λ i. i % size) (omega arith) in
    let z : pos - r ≡ pos' - r =
      place_injective r (pos - r) (pos' - r) (omega arith) (omega arith)
        (from pos a ∙ e ∙ sym (from pos' a')) in
    omega arith

module _ {ℓ} {A : Type ℓ} {size : ℕ} (pow : IsPow2 size) where
  pub read_lem :
      (q : Queue A) (pos : ℕ) {c : Cell A} → CellOf size q pos c → read size q.cells pos ≡ some c
  read_lem q pos e = ap (λ i. get_elem? q.cells i) (sym (mask-eq-mod pow pos)) ∙ e

  pub read-put_self :
      (cells : List (Cell A))
      → length cells ≡ size
      → (pos : ℕ) (c : Cell A) → read size (set cells (mask size pos) c) pos ≡ some c
  read-put_self cells long pos c = rw (mask-eq-mod pow pos) (
      get_elem?-set cells (pos % size) (pos % size) c (rw long (mod-lt pos (IsPow2-pos pow)))
      ∙ rw ((==_iff (pos % size) (pos % size)).1 refl))

-- A cell that a producer owns is not the one that the consumer has seen published.
pub not_owned {ℓ} :
    {A : Type ℓ} (size r pos : ℕ) (cells : List (Cell A)) (x y : Option A)
    → IsAt size cells pos pos x
    → IsAt size cells r (suc r) y
    → pos ≢ r
not_owned {A = A} size r pos cells x y own seen e =
    let at : IsAt size cells r pos x = subst (λ n. IsAt size cells n pos x) e own in
    let z : ◌≡◌ {A = Option (Cell A)} (some (record { seq = pos; storage = x }))
        (some (record { seq = suc r; storage = y })) =
      sym at ∙ seen in
    let w : pos ≡ suc r = cc z in omega arith

-- A write at `pos`, in the window of the positions from `r` on.
module _ {ℓ} {A : Type ℓ} {size : ℕ} (pow : IsPow2 size) (cells : List (Cell A))
    (long : length cells ≡ size) (r pos : ℕ) (c : Cell A) (a : r ≤ pos) (b : pos < r + size) where
  pub read-put_other :
      (pos' : ℕ)
      → r ≤ pos'
      → pos' < r + size
      → pos ≢ pos'
      → read size (set cells (mask size pos) c) pos' ≡ read size cells pos'
  read-put_other pos' a' b' ne =
      let apart : pos % size ≢ pos' % size = λ e. ne (window_injective size r a b a' b' e) in
      rw (mask-eq-mod pow pos) (
        get_elem?-set cells (pos % size) (pos' % size) c (rw long (mod-lt pos (IsPow2-pos pow)))
        ∙ rw (==-eq_false (pos % size) (pos' % size) apart))

  pub Published-put :
      {claimed : List A} (pos' : ℕ)
      → r ≤ pos'
      → pos' < r + size
      → pos ≢ pos'
      → Published size cells claimed pos'
      → Published size (set cells (mask size pos) c) claimed pos'
  Published-put pos' a' b' ne p = record {
    value = p.value;
    claimed_for = p.claimed_for;
    there = read-put_other pos' a' b' ne ∙ p.there;
  }

  OwnsCell-put :
      {claimed : List A} {h t pos' : ℕ} {v : A} {x : Option A}
      → r ≤ t
      → h ≤ r + size
      → pos ≢ pos'
      → OwnsCell size cells h claimed t pos' v x
      → OwnsCell size (set cells (mask size pos) c) h claimed t pos' v x
  OwnsCell-put {pos' = pos'} at top ne o = record {
    from = o.from;
    below = o.below;
    claimed_for = o.claimed_for;
    there = read-put_other pos' (omega (arith, o.from)) (omega (arith, o.below)) ne ∙ o.there;
  }

  pub ProducerKnows-put :
      (claimed : List A) (h t : ℕ)
      → r ≤ t
      → h ≤ r + size
      → (p : Producer A) → in_flight p ≢ some pos
      → ProducerKnows size h r cells claimed t p
      → ProducerKnows size h r (set cells (mask size pos) c) claimed t p
  ProducerKnows-put claimed h t at top (Producer.construct m v pos') ne o =
      OwnsCell-put at top (λ e. ne (ap some (sym e))) o
  ProducerKnows-put claimed h t at top (Producer.store_seq m v pos') ne o =
      OwnsCell-put at top (λ e. ne (ap some (sym e))) o
  ProducerKnows-put claimed h t at top (Producer.claim m v pos') ne o = o
  ProducerKnows-put claimed h t at top (Producer.load_seq m v pos') ne o = o
  ProducerKnows-put claimed h t at top Producer.idle ne o = tt
  ProducerKnows-put claimed h t at top (Producer.check_relaxed v) ne o = tt
  ProducerKnows-put claimed h t at top (Producer.check_acquire v) ne o = tt
  ProducerKnows-put claimed h t at top (Producer.load_status m v) ne o = tt
  ProducerKnows-put claimed h t at top (Producer.load_head m v) ne o = tt

  pub ConsumerKnows-put :
      (claimed : List A) (h : ℕ) (x : Option A) (k : Consumer A)
      → IsAt size cells pos pos x
      → ConsumerKnows size h r cells claimed k
      → ConsumerKnows size h r (set cells (mask size pos) c) claimed k
  ConsumerKnows-put claimed h x (Consumer.store_tail m pos') own o = (
    o.0,
    o.1,
    Published-put r (omega arith) (omega arith)
        (not_owned size r pos cells x (some o.2.value) own o.2.there) o.2,
  )
  ConsumerKnows-put claimed h x (Consumer.take_object m pos') own o = (
    o.0,
    o.1,
    Published-put r (omega arith) (omega arith)
        (not_owned size r pos cells x (some o.2.value) own o.2.there) o.2,
  )
  ConsumerKnows-put claimed h x (Consumer.store_seq m pos' v) own o = (
    o.0,
    o.1,
    o.2,
    read-put_other r (omega arith) (omega arith) (not_owned size r pos cells x none own o.3) ∙ o.3,
  )
  ConsumerKnows-put claimed h x (Consumer.load_seq m pos') ne o = o
  ConsumerKnows-put claimed h x Consumer.idle ne o = tt
  ConsumerKnows-put claimed h x (Consumer.load_tail m) ne o = tt
  ConsumerKnows-put claimed h x Consumer.check_relaxed ne o = tt
  ConsumerKnows-put claimed h x Consumer.check_acquire ne o = tt
