-- ===== src/Mpsc/Threads/Invariant.antt =====
-- What holds of the shared variables while producers and the consumer run: `h` cells have been
-- claimed and `r` given back, and positions are numbers that do not wrap.
use sync_tools.Prelude.{
  ℕ, suc, ◌+◌, ◌%◌, ◌≤◌, ◌<◌, ◌≡◌, Option, none, some, List, ◌⊎◌, length, get_elem?,
}
use sync_tools.Mpsc.Queue.{Cell, Queue}
use sync_tools.Mpsc.Threads.{Producer, Consumer}

-- The cell of a position.
abbrev pub read {ℓ} : {A : Type ℓ} → ℕ → List (Cell A) → ℕ → Option (Cell A)
read size cells pos = get_elem? cells (pos % size)

-- The position whose cell a producer has claimed and not yet published.
abbrev pub in_flight {ℓ} : {A : Type ℓ} → Producer A → Option ℕ
in_flight (Producer.construct m v pos) = some pos
in_flight (Producer.store_seq m v pos) = some pos
in_flight _ = none

-- The positions whose objects the consumer has taken out.
abbrev pub taken {ℓ} : {A : Type ℓ} → Consumer A → ℕ → ℕ
taken (Consumer.store_seq m pos v) r = suc r
taken _ r = r

-- What the consumer has stored to `_tail`.
abbrev pub tail_of {ℓ} : {A : Type ℓ} → Consumer A → ℕ → ℕ
tail_of (Consumer.take_object m pos) r = suc r
tail_of (Consumer.store_seq m pos v) r = suc r
tail_of _ r = r

module _ {ℓ} {A : Type ℓ} (size : ℕ) (cells : List (Cell A)) where
  abbrev pub IsAt : (pos seq : ℕ) → Option A → Type ℓ
  IsAt pos seq x = read size cells pos ≡ some (record { seq = seq; storage = x })

  -- The cell holds the value that it was claimed for, and its number says so.
  pub record Published (claimed : List A) (pos : ℕ) : Type ℓ where
    pub value : A
    pub claimed_for : get_elem? claimed pos ≡ some value
    pub there : IsAt pos (suc pos) (some value)

  -- A producer has the cell, one of those from `t` on, to itself, with the object `x` in it.
  pub record OwnsCell (h : ℕ) (claimed : List A) (t pos : ℕ) (v : A) (x : Option A) : Type ℓ where
    pub from : t ≤ pos
    pub below : pos < h
    pub claimed_for : get_elem? claimed pos ≡ some v
    pub there : IsAt pos pos x

-- A position that is not given back yet, one that `_head` has had, and the consumer's.
pub record Free {ℓ} (A : Type ℓ) (size r pos : ℕ) : Type ℓ where
  pub below : pos < r + size

pub record Loaded {ℓ} (A : Type ℓ) (h pos : ℕ) : Type ℓ where
  pub below : pos ≤ h

pub record Next {ℓ} (A : Type ℓ) (r pos : ℕ) : Type ℓ where
  pub here : pos ≡ r

module _ {ℓ} {A : Type ℓ} (size h r : ℕ) (cells : List (Cell A)) (claimed : List A) where
  abbrev pub ProducerKnows : (t : ℕ) → Producer A → Type ℓ
  ProducerKnows t (Producer.construct m v pos) = OwnsCell size cells h claimed t pos v none
  ProducerKnows t (Producer.store_seq m v pos) = OwnsCell size cells h claimed t pos v (some v)
  ProducerKnows t (Producer.claim m v pos) = Free A size r pos
  ProducerKnows t (Producer.load_seq m v pos) = Loaded A h pos
  ProducerKnows t _ = Unit

  abbrev pub ConsumerKnows : Consumer A → Type ℓ
  ConsumerKnows (Consumer.load_seq m pos) = Next A r pos
  ConsumerKnows (Consumer.store_tail m pos) = (pos ≡ r) × (r < h) × Published size cells claimed r
  ConsumerKnows (Consumer.take_object m pos) = (pos ≡ r) × (r < h) × Published size cells claimed r
  ConsumerKnows (Consumer.store_seq m pos v) =
      (pos ≡ r) × (r < h) × (get_elem? claimed r ≡ some v) × IsAt size cells r (suc r) none
  ConsumerKnows _ = Unit

module _ {ℓ} {A : Type ℓ} where
  pub record Inv (size h r : ℕ) (q : Queue A) (ps : ℕ → Producer A) (k : Consumer A)
      (claimed popped : List A) : Type ℓ where
    pub long : length q.cells ≡ size
    pub claims : length claimed ≡ h
    pub pops : length popped ≡ r
    pub head_at : q.head ≡ h
    pub tail_at : q.tail ≡ tail_of k r
    pub behind : r ≤ h
    pub room : h ≤ r + size
    pub order : (pos : ℕ) → pos < r → get_elem? popped pos ≡ get_elem? claimed pos
    pub free : (pos : ℕ) → h ≤ pos → pos < r + size → IsAt size q.cells pos pos none
    pub filled :
        (pos : ℕ)
        → taken k r ≤ pos
        → pos < h
        → Published size q.cells claimed pos ⊎ ((i : ℕ) × (in_flight (ps i) ≡ some pos))
    pub producers_know : (i : ℕ) → ProducerKnows size h r q.cells claimed (taken k r) (ps i)
    pub distinct : (i j pos : ℕ) → in_flight (ps i) ≡ some pos → in_flight (ps j) ≡ some pos → i ≡ j
    pub consumer_knows : ConsumerKnows size h r q.cells claimed k
