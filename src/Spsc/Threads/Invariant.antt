-- ===== src/Spsc/Threads/Invariant.antt =====
-- The state of the ring between any two accesses of the two threads: true at the start and kept
-- by every step.
use sync_tools.Prelude.{
  ℕ, suc, ◌+◌, ◌%◌, ◌<◌, ◌≡◌, Option, none, List, [], ◌∷◌, ◌++◌, ◌==◌, if◌then◌else◌, length,
}
use sync_tools.Ring.{Slots, view_of}
use sync_tools.Spsc.Queue.{Queue}
use sync_tools.Spsc.Threads.{Producer, Consumer}

-- The object that the producer has constructed and not yet published.
abbrev pub staged {ℓ} : {A : Type ℓ} → Producer A → List A
staged (Producer.store_head m v h) = v ∷ []
staged _ = []

-- The consumer has destroyed the first object and not yet moved `_tail`.
abbrev pub erase {ℓ} : {A : Type ℓ} → Consumer A → (ℕ → Option A) → ℕ → Option A
erase (Consumer.store_tail m t v) f j = if 0 == j then none else f j
erase _ f j = f j

module _ {ℓ} {A : Type ℓ} where
  -- What the producer's locals say of the queue, which holds `n` elements.
  abbrev pub ProducerKnows : (size head n : ℕ) → Producer A → Type 0
  ProducerKnows size head n (Producer.load_tail m v h) = h ≡ head
  ProducerKnows size head n (Producer.construct m v h) = (h ≡ head) × (suc n < size)
  ProducerKnows size head n (Producer.store_head m v h) = (h ≡ head) × (suc n < size)
  ProducerKnows size head n _ = Unit

  -- What the consumer's locals say of the elements `c`.
  abbrev pub ConsumerKnows : (tail : ℕ) → List A → Consumer A → Type ℓ
  ConsumerKnows tail c (Consumer.load_head m t) = (t ≡ tail) × Unit
  ConsumerKnows tail c (Consumer.take_object m t) =
      (t ≡ tail) × (v : A) × (rest : List A) × (c ≡ v ∷ rest)
  ConsumerKnows tail c (Consumer.store_tail m t v) = (t ≡ tail) × (rest : List A) × (c ≡ v ∷ rest)
  ConsumerKnows tail c _ = Unit

  -- The queue holds `items`: pushed by the producer, not yet released by the consumer.
  pub record Inv (size : ℕ) (q : Queue A) (p : Producer A) (k : Consumer A)
      (pushed popped items : List A) : Type ℓ where
    pub slots : Slots size q.buffer q.tail (erase k (view_of (items ++ staged p)))
    pub tail_in : q.tail < size
    pub room : length items < size
    pub head_at : q.head ≡ (q.tail + length items) % size
    pub producer_knows : ProducerKnows size q.head (length items) p
    pub consumer_knows : ConsumerKnows q.tail items k
    pub order : popped ++ items ≡ pushed
