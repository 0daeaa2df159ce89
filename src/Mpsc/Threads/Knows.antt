-- ===== src/Mpsc/Threads/Knows.antt =====
-- What the threads know of the queue, as cells are claimed, taken and given back.
use sync_tools.Prelude.{
  ℕ, suc, ◌<◌, ◌≡◌, ◌≢◌, sym, ◌∙◌, ap, Option, none, some, some-injective, List, [], ◌∷◌, ◌++◌,
  subst, arith, get_elem?, get_elem?-append_left, length,
}
use sync_tools.Mpsc.Queue.{Cell}
use sync_tools.Mpsc.Threads.{Producer, Consumer}
use sync_tools.Mpsc.Threads.Invariant.{in_flight, Published, OwnsCell, ProducerKnows, ConsumerKnows}

module _ {ℓ} {A : Type ℓ} (size h r t : ℕ) (cells : List (Cell A)) (claimed : List A) where
  -- A producer with a cell in flight owns it.
  pub flight_owns :
      (p : Producer A) {pos : ℕ}
      → ProducerKnows size h r cells claimed t p
      → in_flight p ≡ some pos
      → (v : A) × (x : Option A) × OwnsCell size cells h claimed t pos v x
  flight_owns (Producer.construct m v pos) o e =
      (v, none, subst (λ k. OwnsCell size cells h claimed t k v none) (some-injective _ _ e) o)
  flight_owns (Producer.store_seq m v pos) o e = (
    v,
    some v,
    subst (λ k. OwnsCell size cells h claimed t k v (some v)) (some-injective _ _ e) o,
  )
  flight_owns (Producer.claim m v pos) o e = absurd (cc e)
  flight_owns (Producer.load_seq m v pos) o e = absurd (cc e)
  flight_owns Producer.idle o e = absurd (cc e)
  flight_owns (Producer.check_relaxed v) o e = absurd (cc e)
  flight_owns (Producer.check_acquire v) o e = absurd (cc e)
  flight_owns (Producer.load_status m v) o e = absurd (cc e)
  flight_owns (Producer.load_head m v) o e = absurd (cc e)

  module _ (w : A) (claims : length claimed ≡ h) where
    claimed_before :
        {pos : ℕ} → pos < h → get_elem? (claimed ++ (w ∷ [])) pos ≡ get_elem? claimed pos
    claimed_before {pos} l = get_elem?-append_left claimed (w ∷ []) pos (omega arith)

    OwnsCell-claimed :
        {pos : ℕ} {v : A} {x : Option A}
        → OwnsCell size cells h claimed t pos v x
        → OwnsCell size cells (suc h) (claimed ++ (w ∷ [])) t pos v x
    OwnsCell-claimed o = record {
      from = o.from;
      below = omega (arith, o.below);
      claimed_for = claimed_before o.below ∙ o.claimed_for;
      there = o.there;
    }

    pub Published-claimed :
        {pos : ℕ}
        → pos < h
        → Published size cells claimed pos
        → Published size cells (claimed ++ (w ∷ [])) pos
    Published-claimed l o = record {
      value = o.value;
      claimed_for = claimed_before l ∙ o.claimed_for;
      there = o.there;
    }

    -- Another cell has been claimed.
    pub ProducerKnows-claimed :
        (p : Producer A)
        → ProducerKnows size h r cells claimed t p
        → ProducerKnows size (suc h) r cells (claimed ++ (w ∷ [])) t p
    ProducerKnows-claimed (Producer.construct m v pos) o = OwnsCell-claimed o
    ProducerKnows-claimed (Producer.store_seq m v pos) o = OwnsCell-claimed o
    ProducerKnows-claimed (Producer.claim m v pos) o = o
    ProducerKnows-claimed (Producer.load_seq m v pos) o = record { below = omega (arith, o.below) }
    ProducerKnows-claimed Producer.idle o = tt
    ProducerKnows-claimed (Producer.check_relaxed v) o = tt
    ProducerKnows-claimed (Producer.check_acquire v) o = tt
    ProducerKnows-claimed (Producer.load_status m v) o = tt
    ProducerKnows-claimed (Producer.load_head m v) o = tt

    pub ConsumerKnows-claimed :
        (k : Consumer A)
        → ConsumerKnows size h r cells claimed k
        → ConsumerKnows size (suc h) r cells (claimed ++ (w ∷ [])) k
    ConsumerKnows-claimed (Consumer.store_tail m pos) o =
        (o.0, omega (arith, o.1), Published-claimed o.1 o.2)
    ConsumerKnows-claimed (Consumer.take_object m pos) o =
        (o.0, omega (arith, o.1), Published-claimed o.1 o.2)
    ConsumerKnows-claimed (Consumer.store_seq m pos v) o =
        (o.0, omega (arith, o.1), claimed_before o.1 ∙ o.2, o.3)
    ConsumerKnows-claimed (Consumer.load_seq m pos) o = o
    ConsumerKnows-claimed Consumer.idle o = tt
    ConsumerKnows-claimed (Consumer.load_tail m) o = tt
    ConsumerKnows-claimed Consumer.check_relaxed o = tt
    ConsumerKnows-claimed Consumer.check_acquire o = tt

  OwnsCell-taken :
      {pos : ℕ} {v : A} {x : Option A}
      → t ≢ pos
      → OwnsCell size cells h claimed t pos v x
      → OwnsCell size cells h claimed (suc t) pos v x
  OwnsCell-taken ne o = record {
    from = omega (arith, o.from);
    below = o.below;
    claimed_for = o.claimed_for;
    there = o.there;
  }

  -- The consumer takes the object at `t`, which is in no producer's cell.
  pub ProducerKnows-taken :
      (p : Producer A)
      → in_flight p ≢ some t
      → ProducerKnows size h r cells claimed t p
      → ProducerKnows size h r cells claimed (suc t) p
  ProducerKnows-taken (Producer.construct m v pos) ne o =
      OwnsCell-taken (λ e. ne (ap some (sym e))) o
  ProducerKnows-taken (Producer.store_seq m v pos) ne o =
      OwnsCell-taken (λ e. ne (ap some (sym e))) o
  ProducerKnows-taken (Producer.claim m v pos) ne o = o
  ProducerKnows-taken (Producer.load_seq m v pos) ne o = o
  ProducerKnows-taken Producer.idle ne o = tt
  ProducerKnows-taken (Producer.check_relaxed v) ne o = tt
  ProducerKnows-taken (Producer.check_acquire v) ne o = tt
  ProducerKnows-taken (Producer.load_status m v) ne o = tt
  ProducerKnows-taken (Producer.load_head m v) ne o = tt

  -- The consumer gives a cell back.
  pub ProducerKnows-released :
      (p : Producer A)
      → ProducerKnows size h r cells claimed t p
      → ProducerKnows size h (suc r) cells claimed t p
  ProducerKnows-released (Producer.construct m v pos) o = o
  ProducerKnows-released (Producer.store_seq m v pos) o = o
  ProducerKnows-released (Producer.claim m v pos) o = record { below = omega (arith, o.below) }
  ProducerKnows-released (Producer.load_seq m v pos) o = o
  ProducerKnows-released Producer.idle o = tt
  ProducerKnows-released (Producer.check_relaxed v) o = tt
  ProducerKnows-released (Producer.check_acquire v) o = tt
  ProducerKnows-released (Producer.load_status m v) o = tt
  ProducerKnows-released (Producer.load_head m v) o = tt
