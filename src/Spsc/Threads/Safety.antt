-- ===== src/Spsc/Threads/Safety.antt =====
-- What holds in every state that one producer and one consumer can reach.
use sync_tools.Prelude.{
  ℕ, ◌+◌, ◌<◌, ◌≡◌, ◌≢◌, refl, sym, ◌∙◌, ap, Option, none, some, List, [], ◌++◌, arith, length,
  get_elem?, get_elem?_of_ge, append-nil, inl, inr, ◌%◌, Bool-cases, ◌==◌, Bool, true, false,
}
use sync_tools.Prelude.Words.{IsPow2}
use sync_tools.Prelude.Modular.{mod_empty}
use sync_tools.Storage.{slot}
use sync_tools.Ring.{view_of, Slots-first}
use sync_tools.Spsc.Holds.{new_queue-Holds}
use sync_tools.Spsc.Threads.{
  Producer, Consumer, Mode, System, Step, produce, consume, set_status, Reach, start, later, init,
}
use sync_tools.Spsc.Threads.Invariant.{staged, erase, ProducerKnows, ConsumerKnows, Inv}
use sync_tools.Spsc.Threads.Produce.{ProducerMove-Inv, head_in}
use sync_tools.Spsc.Threads.Consume.{ConsumerMove-Inv}

module _ {ℓ} {A : Type ℓ} where
  -- The invariant, at a system.
  abbrev pub SystemInv : ℕ → System A → List A → Type ℓ
  SystemInv size s c = Inv size s.queue s.producer s.consumer s.pushed s.popped c

module _ {ℓ} {A : Type ℓ} where
  -- An access to the storage of slot `n` that is about to be made: by the producer, which constructs,
  -- or by the consumer, which moves out and destroys.
  pub data Access (s : System A) : (is_removal : Bool) → (n : ℕ) → Type ℓ where
    constructing :
        {m : Mode} {v : A} {n : ℕ} → s.producer ≡ Producer.construct m v n → Access s false n
    taking : {m : Mode} {n : ℕ} → s.consumer ≡ Consumer.take_object m n → Access s true n

  -- What the slot must have: no object to construct in it, an object to take out.
  abbrev pub Fits : (is_removal : Bool) → Option A → Type ℓ
  Fits false x = x ≡ none
  Fits true x = (v : A) × (x ≡ some v)

erase-none {ℓ} :
    {A : Type ℓ} (k : Consumer A) (f : ℕ → Option A) (j : ℕ) → f j ≡ none → erase k f j ≡ none
erase-none (Consumer.store_tail m t v) f j e =
    rw e (elim (Bool-cases (0 == j)) [ inl z ↦ rw z | inr z ↦ rw z ])
erase-none _ f j e = e

module _ {ℓ} {A : Type ℓ} {size : ℕ} (pow : IsPow2 size) where
  init-Inv : SystemInv size (init A size) []
  unfolding init
  init-Inv =
      let h = new_queue-Holds {A = A} pow in
      record {
        slots = h.slots;
        tail_in = h.tail_in;
        room = h.room;
        head_at = h.head_at;
        producer_knows = tt;
        consumer_knows = tt;
        order = refl;
      }

  Step-Inv :
      {s t : System A} {c : List A}
      → Step size s t
      → SystemInv size s c
      → (c' : List A) × SystemInv size t c'
  Step-Inv (produce m) inv = ProducerMove-Inv pow m inv
  Step-Inv (consume m) inv = ConsumerMove-Inv pow m inv
  Step-Inv {c = c} (set_status t) inv = (
    c,
    record {
      slots = inv.slots;
      tail_in = inv.tail_in;
      room = inv.room;
      head_at = inv.head_at;
      producer_knows = inv.producer_knows;
      consumer_knows = inv.consumer_knows;
      order = inv.order;
    },
  )

  pub Reach-Inv : {s : System A} → Reach size s → (c : List A) × SystemInv size s c
  Reach-Inv start = ([], init-Inv)
  Reach-Inv (later r st) = Step-Inv st (Reach-Inv r).1

  -- In every reachable state the values popped, followed by fewer than `size` further values, are
  -- the values pushed: none is lost, none comes twice, and they come in the order of the pushes.
  pub popped_in_order :
      {s : System A}
      → Reach size s
      → (waiting : List A) × (s.popped ++ waiting ≡ s.pushed) × (length waiting < size)
  popped_in_order r = let (c, inv) = Reach-Inv r in (c, inv.order, inv.room)

  -- Where the producer is about to construct an object and the consumer is about to take one out,
  -- they access different slots.
  pub no_data_race :
      {s : System A} {m n : Mode} {v : A} {h t : ℕ}
      → Reach size s
      → s.producer ≡ Producer.construct m v h
      → s.consumer ≡ Consumer.take_object n t
      → h ≢ t
  no_data_race {s} {m} {n} {v} {h} {t} r ep ek e =
      let (c, inv) = Reach-Inv r in
      let pk : ProducerKnows size s.queue.head (length c) (Producer.construct m v h) =
        rw ep at inv.producer_knows in
      let ck : ConsumerKnows s.queue.tail c (Consumer.take_object n t) =
        rw ek at inv.consumer_knows in
      let same : s.queue.tail ≡ (s.queue.tail + length c) % size =
        sym ck.0 ∙ sym e ∙ pk.0 ∙ inv.head_at in
      let z : length c ≡ 0 = mod_empty (length c) inv.tail_in inv.room same in
      absurd (omega (arith, z, ap length ck.3))

  -- The placement `new` of a reachable state is inside the buffer, on a slot with no object.
  pub construct_is_safe :
      {s : System A} {m : Mode} {v : A} {h : ℕ}
      → Reach size s
      → s.producer ≡ Producer.construct m v h
      → (h < length s.queue.buffer) × (slot s.queue.buffer h ≡ none)
  construct_is_safe {s} {m} {v} {h} r ep =
      let (c, inv) = Reach-Inv r in
      let pk : ProducerKnows size s.queue.head (length c) (Producer.construct m v h) =
        rw ep at inv.producer_knows in
      let empty : view_of (c ++ staged s.producer) (length c) ≡ none =
        rw (ep, append-nil) (get_elem?_of_ge c (length c) (omega arith)) in
      let at : slot s.queue.buffer h
          ≡ erase s.consumer (view_of (c ++ staged s.producer)) (length c) =
        rw (pk.0, inv.head_at) (inv.slots.at (length c) inv.room) in
      (
        rw (inv.slots.long, pk.0) (head_in pow inv),
        at ∙ erase-none s.consumer (view_of (c ++ staged s.producer)) (length c) empty,
      )

  -- The object that the consumer of a reachable state is about to move out and destroy is there.
  pub take_is_safe :
      {s : System A} {m : Mode} {t : ℕ}
      → Reach size s
      → s.consumer ≡ Consumer.take_object m t
      → (t < length s.queue.buffer) × (v : A) × (slot s.queue.buffer t ≡ some v)
  take_is_safe {s} {m} {t} r ek =
      let (c, inv) = Reach-Inv r in
      let ck : ConsumerKnows s.queue.tail c (Consumer.take_object m t) =
        rw ek at inv.consumer_knows in
      let found : slot s.queue.buffer s.queue.tail ≡ some ck.1 =
        Slots-first inv.slots inv.tail_in
        ∙ ap (λ k. erase k (view_of (c ++ staged s.producer)) 0) ek
        ∙ ap (λ l. get_elem? (l ++ staged s.producer) 0) ck.3 in
      (rw (inv.slots.long, ck.0) inv.tail_in, ck.1, rw ck.0 found)

  -- Where `size` is a power of two: an access to the storage of a slot that is about to be made in a
  -- reachable state is inside the buffer; a construction is on a slot that holds no object, and a
  -- removal on one that holds an object.
  pub slot_use_is_safe :
      {s : System A} {b : Bool} {n : ℕ}
      → Reach size s
      → Access s b n
      → (n < length s.queue.buffer) × Fits b (slot s.queue.buffer n)
  slot_use_is_safe r (Access.constructing e) = construct_is_safe r e
  slot_use_is_safe r (Access.taking e) = let (l, v, f) = take_is_safe r e in (l, (v, f))
