-- ===== src/Spsc/Threads/Produce.antt =====
-- Each access by the producer keeps the invariant.
use sync_tools.Prelude.{
  ℕ, zero, suc, ◌+◌, ◌%◌, ◌<◌, ◌≡◌, ◌≢◌, refl, sym, ◌∙◌, ap, Option, some, List, [], ◌∷◌, ◌++◌,
  ◌==◌, if◌then◌else◌, arith, length, set, length-snoc, append-nil, append_assoc, get_elem?-snoc,
  dec_lt, suc-==-zero, ==_comm,
}
use native.Mathlib.Nat.{mod-lt, mod-add-mod}
use sync_tools.Prelude.Words.{IsPow2, IsPow2-pos}
use sync_tools.Prelude.Modular.{mod_full_of_eq}
use sync_tools.Storage.{construct_at, construct_at-ok}
use sync_tools.Ring.{Slots-ext, Slots-set, view_of}
use sync_tools.Spsc.Queue.{Queue, next_index}
use sync_tools.Spsc.Holds.{next_index_lem}
use sync_tools.Spsc.Threads.{
  Producer, Consumer, Mode, non_blocking, blocking, ProducerMove, call, sees_running, sees_stopped,
  loads_head, sees_full, sees_room, constructs, publishes, first_stopped, first_running,
  second_stopped, second_running, push_failed,
}
use sync_tools.Spsc.Threads.Invariant.{staged, erase, ProducerKnows, ConsumerKnows, Inv}

module _ {ℓ} {A : Type ℓ} {size : ℕ} (pow : IsPow2 size) where
  module _ {q : Queue A} {p : Producer A} {k : Consumer A} {pushed popped c : List A}
      (inv : Inv size q p k pushed popped c) where
    pub head_in : q.head < size
    head_in = rw inv.head_at (mod-lt (q.tail + length c) (IsPow2-pos pow))

    -- The producer moves on and changes nothing that others see.
    Inv-local :
        (p' : Producer A)
        → staged p' ≡ staged p
        → ProducerKnows size q.head (length c) p'
        → Inv size q p' k (pushed ++ []) popped c
    Inv-local p' e knows = record {
      slots = rw e inv.slots;
      tail_in = inv.tail_in;
      room = inv.room;
      head_at = inv.head_at;
      producer_knows = knows;
      consumer_knows = inv.consumer_knows;
      order = inv.order ∙ sym (append-nil pushed);
    }

    -- A successful test for room means that two slots at least hold no object.
    room_of_test : {h : ℕ} → h ≡ q.head → next_index size h ≢ q.tail → suc (length c) < size
    room_of_test {h} e ne = elim (dec_lt (suc (length c)) size) [
      | yes l ↦ l
      | no l ↦ absurd (
          ne (
            ap (next_index size) e
            ∙ next_index_lem pow q.head head_in
            ∙ ap (λ i. (i + 1) % size) inv.head_at
            ∙ mod_full_of_eq (length c) inv.tail_in (omega (arith, inv.room))))
    ]

  -- The placement `new` puts the object behind the elements.
  erase-set :
      (k : Consumer A) (c : List A) (v : A) (t : ℕ)
      → ConsumerKnows t c k
      → (j : ℕ)
      → (if length c == j then some v else erase k (view_of (c ++ [])) j)
        ≡ erase k (view_of (c ++ (v ∷ []))) j
  erase-set (Consumer.store_tail m t' w) c v t knows zero =
      rw (knows.2, suc-==-zero (length knows.1))
  erase-set (Consumer.store_tail m t' w) c v t knows (suc j) =
      rw (append-nil, ==_comm 0 (suc j), suc-==-zero j) (sym (get_elem?-snoc c v (suc j)))
  erase-set _ c v t knows j = rw append-nil (sym (get_elem?-snoc c v j))

  Inv-construct :
      {q : Queue A} {k : Consumer A} {pushed popped c : List A} {m : Mode} {v : A} {h : ℕ}
      {b : List (Option A)}
      → construct_at q.buffer h v ≡ some b
      → Inv size q (Producer.construct m v h) k pushed popped c
      → Inv size (record q { buffer = b }) (Producer.store_head m v h) k (pushed ++ []) popped c
  Inv-construct {q} {k} {pushed} {c = c} {v = v} {h = h} {b = b} e inv = record {
    slots = rw (sym written) (
        Slots-ext (Slots-set (length c) (some v) inv.slots inv.tail_in inv.room)
          (λ j l. erase-set k c v q.tail inv.consumer_knows j));
    tail_in = inv.tail_in;
    room = inv.room;
    head_at = inv.head_at;
    producer_knows = inv.producer_knows;
    consumer_knows = inv.consumer_knows;
    order = inv.order ∙ sym (append-nil pushed);
  }
    where
      at_head : h ≡ (q.tail + length c) % size
      at_head = inv.producer_knows.0 ∙ inv.head_at

      written : set q.buffer ((q.tail + length c) % size) (some v) ≡ b
      written = cc (
        construct_at-ok q.buffer h v (rw inv.slots.long (rw inv.producer_knows.0 (head_in inv))),
        ap (λ i. set q.buffer i (some v)) at_head,
      )

  -- The elements may only grow at the end.
  knows-snoc :
      (k : Consumer A) (t : ℕ) (c : List A) (v : A)
      → ConsumerKnows t c k
      → ConsumerKnows t (c ++ (v ∷ [])) k
  knows-snoc (Consumer.take_object m t') t c v h =
      (h.0, h.1, h.2 ++ (v ∷ []), ap (λ l. l ++ (v ∷ [])) h.3)
  knows-snoc (Consumer.store_tail m t' w) t c v h =
      (h.0, h.1 ++ (v ∷ []), ap (λ l. l ++ (v ∷ [])) h.2)
  knows-snoc (Consumer.load_head m t') t c v h = h
  knows-snoc Consumer.idle t c v h = h
  knows-snoc (Consumer.load_tail m) t c v h = h
  knows-snoc Consumer.check_relaxed t c v h = h
  knows-snoc Consumer.check_acquire t c v h = h

  Inv-publish :
      {q : Queue A} {k : Consumer A} {pushed popped c : List A} {m : Mode} {v : A} {h : ℕ}
      → Inv size q (Producer.store_head m v h) k pushed popped c
      → Inv size
          (record q { head = next_index size h })
          Producer.idle
          k
          (pushed ++ (v ∷ []))
          popped
          (c ++ (v ∷ []))
  Inv-publish {q} {k} {pushed} {popped} {c} {m} {v} {h} inv = record {
    slots = rw append-nil inv.slots;
    tail_in = inv.tail_in;
    room = omega (arith, length-snoc c v, inv.producer_knows.1);
    head_at =
        ap (next_index size) inv.producer_knows.0
        ∙ next_index_lem pow q.head (head_in inv)
        ∙ ap (λ i. (i + 1) % size) inv.head_at
        ∙ mod-add-mod (q.tail + length c) size 1
        ∙ ap (λ i. i % size) (omega (arith, length-snoc c v));
    producer_knows = tt;
    consumer_knows = knows-snoc k q.tail c v inv.consumer_knows;
    order = sym (append_assoc popped c (v ∷ [])) ∙ ap (λ l. l ++ (v ∷ [])) inv.order;
  }

  failed-staged : (m : Mode) (v : A) → staged (push_failed m v) ≡ []
  failed-staged non_blocking v = refl
  failed-staged blocking v = refl

  failed-knows : (m : Mode) (v : A) (h n : ℕ) → ProducerKnows size h n (push_failed m v)
  failed-knows non_blocking v h n = tt
  failed-knows blocking v h n = tt

  -- Each access by the producer keeps the invariant, for some elements.
  pub ProducerMove-Inv :
      {q q' : Queue A} {p p' : Producer A} {k : Consumer A} {out pushed popped c : List A}
      → ProducerMove size q p q' p' out
      → Inv size q p k pushed popped c
      → (c' : List A) × Inv size q' p' k (pushed ++ out) popped c'
  ProducerMove-Inv {c} (call m v) inv = (c, Inv-local inv (Producer.load_status m v) refl tt)
  ProducerMove-Inv {c} (sees_running e) inv = (c, Inv-local inv _ refl tt)
  ProducerMove-Inv {q} {c = c} (sees_stopped {m = m} {v = v} e) inv =
      (c, Inv-local inv (push_failed m v) (failed-staged m v) (failed-knows m v q.head (length c)))
  ProducerMove-Inv {c} loads_head inv = (c, Inv-local inv _ refl refl)
  ProducerMove-Inv {q} {c = c} (sees_full {m = m} {v = v} e) inv =
      (c, Inv-local inv (push_failed m v) (failed-staged m v) (failed-knows m v q.head (length c)))
  ProducerMove-Inv {c} (sees_room ne) inv =
      (c, Inv-local inv _ refl (inv.producer_knows, room_of_test inv inv.producer_knows ne))
  ProducerMove-Inv {c} (constructs e) inv = (c, Inv-construct e inv)
  ProducerMove-Inv {c} (publishes {v = v}) inv = (c ++ (v ∷ []), Inv-publish inv)
  ProducerMove-Inv {c} (first_stopped e) inv = (c, Inv-local inv _ refl tt)
  ProducerMove-Inv {c} (first_running e) inv = (c, Inv-local inv _ refl tt)
  ProducerMove-Inv {c} (second_stopped e) inv = (c, Inv-local inv _ refl tt)
  ProducerMove-Inv {c} (second_running e) inv = (c, Inv-local inv _ refl tt)
