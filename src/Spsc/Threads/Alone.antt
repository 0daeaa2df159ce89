-- ===== src/Spsc/Threads/Alone.antt =====
-- A call of `try_push` or `try_pop` that no other thread interrupts, in the states that one producer
-- and one consumer can reach, beside the FIFO.
use sync_tools.Prelude.{
  ℕ, ◌-◌, ◌≡◌, refl, ◌∙◌, ap, subst, Bool, true, false, some, List, [], ◌∷◌, ◌++◌, if◌then◌else◌,
  append-nil,
}
use sync_tools.Prelude.Words.{IsPow2}
use sync_tools.Fifo
use sync_tools.Fifo.{Fifo, accepts}
use sync_tools.Spsc.Queue.{Queue, try_push}
use sync_tools.Spsc.Holds.{Holds, pushed, popped}
use sync_tools.Spsc.Refine.{try_push_lem, try_pop_nil, try_pop_cons}
use sync_tools.Spsc.Threads.{Producer, Consumer, Mode, System, Reach}
use sync_tools.Ring.{Slots, view_of}
use sync_tools.Spsc.Threads.Invariant.{staged, erase}
use sync_tools.Spsc.Threads.Safety.{Reach-Inv}
use sync_tools.Spsc.Threads.Calls.{
  ProducerRun, ConsumerRun, push_end, pop_end, PushesTo, PopsTo, push_run, pop_run,
}

module _ {ℓ} {A : Type ℓ} {size : ℕ} (pow : IsPow2 size) where
  -- Between calls the ring holds the values that are pushed and not yet popped.
  pub between_calls-Holds :
      {s : System A}
      → Reach size s
      → s.producer ≡ Producer.idle
      → s.consumer ≡ Consumer.idle
      → (c : List A) × (s.popped ++ c ≡ s.pushed) × Holds size s.queue c
  between_calls-Holds {s} r ep ek =
      let (c, inv) = Reach-Inv pow r in
      let settled : erase s.consumer (view_of (c ++ staged s.producer)) ≡ view_of c =
        ap (λ k. erase k (view_of (c ++ staged s.producer))) ek
        ∙ ap (λ p. view_of (c ++ staged p)) ep
        ∙ ap view_of (append-nil c) in
      (
        c,
        inv.order,
        record {
          slots = subst (Slots size s.queue.buffer s.queue.tail) settled inv.slots;
          tail_in = inv.tail_in;
          room = inv.room;
          head_at = inv.head_at;
        },
      )

  push-as_fifo :
      {q : Queue A} {c : List A} (m : Mode) (v : A)
      → Holds size q c
      → let b = accepts (size - 1) (record { items = c; status = q.status }) in
        (q' : Queue A) × ProducerRun size q
          (Producer.load_status m v)
          q'
          (push_end m v b).0
          (push_end m v b).1
  push-as_fifo {q} {c} m v h =
      let fifo : Fifo A = record { items = c; status = q.status } in
      let call : try_push size q v
          ≡ some (if accepts (size - 1) fifo then (true, pushed size q v) else (false, q)) =
        try_push_lem pow {q = q} {f = fifo} (record { holds = h; same_status = refl }) v in
      ends (accepts (size - 1) fifo) call
    where
      ends :
          (b : Bool)
          → try_push size q v ≡ some (if b then (true, pushed size q v) else (false, q))
          → (q' : Queue A) × ProducerRun size q
              (Producer.load_status m v)
              q'
              (push_end m v b).0
              (push_end m v b).1
      ends true e = (pushed size q v, subst (PushesTo size m q v) e (push_run size m q v))
      ends false e = (q, subst (PushesTo size m q v) e (push_run size m q v))

  pop-as_fifo :
      {q : Queue A} (c : List A) (m : Mode)
      → Holds size q c
      → let x = (Fifo.pop c).0 in
        (q' : Queue A) × ConsumerRun size q
          (Consumer.load_tail m)
          q'
          (pop_end m x).0
          (pop_end m x).1
  unfolding Fifo.pop
  pop-as_fifo {q} [] m h = (q, subst (PopsTo size m q) (try_pop_nil pow h) (pop_run size m q))
  pop-as_fifo {q} (x ∷ c) m h =
      (popped size q, subst (PopsTo size m q) (try_pop_cons pow x c h) (pop_run size m q))

  -- Where `size` is a power of two, in every reachable state in which both threads are between calls:
  -- the values pushed are the values popped followed by some values `c`. The accesses of a `try_push`,
  -- one after the other with none of the consumer's between, lead from its start to its success,
  -- with the value pushed, if a FIFO of at most `size - 1` elements accepts a value while it has the
  -- elements `c` and the status of the queue, and to its failure, with nothing pushed, if it does
  -- not. The accesses of a `try_pop`, with none of the producer's between, lead from its start to its
  -- success, with the first of `c` popped, and to its failure, with nothing popped, if `c` is empty.
  pub calls_answer_as_fifo :
      {s : System A} (m : Mode) (v : A)
      → Reach size s
      → s.producer ≡ Producer.idle
      → s.consumer ≡ Consumer.idle
      → (c : List A) × (s.popped ++ c ≡ s.pushed)
        × (let b = accepts (size - 1) (record { items = c; status = s.queue.status }) in
            (q : Queue A) × ProducerRun size s.queue
              (Producer.load_status m v)
              q
              (push_end m v b).0
              (push_end m v b).1)
        × (let x = (Fifo.pop c).0 in
            (q : Queue A) × ConsumerRun size s.queue
              (Consumer.load_tail m)
              q
              (pop_end m x).0
              (pop_end m x).1)
  calls_answer_as_fifo m v r ep ek =
      let (c, order, h) = between_calls-Holds r ep ek in
      (c, order, push-as_fifo m v h, pop-as_fifo c m h)
