-- ===== src/Mpsc/Threads/PopProgress.antt =====
-- The accesses that a call of `try_pop` can make and has still to make.
use sync_tools.Prelude.{
  ℕ, suc, get_elem?, ◌∙◌, ◌%◌, ◌+◌, ◌^◌, ◌≤◌, ◌<◌, ◌≡◌, refl, ap, Bool, true, false, some, List,
  arith, length,
}
use sync_tools.Prelude.Words.{IsPow2, IsPow2-pos, add_size, mask-eq-mod}
use sync_tools.Spsc.Threads.{non_blocking, blocking}
use sync_tools.Mpsc.Queue.{Queue, diff, same, negative, positive}
use sync_tools.Mpsc.Threads.{Producer, Consumer, CellOf, ConsumerMove, System, Reach}
use sync_tools.Mpsc.Threads.Invariant.{ConsumerKnows, Inv}
use sync_tools.Mpsc.Threads.Answers.{reads}
use sync_tools.Mpsc.Threads.Reachable.{Reach-Inv}

-- The shared accesses that a call of `try_pop` has still to make, at most.
abbrev pub pop_accesses {ℓ} : {A : Type ℓ} → Consumer A → ℕ
pop_accesses Consumer.idle = 0
pop_accesses (Consumer.load_tail m) = 5
pop_accesses (Consumer.load_seq m pos) = 4
pop_accesses (Consumer.store_tail m pos) = 3
pop_accesses (Consumer.take_object m pos) = 2
pop_accesses (Consumer.store_seq m pos v) = 1
pop_accesses Consumer.check_relaxed = 7
pop_accesses Consumer.check_acquire = 6

-- Within a call of `try_pop` by the client, not in a blocking loop.
abbrev pub in_try_pop {ℓ} : {A : Type ℓ} → Consumer A → Bool
in_try_pop (Consumer.load_tail non_blocking) = true
in_try_pop (Consumer.load_seq non_blocking pos) = true
in_try_pop (Consumer.store_tail non_blocking pos) = true
in_try_pop (Consumer.take_object non_blocking pos) = true
in_try_pop (Consumer.store_seq non_blocking pos v) = true
in_try_pop _ = false

module _ {ℓ} {A : Type ℓ} (size : ℕ) where
  -- The consumer can make an access.
  abbrev pub ConsumerCanMove : Queue A → Consumer A → Type ℓ
  ConsumerCanMove q k =
      (q' : Queue A) × (k' : Consumer A) × (out : List A) × ConsumerMove size q k q' k' out

module _ {ℓ} {A : Type ℓ} {size h r : ℕ} (pow : IsPow2 size) {q : Queue A} {ps : ℕ → Producer A}
    {k : Consumer A} {claimed popped : List A} (inv : Inv size h r q ps k claimed popped)
    (b : h + size < 2 ^ 63) where
  consumer_moves :
      (k' : Consumer A)
      → in_try_pop k' ≡ true
      → ConsumerKnows size h r q.cells claimed k'
      → ConsumerCanMove size q k'
  consumer_moves (Consumer.load_tail m) t knows = (_, _, _, ConsumerMove.loads_tail)
  consumer_moves (Consumer.load_seq m pos) t knows =
      let (c, here, sign, d) =
        reads pow inv b pos (add_size pos 1)
          (omega (arith, knows.here, inv.behind, IsPow2-pos pow)) in
      elim sign
          as (λ sign.
            diff c.seq (add_size pos 1) ≡ some sign
            → ConsumerCanMove size q (Consumer.load_seq m pos)) [
              | same ↦ λ e. (_, _, _, ConsumerMove.sees_object here e)
              | negative ↦ λ e. (_, _, _, ConsumerMove.sees_none here e (λ z. cc z))
              | positive ↦ λ e. (_, _, _, ConsumerMove.sees_none here e (λ z. cc z))
            ]
        d
  consumer_moves (Consumer.store_tail m pos) t knows = (_, _, _, ConsumerMove.stores_tail)
  consumer_moves (Consumer.take_object m pos) t (at, below, there) =
      let here : CellOf size q pos (record { seq = suc r; storage = some there.value }) =
        ap (λ j. get_elem? q.cells j) (mask-eq-mod pow pos ∙ ap (λ j. j % size) at) ∙ there.there in
      (_, _, _, ConsumerMove.takes here refl)
  consumer_moves (Consumer.store_seq m pos v) t knows =
      let (c, here, sign, d) = reads pow inv b pos 0 (omega arith) in
      (_, _, _, ConsumerMove.releases here)
  consumer_moves Consumer.idle t knows = absurd (cc t)
  consumer_moves Consumer.check_relaxed t knows = absurd (cc t)
  consumer_moves Consumer.check_acquire t knows = absurd (cc t)

module _ {ℓ} {A : Type ℓ} {size : ℕ} where
  pop_nearer :
      {q q' : Queue A} {k k' : Consumer A} {out : List A}
      → ConsumerMove size q k q' k' out
      → in_try_pop k ≡ true
      → pop_accesses k' < pop_accesses k
  pop_nearer (ConsumerMove.call m) t = cc
  pop_nearer ConsumerMove.loads_tail t = omega arith
  pop_nearer (ConsumerMove.sees_none {m = non_blocking} e d ne) t = omega arith
  pop_nearer (ConsumerMove.sees_none {m = blocking} e d ne) t = cc
  pop_nearer (ConsumerMove.sees_object e d) t = omega arith
  pop_nearer ConsumerMove.stores_tail t = omega arith
  pop_nearer (ConsumerMove.takes e f) t = omega arith
  pop_nearer (ConsumerMove.releases e) t = omega arith
  pop_nearer (ConsumerMove.first_stopped e) t = cc
  pop_nearer (ConsumerMove.first_running e) t = cc
  pop_nearer (ConsumerMove.second_stopped e) t = cc
  pop_nearer (ConsumerMove.second_running e) t = cc

module _ {ℓ} {A : Type ℓ} {size : ℕ} (pow : IsPow2 size) (two : 2 ≤ size) {s : System A}
    (reach : Reach size s) (b : length s.claimed + size < 2 ^ 63) where
  -- For a `size` that is a power of two from 2 on, while positions stay below `2 ^ 63`: in every
  -- reachable state within a `try_pop`, the consumer can make an access, and each access that it can
  -- make leaves fewer to make, of five at the start of the call.
  pub mpsc_try_pop_wait_free :
      in_try_pop s.consumer ≡ true
      → ConsumerCanMove size s.queue s.consumer
        × ((m : ConsumerCanMove size s.queue s.consumer)
            → pop_accesses m.1 < pop_accesses s.consumer)
  mpsc_try_pop_wait_free t =
      let (h, r, inv) = Reach-Inv pow two reach b in
      (
        consumer_moves pow inv (omega (arith, inv.claims)) s.consumer t inv.consumer_knows,
        λ m. pop_nearer m.3 t,
      )
