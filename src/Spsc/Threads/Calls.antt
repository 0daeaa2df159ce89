-- ===== src/Spsc/Threads/Calls.antt =====
-- A call of `try_push` or `try_pop` that no other thread interrupts: the accesses it makes, set
-- beside the member functions of Spsc/Queue, which take a call whole.
use sync_tools.Prelude.{
  ℕ, ◌≡◌, ◌≢◌, sym, ap, Bool, true, false, Option, none, some, List, [], ◌∷◌, ◌++◌, ◌==◌,
  if◌then◌else◌, append-nil, append_assoc, Bool-cases, Option-cases, inl, inr, ==_iff,
}
use sync_tools.Storage.{construct_at, take_at, ◌>>=◌}
use sync_tools.Fifo.{running, is_stopped, by_status}
use sync_tools.Spsc.Queue.{Queue, next_index, try_push, try_pop}
use sync_tools.Spsc.Threads.{
  Producer, Consumer, Mode, ProducerMove, ConsumerMove, System, produce, consume, Reach, later,
  push_failed, pop_failed,
}

module _ {ℓ} {A : Type ℓ} (size : ℕ) where
  -- Accesses of the producer one after the other, and all that they published.
  pub data ProducerRun (q : Queue A) (p : Producer A) : Queue A → Producer A → List A → Type ℓ where
    rest : ProducerRun q p q p []
    then :
        {q' q'' : Queue A} {p' p'' : Producer A} {out out' : List A}
        → ProducerRun q p q' p' out
        → ProducerMove size q' p' q'' p'' out'
        → ProducerRun q p q'' p'' (out ++ out')

  -- Accesses of the consumer one after the other, and all that they took out.
  pub data ConsumerRun (q : Queue A) (k : Consumer A) : Queue A → Consumer A → List A → Type ℓ where
    rest : ConsumerRun q k q k []
    then :
        {q' q'' : Queue A} {k' k'' : Consumer A} {out out' : List A}
        → ConsumerRun q k q' k' out
        → ConsumerMove size q' k' q'' k'' out'
        → ConsumerRun q k q'' k'' (out ++ out')

-- Where a `try_push` and a `try_pop` end, and what they hand over.
abbrev pub push_end {ℓ} : {A : Type ℓ} → Mode → A → Bool → Producer A × List A
push_end m v true = (Producer.idle, v ∷ [])
push_end m v false = (push_failed m v, [])

abbrev pub pop_end {ℓ} : {A : Type ℓ} → Mode → Option A → Consumer A × List A
pop_end m none = (pop_failed m, [])
pop_end m (some v) = (Consumer.idle, v ∷ [])

module _ {ℓ} {A : Type ℓ} {size : ℕ} where
  pub Reach-produce :
      {s : System A} {q : Queue A} {p : Producer A} {out : List A}
      → Reach size s
      → ProducerRun size s.queue s.producer q p out
      → Reach size (record s { queue = q; producer = p; pushed = s.pushed ++ out })
  Reach-produce {s} r ProducerRun.rest = rw append-nil r
  Reach-produce {s} r (ProducerRun.then {out = out} {out' = out'} run m) =
      rw (sym (append_assoc s.pushed out out')) (later (Reach-produce r run) (produce m))

  pub Reach-consume :
      {s : System A} {q : Queue A} {k : Consumer A} {out : List A}
      → Reach size s
      → ConsumerRun size s.queue s.consumer q k out
      → Reach size (record s { queue = q; consumer = k; popped = s.popped ++ out })
  Reach-consume {s} r ConsumerRun.rest = rw append-nil r
  Reach-consume {s} r (ConsumerRun.then {out = out} {out' = out'} run m) =
      rw (sym (append_assoc s.popped out out')) (later (Reach-consume r run) (consume m))

module _ {ℓ} {A : Type ℓ} (size : ℕ) (m : Mode) (q : Queue A) where
  -- What a call that is taken whole returns, as a run of accesses; undefined behaviour says nothing.
  abbrev pub PushesTo : A → Option (Bool × Queue A) → Type ℓ
  PushesTo v none = Unit
  PushesTo v (some r) =
      ProducerRun size q (Producer.load_status m v) r.1 (push_end m v r.0).0 (push_end m v r.0).1

  abbrev pub PopsTo : Option (Option A × Queue A) → Type ℓ
  PopsTo none = Unit
  PopsTo (some r) =
      ConsumerRun size q (Consumer.load_tail m) r.1 (pop_end m r.0).0 (pop_end m r.0).1

  pub push_accepted :
      (v : A) {b : List (Option A)}
      → q.status ≡ running
      → next_index size q.head ≢ q.tail
      → construct_at q.buffer q.head v ≡ some b
      → ProducerRun size q
          (Producer.load_status m v)
          (record q { buffer = b; head = next_index size q.head })
          Producer.idle
          (v ∷ [])
  push_accepted v e ne at =
      ProducerRun.then
        (ProducerRun.then
          (ProducerRun.then
            (ProducerRun.then (ProducerRun.then ProducerRun.rest (ProducerMove.sees_running e))
              ProducerMove.loads_head)
            (ProducerMove.sees_room ne))
          (ProducerMove.constructs at))
        ProducerMove.publishes

  construct_run :
      (v : A)
      → q.status ≡ running
      → next_index size q.head ≢ q.tail
      → PushesTo v (do
        buffer ← construct_at q.buffer q.head v
        some (true, record q { buffer = buffer; head = next_index size q.head }))
  construct_run v e ne = elim (Option-cases (construct_at q.buffer q.head v)) [
    | inl none_at ↦ rw none_at tt
    | inr (b, at) ↦ rw at (push_accepted v e ne at)
  ]

  test_run :
      (v : A)
      → q.status ≡ running
      → PushesTo v (
          if next_index size q.head == q.tail then some (false, q) else do
            buffer ← construct_at q.buffer q.head v
            some (true, record q { buffer = buffer; head = next_index size q.head }))
  test_run v e = elim (Bool-cases (next_index size q.head == q.tail)) [
    | inl full ↦ rw full (
        ProducerRun.then
          (ProducerRun.then (ProducerRun.then ProducerRun.rest (ProducerMove.sees_running e))
            ProducerMove.loads_head)
          (ProducerMove.sees_full ((==_iff (next_index size q.head) q.tail).0 full)))
    | inr room ↦
        rw room
          (construct_run v e (λ same. cc (room, (==_iff (next_index size q.head) q.tail).1 same)))
  ]

  pub push_run : (v : A) → PushesTo v (try_push size q v)
  unfolding try_push
  push_run v = elim (by_status q.status) [
    | inl e ↦ rw (ap is_stopped e) (test_run v e)
    | inr e ↦ rw (ap is_stopped e) (ProducerRun.then ProducerRun.rest (ProducerMove.sees_stopped e))
  ]

  take_run :
      q.tail ≢ q.head
      → PopsTo (do
        (v, buffer) ← take_at q.buffer q.tail
        some (some v, record q { buffer = buffer; tail = next_index size q.tail }))
  take_run ne = elim (Option-cases (take_at q.buffer q.tail)) [
    | inl none_at ↦ rw none_at tt
    | inr ((v, b), at) ↦ rw at (
        ConsumerRun.then
          (ConsumerRun.then
            (ConsumerRun.then (ConsumerRun.then ConsumerRun.rest ConsumerMove.loads_tail)
              (ConsumerMove.sees_object ne))
            (ConsumerMove.takes at))
          ConsumerMove.releases)
  ]

  pub pop_run : PopsTo (try_pop size q)
  unfolding try_pop
  pop_run = elim (Bool-cases (q.tail == q.head)) [
    | inl none_left ↦ rw none_left (
        ConsumerRun.then (ConsumerRun.then ConsumerRun.rest ConsumerMove.loads_tail)
          (ConsumerMove.sees_empty ((==_iff q.tail q.head).0 none_left)))
    | inr left ↦ rw left (take_run (λ same. cc (left, (==_iff q.tail q.head).1 same)))
  ]
