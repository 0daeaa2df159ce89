-- ===== src/Mpsc/Threads/PushProgress.antt =====
-- The accesses that a call of `try_push` can make and has still to make.
use sync_tools.Prelude.{
  ℕ, ◌+◌, ◌^◌, ◌≤◌, ◌<◌, ◌≡◌, ◌⊎◌, inl, inr, Bool, true, false, some, List, ◌==◌, if◌then◌else◌,
  arith, length, ℕ_discrete,
}
use sync_tools.Prelude.Words.{IsPow2}
use sync_tools.Fifo.{by_status}
use sync_tools.Spsc.Threads.{Mode, non_blocking, blocking}
use sync_tools.Mpsc.Queue.{Queue, diff, same, negative, positive}
use sync_tools.Mpsc.Threads.{Producer, Consumer, ProducerMove, System, Reach}
use sync_tools.Mpsc.Threads.Invariant.{taken, ProducerKnows, Inv}
use sync_tools.Mpsc.Threads.Answers.{reads, positive_claimed}
use sync_tools.Mpsc.Threads.Reachable.{Reach-Inv}

-- The shared accesses that a call of `try_push` has still to make, at most, while `_head` stays
-- `head` until the call claims a cell.
abbrev pub push_accesses {ℓ} : {A : Type ℓ} → (head : ℕ) → Producer A → ℕ
push_accesses head Producer.idle = 0
push_accesses head (Producer.check_relaxed v) = 9
push_accesses head (Producer.check_acquire v) = 8
push_accesses head (Producer.load_status m v) = 7
push_accesses head (Producer.load_head m v) = 6
push_accesses head (Producer.load_seq m v pos) = if head == pos then 5 else 8
push_accesses head (Producer.claim m v pos) = if head == pos then 4 else 7
push_accesses head (Producer.construct m v pos) = 2
push_accesses head (Producer.store_seq m v pos) = 1

-- Within a call of `try_push` by the client, not in a blocking loop.
abbrev pub in_try_push {ℓ} : {A : Type ℓ} → Producer A → Bool
in_try_push (Producer.load_status non_blocking v) = true
in_try_push (Producer.load_head non_blocking v) = true
in_try_push (Producer.load_seq non_blocking v pos) = true
in_try_push (Producer.claim non_blocking v pos) = true
in_try_push (Producer.construct non_blocking v pos) = true
in_try_push (Producer.store_seq non_blocking v pos) = true
in_try_push _ = false

module _ {ℓ} {A : Type ℓ} where
  -- A compare-exchange that fails although `_head` is what it expects.
  pub data Spurious (head : ℕ) : Producer A → Producer A → Type ℓ where
    spurious :
        {m : Mode} {v : A} {pos : ℕ}
        → head ≡ pos
        → Spurious head (Producer.claim m v pos) (Producer.load_seq m v head)

module _ {ℓ} {A : Type ℓ} (size : ℕ) where
  -- The producer can make an access.
  abbrev pub ProducerCanMove : Queue A → Producer A → Type ℓ
  ProducerCanMove q p =
      (q' : Queue A) × (p' : Producer A) × (out : List A) × ProducerMove size q p q' p' out

module _ {ℓ} {A : Type ℓ} {size h r : ℕ} (pow : IsPow2 size) {q : Queue A} {ps : ℕ → Producer A}
    {k : Consumer A} {claimed popped : List A} (inv : Inv size h r q ps k claimed popped)
    (b : h + size < 2 ^ 63) where
  producer_moves :
      (p : Producer A)
      → in_try_push p ≡ true
      → ProducerKnows size h r q.cells claimed (taken k r) p
      → ProducerCanMove size q p
  producer_moves (Producer.load_status m v) t knows = elim (by_status q.status) [
    | inl e ↦ (_, _, _, ProducerMove.sees_running e)
    | inr e ↦ (_, _, _, ProducerMove.sees_stopped e)
  ]
  producer_moves (Producer.load_head m v) t knows = (_, _, _, ProducerMove.loads_head)
  producer_moves (Producer.load_seq m v pos) t knows =
      let (c, here, sign, d) = reads pow inv b pos pos (omega (arith, knows.below)) in
      elim sign
          as (λ sign.
            diff c.seq pos ≡ some sign → ProducerCanMove size q (Producer.load_seq m v pos)) [
              | same ↦ λ e. (_, _, _, ProducerMove.sees_free here e)
              | negative ↦ λ e. (_, _, _, ProducerMove.sees_full here e)
              | positive ↦ λ e. (_, _, _, ProducerMove.sees_claimed here e)
            ]
        d
  producer_moves (Producer.claim m v pos) t knows = (_, _, _, ProducerMove.claim_fails)
  producer_moves (Producer.construct m v pos) t knows =
      let (c, here, sign, d) = reads pow inv b pos 0 (omega arith) in
      (_, _, _, ProducerMove.constructs here)
  producer_moves (Producer.store_seq m v pos) t knows =
      let (c, here, sign, d) = reads pow inv b pos 0 (omega arith) in
      (_, _, _, ProducerMove.publishes here)
  producer_moves Producer.idle t knows = absurd (cc t)
  producer_moves (Producer.check_relaxed v) t knows = absurd (cc t)
  producer_moves (Producer.check_acquire v) t knows = absurd (cc t)

  push_nearer :
      {q' : Queue A} {p p' : Producer A} {out : List A}
      → ProducerMove size q p q' p' out
      → in_try_push p ≡ true
      → ProducerKnows size h r q.cells claimed (taken k r) p
      → (push_accesses q'.head p' < push_accesses q.head p) ⊎ Spurious q.head p p'
  push_nearer (ProducerMove.call m v) t knows = absurd (cc t)
  push_nearer (ProducerMove.first_stopped e) t knows = absurd (cc t)
  push_nearer (ProducerMove.first_running e) t knows = absurd (cc t)
  push_nearer (ProducerMove.second_stopped e) t knows = absurd (cc t)
  push_nearer (ProducerMove.second_running e) t knows = absurd (cc t)
  push_nearer (ProducerMove.sees_running e) t knows = inl (omega arith)
  push_nearer (ProducerMove.sees_stopped {m = non_blocking} e) t knows = inl (omega arith)
  push_nearer (ProducerMove.sees_stopped {m = blocking} e) t knows = absurd (cc t)
  push_nearer ProducerMove.loads_head t knows = inl (ground arith)
  push_nearer (ProducerMove.sees_free e d) t knows = inl (ground arith)
  push_nearer (ProducerMove.sees_full {m = non_blocking} e d) t knows = inl (ground arith)
  push_nearer (ProducerMove.sees_full {m = blocking} e d) t knows = absurd (cc t)
  push_nearer (ProducerMove.sees_claimed {pos = pos} e d) t knows =
      let l : pos < h = positive_claimed pow inv b knows.below e d in
      let at : q.head ≡ h = inv.head_at in inl (ground arith)
  push_nearer (ProducerMove.claims e) t knows = inl (ground arith)
  push_nearer (ProducerMove.claim_fails {pos = pos}) t knows = elim (ℕ_discrete q.head pos) [
    | yes e ↦ inr (spurious e)
    | no ne ↦ inl (ground arith)
  ]
  push_nearer (ProducerMove.constructs e) t knows = inl (omega arith)
  push_nearer (ProducerMove.publishes e) t knows = inl (omega arith)

module _ {ℓ} {A : Type ℓ} {size : ℕ} (pow : IsPow2 size) (two : 2 ≤ size) {s : System A}
    (reach : Reach size s) (b : length s.claimed + size < 2 ^ 63) where
  -- For a `size` that is a power of two from 2 on, while positions stay below `2 ^ 63`: in every
  -- reachable state within a `try_push` of any producer, it can make an access. Each access that it
  -- can make leaves fewer to make, of at most eight unless another producer claims a cell meanwhile,
  -- or is a compare-exchange that fails spuriously.
  pub try_push_lock_free :
      (i : ℕ)
      → in_try_push (s.producers i) ≡ true
      → ProducerCanMove size s.queue (s.producers i)
        × ((m : ProducerCanMove size s.queue (s.producers i))
            → (push_accesses m.0.head m.1 < push_accesses s.queue.head (s.producers i))
              ⊎ Spurious s.queue.head (s.producers i) m.1)
  try_push_lock_free i t =
      let (h, r, inv) = Reach-Inv pow two reach b in
      let top : h + size < 2 ^ 63 = omega (arith, inv.claims) in
      (
        producer_moves pow inv top (s.producers i) t (inv.producers_know i),
        λ m. push_nearer pow inv top m.3 t (inv.producers_know i),
      )
