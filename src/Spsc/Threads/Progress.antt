-- ===== src/Spsc/Threads/Progress.antt =====
-- The accesses that a call of `try_push` or `try_pop` can make and has still to make.
use sync_tools.Prelude.{
  ℕ, ◌<◌, ◌≡◌, ◌≢◌, refl, ap, inl, inr, Bool, true, false, none, some, List, arith, set, ℕ_discrete,
}
use sync_tools.Prelude.Words.{IsPow2}
use sync_tools.Fifo.{by_status}
use sync_tools.Storage.{construct_at, take_at, construct_at-ok, take_at-ok}
use sync_tools.Spsc.Queue.{Queue, next_index}
use sync_tools.Spsc.Threads.{
  Producer, Consumer, Mode, non_blocking, blocking, ProducerMove, ConsumerMove, System, Reach,
}
use sync_tools.Spsc.Threads.Safety.{construct_is_safe, take_is_safe}

-- The shared accesses that a call has still to make, at most.
abbrev pub push_accesses {ℓ} : {A : Type ℓ} → Producer A → ℕ
push_accesses Producer.idle = 0
push_accesses (Producer.load_status m v) = 5
push_accesses (Producer.load_head m v) = 4
push_accesses (Producer.load_tail m v h) = 3
push_accesses (Producer.construct m v h) = 2
push_accesses (Producer.store_head m v h) = 1
push_accesses (Producer.check_relaxed v) = 7
push_accesses (Producer.check_acquire v) = 6

abbrev pub pop_accesses {ℓ} : {A : Type ℓ} → Consumer A → ℕ
pop_accesses Consumer.idle = 0
pop_accesses (Consumer.load_tail m) = 4
pop_accesses (Consumer.load_head m t) = 3
pop_accesses (Consumer.take_object m t) = 2
pop_accesses (Consumer.store_tail m t v) = 1
pop_accesses Consumer.check_relaxed = 6
pop_accesses Consumer.check_acquire = 5

-- Within a call of `try_push` or `try_pop` by the client, not in a blocking loop.
abbrev pub in_try_push {ℓ} : {A : Type ℓ} → Producer A → Bool
in_try_push (Producer.load_status non_blocking v) = true
in_try_push (Producer.load_head non_blocking v) = true
in_try_push (Producer.load_tail non_blocking v h) = true
in_try_push (Producer.construct non_blocking v h) = true
in_try_push (Producer.store_head non_blocking v h) = true
in_try_push _ = false

abbrev pub in_try_pop {ℓ} : {A : Type ℓ} → Consumer A → Bool
in_try_pop (Consumer.load_tail non_blocking) = true
in_try_pop (Consumer.load_head non_blocking t) = true
in_try_pop (Consumer.take_object non_blocking t) = true
in_try_pop (Consumer.store_tail non_blocking t v) = true
in_try_pop _ = false

module _ {ℓ} {A : Type ℓ} (size : ℕ) where
  -- The producer can make an access.
  abbrev pub ProducerCanMove : Queue A → Producer A → Type ℓ
  ProducerCanMove q p =
      (q' : Queue A) × (p' : Producer A) × (out : List A) × ProducerMove size q p q' p' out

  abbrev pub ConsumerCanMove : Queue A → Consumer A → Type ℓ
  ConsumerCanMove q k =
      (q' : Queue A) × (k' : Consumer A) × (out : List A) × ConsumerMove size q k q' k' out

  producer_moves :
      (q : Queue A) (p : Producer A)
      → p ≢ Producer.idle
      → ((m : Mode) (v : A) (h : ℕ)
          → p ≡ Producer.construct m v h
          → construct_at q.buffer h v ≡ some (set q.buffer h (some v)))
      → ProducerCanMove q p
  producer_moves q Producer.idle ne safe = absurd (ne refl)
  producer_moves q (Producer.load_status m v) ne safe = elim (by_status q.status) [
    | inl e ↦ (_, _, _, ProducerMove.sees_running e)
    | inr e ↦ (_, _, _, ProducerMove.sees_stopped e)
  ]
  producer_moves q (Producer.load_head m v) ne safe = (_, _, _, ProducerMove.loads_head)
  producer_moves q (Producer.load_tail m v h) ne safe =
      elim (ℕ_discrete (next_index size h) q.tail) [
        | yes e ↦ (_, _, _, ProducerMove.sees_full e)
        | no e ↦ (_, _, _, ProducerMove.sees_room e)
      ]
  producer_moves q (Producer.construct m v h) ne safe =
      (_, _, _, ProducerMove.constructs (safe m v h refl))
  producer_moves q (Producer.store_head m v h) ne safe = (_, _, _, ProducerMove.publishes)
  producer_moves q (Producer.check_relaxed v) ne safe = elim (by_status q.status) [
    | inl e ↦ (_, _, _, ProducerMove.first_running e)
    | inr e ↦ (_, _, _, ProducerMove.first_stopped e)
  ]
  producer_moves q (Producer.check_acquire v) ne safe = elim (by_status q.status) [
    | inl e ↦ (_, _, _, ProducerMove.second_running e)
    | inr e ↦ (_, _, _, ProducerMove.second_stopped e)
  ]

  consumer_moves :
      (q : Queue A) (k : Consumer A)
      → ((m : Mode) (t : ℕ)
          → k ≡ Consumer.take_object m t
          → (v : A) × (take_at q.buffer t ≡ some (v, set q.buffer t none)))
      → ConsumerCanMove q k
  consumer_moves q Consumer.idle safe = (_, _, _, ConsumerMove.call non_blocking)
  consumer_moves q (Consumer.load_tail m) safe = (_, _, _, ConsumerMove.loads_tail)
  consumer_moves q (Consumer.load_head m t) safe = elim (ℕ_discrete t q.head) [
    | yes e ↦ (_, _, _, ConsumerMove.sees_empty e)
    | no e ↦ (_, _, _, ConsumerMove.sees_object e)
  ]
  consumer_moves q (Consumer.take_object m t) safe = (_, _, _, ConsumerMove.takes (safe m t refl).1)
  consumer_moves q (Consumer.store_tail m t v) safe = (_, _, _, ConsumerMove.releases)
  consumer_moves q Consumer.check_relaxed safe = elim (by_status q.status) [
    | inl e ↦ (_, _, _, ConsumerMove.first_running e)
    | inr e ↦ (_, _, _, ConsumerMove.first_stopped e)
  ]
  consumer_moves q Consumer.check_acquire safe = elim (by_status q.status) [
    | inl e ↦ (_, _, _, ConsumerMove.second_running e)
    | inr e ↦ (_, _, _, ConsumerMove.second_stopped e)
  ]

module _ {ℓ} {A : Type ℓ} {size : ℕ} where
  push_nearer :
      {q q' : Queue A} {p p' : Producer A} {out : List A}
      → ProducerMove size q p q' p' out
      → in_try_push p ≡ true
      → push_accesses p' < push_accesses p
  push_nearer (ProducerMove.call m v) t = cc
  push_nearer (ProducerMove.sees_running {m = non_blocking} e) t = omega arith
  push_nearer (ProducerMove.sees_running {m = blocking} e) t = cc
  push_nearer (ProducerMove.sees_stopped {m = non_blocking} e) t = omega arith
  push_nearer (ProducerMove.sees_stopped {m = blocking} e) t = cc
  push_nearer ProducerMove.loads_head t = omega arith
  push_nearer (ProducerMove.sees_full {m = non_blocking} e) t = omega arith
  push_nearer (ProducerMove.sees_full {m = blocking} e) t = cc
  push_nearer (ProducerMove.sees_room e) t = omega arith
  push_nearer (ProducerMove.constructs e) t = omega arith
  push_nearer ProducerMove.publishes t = omega arith
  push_nearer (ProducerMove.first_stopped e) t = cc
  push_nearer (ProducerMove.first_running e) t = cc
  push_nearer (ProducerMove.second_stopped e) t = cc
  push_nearer (ProducerMove.second_running e) t = cc

  pop_nearer :
      {q q' : Queue A} {k k' : Consumer A} {out : List A}
      → ConsumerMove size q k q' k' out
      → in_try_pop k ≡ true
      → pop_accesses k' < pop_accesses k
  pop_nearer (ConsumerMove.call m) t = cc
  pop_nearer ConsumerMove.loads_tail t = omega arith
  pop_nearer (ConsumerMove.sees_empty {m = non_blocking} e) t = omega arith
  pop_nearer (ConsumerMove.sees_empty {m = blocking} e) t = cc
  pop_nearer (ConsumerMove.sees_object e) t = omega arith
  pop_nearer (ConsumerMove.takes e) t = omega arith
  pop_nearer ConsumerMove.releases t = omega arith
  pop_nearer (ConsumerMove.first_stopped e) t = cc
  pop_nearer (ConsumerMove.first_running e) t = cc
  pop_nearer (ConsumerMove.second_stopped e) t = cc
  pop_nearer (ConsumerMove.second_running e) t = cc

module _ {ℓ} {A : Type ℓ} where
  -- The producer is within a `try_push`, or the consumer within a `try_pop`.
  pub data InCall (s : System A) : (is_pop : Bool) → Type ℓ where
    pushing : in_try_push s.producer ≡ true → InCall s false
    popping : in_try_pop s.consumer ≡ true → InCall s true

  abbrev pub CanMove : (size : ℕ) → System A → (is_pop : Bool) → Type ℓ
  CanMove size s false = ProducerCanMove size s.queue s.producer
  CanMove size s true = ConsumerCanMove size s.queue s.consumer

  -- The accesses that the call has still to make, now and after one of them.
  abbrev pub accesses_left : System A → (is_pop : Bool) → ℕ
  accesses_left s false = push_accesses s.producer
  accesses_left s true = pop_accesses s.consumer

  abbrev pub left_after : (size : ℕ) (s : System A) (is_pop : Bool) → CanMove size s is_pop → ℕ
  left_after size s false m = push_accesses m.1
  left_after size s true m = pop_accesses m.1

module _ {ℓ} {A : Type ℓ} {size : ℕ} (pow : IsPow2 size) where
  -- Within a `try_push`, the producer can make an access, and each access
  -- that it can make leaves fewer to make (of five at the start of the call).
  try_push_wait_free :
      {s : System A}
      → Reach size s
      → in_try_push s.producer ≡ true
      → ProducerCanMove size s.queue s.producer
        × ((m : ProducerCanMove size s.queue s.producer)
            → push_accesses m.1 < push_accesses s.producer)
  try_push_wait_free {s} r t = (
    producer_moves size s.queue s.producer (λ e. cc (t, ap in_try_push e))
        (λ m v h e. construct_at-ok s.queue.buffer h v (construct_is_safe pow r e).0),
    λ m. push_nearer m.3 t,
  )

  -- Within a `try_pop`, the consumer can make an access, and each access
  -- that it can make leaves fewer to make (of four at the start of the call).
  try_pop_wait_free :
      {s : System A}
      → Reach size s
      → in_try_pop s.consumer ≡ true
      → ConsumerCanMove size s.queue s.consumer
        × ((m : ConsumerCanMove size s.queue s.consumer)
            → pop_accesses m.1 < pop_accesses s.consumer)
  try_pop_wait_free {s} r t = (
    consumer_moves size s.queue s.consumer
        (λ m t e. let (l, v, f) = take_is_safe pow r e in (v, take_at-ok s.queue.buffer t v f)),
    λ m. pop_nearer m.3 t,
  )

  -- Where `size` is a power of two: in every reachable state within a `try_push` of the producer, or
  -- a `try_pop` of the consumer, that thread can make an access, and each access that it can make
  -- leaves fewer to make, of five at the start of a `try_push` and four at the start of a `try_pop`.
  pub try_calls_wait_free :
      {s : System A} {b : Bool}
      → Reach size s
      → InCall s b
      → CanMove size s b × ((m : CanMove size s b) → left_after size s b m < accesses_left s b)
  try_calls_wait_free r (InCall.pushing t) = try_push_wait_free r t
  try_calls_wait_free r (InCall.popping t) = try_pop_wait_free r t
