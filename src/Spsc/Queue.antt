-- ===== src/Spsc/Queue.antt =====
-- The member functions of `BoundedSPSCQueue<T, _size>`, as calls that run without interference.
-- `size` is `_size`, and a call takes the queue to its new state beside what it returns; the outer
-- `none` is undefined behaviour. Memory orders leave no trace here.
use sync_tools.Prelude.{
  ℕ, zero, suc, Bool, true, false, Option, none, some, List, [], ◌∷◌, ◌==◌, if◌then◌else◌,
  replicate,
}
use sync_tools.Prelude.Words.{add_size, sub_size, mask}
use sync_tools.Storage.{ElementType, after_construct, construct_at, take_at, ◌>>=◌}
use sync_tools.Fifo.{
  QueueStatus, running, stopped, is_stopped, Op, Reply, done, pushed, pushed_move, popped,
  popped_into, count, flag,
}

pub record Queue {ℓ} (A : Type ℓ) : Type ℓ where
  pub buffer : List (Option A)
  pub head : ℕ
  pub tail : ℕ
  pub status : QueueStatus

-- `BoundedSPSCQueue()`
unfoldable pub new_queue {ℓ} : (A : Type ℓ) → ℕ → Queue A
new_queue A size = record { buffer = replicate size none; head = 0; tail = 0; status = running }

module _ {ℓ} {A : Type ℓ} where
  unfoldable pub run : Queue A → Queue A
  run q = record q { status = running }

  unfoldable pub stop : Queue A → Queue A
  stop q = record q { status = stopped }

  unfoldable pub empty : Queue A → Bool
  empty q = q.head == q.tail

-- `(i + 1) & _mask`
abbrev pub next_index : ℕ → ℕ → ℕ
next_index size i = mask size (add_size i 1)

module _ {ℓ} {A : Type ℓ} (size : ℕ) where
  -- `try_push(const T&)`
  unfoldable pub try_push : Queue A → A → Option (Bool × Queue A)
  try_push q v =
      if is_stopped q.status
      then some (false, q)
      else if next_index size q.head == q.tail
      then some (false, q)
      else do
        buffer ← construct_at q.buffer q.head v
        some (true, record q { buffer = buffer; head = next_index size q.head })

  -- `try_push(T&&)`: also what is left in the caller's `v`
  unfoldable pub try_push_move : ElementType A → Queue A → A → Option (Bool × A × Queue A)
  try_push_move e q v =
      if is_stopped q.status
      then some (false, v, q)
      else if next_index size q.head == q.tail
      then some (false, v, q)
      else do
        buffer ← construct_at q.buffer q.head v
        some
            (true, after_construct e v, record q { buffer = buffer; head = next_index size q.head })

  -- `try_pop()`: the branches for movable and other `T` return the same value, and the object
  -- that a move leaves in the slot is destroyed next.
  unfoldable pub try_pop : Queue A → Option (Option A × Queue A)
  try_pop q = if q.tail == q.head then some (none, q) else do
    (v, buffer) ← take_at q.buffer q.tail
    some (some v, record q { buffer = buffer; tail = next_index size q.tail })

  -- `try_pop(T& out)`
  unfoldable pub try_pop_into : Queue A → A → Option (Bool × A × Queue A)
  try_pop_into q out = if q.tail == q.head then some (false, out, q) else do
    (v, buffer) ← take_at q.buffer q.tail
    some (true, v, record q { buffer = buffer; tail = next_index size q.tail })

  unfoldable pub full : Queue A → Bool
  full q = next_index size q.head == q.tail

  -- `(head + _size - tail) & _mask`
  unfoldable pub size_of : Queue A → ℕ
  size_of q = mask size (sub_size (add_size q.head size) q.tail)

  -- `~BoundedSPSCQueue()`: the `while (try_pop())` with fuel, then what is left of the queue
  unfoldable pub drain : ℕ → Queue A → Option (List A × Queue A)
  drain zero q = none
  drain (suc fuel) q = try_pop q >>= λ r. elim r.0 [
    | none ↦ some ([], r.1)
    | some v ↦ drain fuel r.1 >>= λ s. some (v ∷ s.0, s.1)
  ]

  unfoldable pub destroy : ℕ → Queue A → Option (List A × Queue A)
  unfolding drain stop
  destroy fuel q = drain fuel (stop q)

  -- One call by its name.
  unfoldable pub step : ElementType A → Op A → Queue A → Option (Reply A × Queue A)
  unfolding run stop empty try_push try_push_move try_pop try_pop_into full size_of
  step e Op.run q = some (done, run q)
  step e Op.stop q = some (done, stop q)
  step e (Op.try_push v) q = try_push q v >>= λ r. some (pushed r.0, r.1)
  step e (Op.try_push_move v) q = try_push_move e q v >>= λ r. some (pushed_move r.0 r.1, r.2)
  step e Op.try_pop q = try_pop q >>= λ r. some (popped r.0, r.1)
  step e (Op.try_pop_into out) q = try_pop_into q out >>= λ r. some (popped_into r.0 r.1, r.2)
  step e Op.size q = some (count (size_of q), q)
  step e Op.empty q = some (flag (empty q), q)
  step e Op.full q = some (flag (full q), q)

  unfoldable pub run_ops : ElementType A → List (Op A) → Queue A → Option (List (Reply A) × Queue A)
  unfolding step
  run_ops e [] q = some ([], q)
  run_ops e (o ∷ os) q = step e o q >>= λ r. run_ops e os r.1 >>= λ s. some (r.0 ∷ s.0, s.1)
