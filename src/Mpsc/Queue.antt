-- ===== src/Mpsc/Queue.antt =====
-- The member functions of `BoundedMPSCQueue<T, _size>`, as calls that run without interference.
-- `size` is `_size`, and a call takes the queue to its new state beside what it returns; the outer
-- `none` is undefined behaviour, or fuel that has run out. The loop of `try_push` runs on fuel. A
-- compare-exchange that fails spuriously only repeats a round, and is left out.
use sync_tools.Prelude.{
  ℕ, zero, suc, ◌+◌, ◌^◌, Bool, true, false, ◌||◌, Option, none, some, List, [], ◌∷◌, ◌==◌, ltb,
  leb, if◌then◌else◌, get_elem?, set,
}
use sync_tools.Prelude.Words.{add_size, sub_size, mask}
use sync_tools.Storage.{ElementType, after_construct, ◌>>=◌}
use sync_tools.Fifo.{
  QueueStatus, running, stopped, is_stopped, Op, Reply, done, pushed, pushed_move, popped,
  popped_into, count, flag,
}

-- `struct Cell`
pub record Cell {ℓ} (A : Type ℓ) : Type ℓ where
  pub seq : ℕ
  pub storage : Option A

pub record Queue {ℓ} (A : Type ℓ) : Type ℓ where
  pub cells : List (Cell A)
  pub head : ℕ
  pub tail : ℕ
  pub status : QueueStatus

-- The cells from `i` on, `n` of them, with the sequence numbers of the constructor's loop.
abbrev pub fresh_cells {ℓ} : {A : Type ℓ} → (i n : ℕ) → List (Cell A)
fresh_cells i zero = []
fresh_cells i (suc n) = record { seq = i; storage = none } ∷ fresh_cells (suc i) n

-- `BoundedMPSCQueue()`
unfoldable pub new_queue {ℓ} : (A : Type ℓ) → ℕ → Queue A
new_queue A size = record { cells = fresh_cells 0 size; head = 0; tail = 0; status = running }

-- The sign of a difference.
pub data Sign : Type 0 where
  negative same positive : Sign

abbrev pub sign_of : (a b : ℕ) → Sign
sign_of a b = if a == b then same else if ltb a b then negative else positive

-- A 64-bit word read as an `intptr_t`, plus `2 ^ 63`.
abbrev pub biased : ℕ → ℕ
biased w = add_size w (2 ^ 63)

-- `static_cast<intptr_t>(a) - static_cast<intptr_t>(b)`, its sign. A difference that an `intptr_t`
-- cannot hold is undefined behaviour.
unfoldable pub diff : (a b : ℕ) → Option Sign
diff a b =
    if ltb (biased a + 2 ^ 63) (biased b) || leb (biased b + 2 ^ 63) (biased a)
    then none
    else some (sign_of (biased a) (biased b))

module _ {ℓ} {A : Type ℓ} where
  unfoldable pub run : Queue A → Queue A
  run q = record q { status = running }

  unfoldable pub stop : Queue A → Queue A
  stop q = record q { status = stopped }

  -- `_head - _tail`
  unfoldable pub size_of : Queue A → ℕ
  size_of q = sub_size q.head q.tail

  unfoldable pub empty : Queue A → Bool
  unfolding size_of
  empty q = size_of q == 0

module _ {ℓ} {A : Type ℓ} (size : ℕ) where
  unfoldable pub full : Queue A → Bool
  unfolding size_of
  full q = leb size (size_of q)

  -- The cell claimed at `pos` by a producer, written and published.
  abbrev pub publish : ℕ → A → Queue A → Queue A
  publish pos v q = record q {
    cells = set q.cells (mask size pos) (record { seq = add_size pos 1; storage = some v });
    head = add_size pos 1;
  }

  -- The loop of `try_push`, at a position read from `_head`.
  unfoldable pub push_from : (fuel pos : ℕ) → Queue A → A → Option (Bool × Queue A)
  push_from zero pos q v = none
  push_from (suc fuel) pos q v =
      let again = push_from fuel q.head q v in
      do
        cell ← get_elem? q.cells (mask size pos)
        d ← diff cell.seq pos
        elim d [
          | same ↦ if q.head == pos then some (true, publish pos v q) else again
          | negative ↦ some (false, q)
          | positive ↦ again
        ]

  -- `try_push(const T&)`
  unfoldable pub try_push : (fuel : ℕ) → Queue A → A → Option (Bool × Queue A)
  unfolding push_from
  try_push fuel q v = if is_stopped q.status then some (false, q) else push_from fuel q.head q v

  -- `try_push(T&&)`: also what is left in the caller's `v`
  unfoldable pub try_push_move :
      (fuel : ℕ) → ElementType A → Queue A → A → Option (Bool × A × Queue A)
  unfolding push_from
  try_push_move fuel e q v = if is_stopped q.status then some (false, v, q) else do
    (ok, q') ← push_from fuel q.head q v
    some (ok, (if ok then after_construct e v else v), q')

  -- The cell at `_tail` given back for the round after.
  abbrev pub consumed : Queue A → Queue A
  consumed q = record q {
    cells = set q.cells (mask size q.tail) (record { seq = add_size q.tail size; storage = none });
    tail = add_size q.tail 1;
  }

  -- `try_pop()`: the branches for movable and other `T` return the same value.
  unfoldable pub try_pop : Queue A → Option (Option A × Queue A)
  try_pop q = do
    cell ← get_elem? q.cells (mask size q.tail)
    d ← diff cell.seq (add_size q.tail 1)
    elim d [
      | same ↦ cell.storage >>= λ v. some (some v, consumed q)
      | negative ↦ some (none, q)
      | positive ↦ some (none, q)
    ]

  -- `try_pop(T& out)`
  unfoldable pub try_pop_into : Queue A → A → Option (Bool × A × Queue A)
  try_pop_into q out = do
    cell ← get_elem? q.cells (mask size q.tail)
    d ← diff cell.seq (add_size q.tail 1)
    elim d [
      | same ↦ cell.storage >>= λ v. some (true, v, consumed q)
      | negative ↦ some (false, out, q)
      | positive ↦ some (false, out, q)
    ]

  -- `~BoundedMPSCQueue()`: the `while (try_pop())` with fuel, then what is left of the queue
  unfoldable pub drain : ℕ → Queue A → Option (List A × Queue A)
  drain zero q = none
  drain (suc fuel) q = try_pop q >>= λ r. elim r.0 [
    | none ↦ some ([], r.1)
    | some v ↦ drain fuel r.1 >>= λ s. some (v ∷ s.0, s.1)
  ]

  unfoldable pub destroy : ℕ → Queue A → Option (List A × Queue A)
  unfolding drain stop
  destroy fuel q = drain fuel (stop q)

  -- One call by its name.
  unfoldable pub step : (fuel : ℕ) → ElementType A → Op A → Queue A → Option (Reply A × Queue A)
  unfolding run stop empty try_push try_push_move try_pop try_pop_into full size_of
  step fuel e Op.run q = some (done, run q)
  step fuel e Op.stop q = some (done, stop q)
  step fuel e (Op.try_push v) q = try_push fuel q v >>= λ r. some (pushed r.0, r.1)
  step fuel e (Op.try_push_move v) q =
      try_push_move fuel e q v >>= λ r. some (pushed_move r.0 r.1, r.2)
  step fuel e Op.try_pop q = try_pop q >>= λ r. some (popped r.0, r.1)
  step fuel e (Op.try_pop_into out) q = try_pop_into q out >>= λ r. some (popped_into r.0 r.1, r.2)
  step fuel e Op.size q = some (count (size_of q), q)
  step fuel e Op.empty q = some (flag (empty q), q)
  step fuel e Op.full q = some (flag (full q), q)

  unfoldable pub run_ops :
      (fuel : ℕ) → ElementType A → List (Op A) → Queue A → Option (List (Reply A) × Queue A)
  unfolding step
  run_ops fuel e [] q = some ([], q)
  run_ops fuel e (o ∷ os) q =
      step fuel e o q >>= λ r. run_ops fuel e os r.1 >>= λ s. some (r.0 ∷ s.0, s.1)
