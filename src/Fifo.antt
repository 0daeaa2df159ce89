-- ===== src/Fifo.antt =====
-- What both bounded queues promise: a FIFO of at most `cap` elements with a running or stopped
-- status, as the client of one queue sees it.
use sync_tools.Prelude.{
  ℕ, Bool, true, false, ◌||◌, Option, none, some, List, [], ◌∷◌, ◌++◌, ◌==◌, if◌then◌else◌, length,
  ◌≡◌, refl, ◌⊎◌, inl, inr,
}
use sync_tools.Storage.{ElementType, after_construct}

-- `enum class QueueStatus`
pub data QueueStatus : Type 0 where
  running stopped : QueueStatus

abbrev pub is_stopped : QueueStatus → Bool
is_stopped running = false
is_stopped stopped = true

pub by_status : (s : QueueStatus) → (s ≡ running) ⊎ (s ≡ stopped)
by_status running = inl refl
by_status stopped = inr refl

-- The non-blocking member functions, each with its arguments.
pub data Op {ℓ} (A : Type ℓ) : Type ℓ where
  run stop : Op A
  try_push : A → Op A
  try_push_move : A → Op A
  try_pop : Op A
  try_pop_into : A → Op A
  size empty full : Op A

-- What a call hands back, the caller's own variable included.
pub data Reply {ℓ} (A : Type ℓ) : Type ℓ where
  done : Reply A
  pushed : Bool → Reply A
  pushed_move : Bool → A → Reply A
  popped : Option A → Reply A
  popped_into : Bool → A → Reply A
  count : ℕ → Reply A
  flag : Bool → Reply A

pub record Fifo {ℓ} (A : Type ℓ) : Type ℓ where
  pub items : List A
  pub status : QueueStatus

module _ {ℓ} {A : Type ℓ} (cap : ℕ) where
  unfoldable pub accepts : Fifo A → Bool
  accepts f = if is_stopped f.status || length f.items == cap then false else true

  unfoldable pub push : Fifo A → A → Bool × Fifo A
  unfolding accepts
  push f v = if accepts f then (true, record f { items = f.items ++ (v ∷ []) }) else (false, f)

unfoldable pub pop {ℓ} : {A : Type ℓ} → List A → Option A × List A
pop [] = (none, [])
pop (x ∷ xs) = (some x, xs)

unfoldable pub pop_into {ℓ} : {A : Type ℓ} → List A → A → Bool × A × List A
pop_into [] out = (false, out, [])
pop_into (x ∷ xs) out = (true, x, xs)

module _ {ℓ} {A : Type ℓ} (cap : ℕ) (e : ElementType A) where
  unfoldable pub step : Op A → Fifo A → Reply A × Fifo A
  unfolding push pop pop_into
  step run f = (done, record f { status = running })
  step stop f = (done, record f { status = stopped })
  step (try_push v) f = let (ok, f') = push cap f v in (pushed ok, f')
  step (try_push_move v) f =
      let (ok, f') = push cap f v in (pushed_move ok (if ok then after_construct e v else v), f')
  step try_pop f = let (r, xs) = pop f.items in (popped r, record f { items = xs })
  step (try_pop_into out) f =
      let (ok, v, xs) = pop_into f.items out in (popped_into ok v, record f { items = xs })
  step size f = (count (length f.items), f)
  step empty f = (flag (length f.items == 0), f)
  step full f = (flag (length f.items == cap), f)

  unfoldable pub run_ops : List (Op A) → Fifo A → List (Reply A) × Fifo A
  run_ops [] f = ([], f)
  run_ops (o ∷ os) f = let (r, f') = step o f in let (rs, f'') = run_ops os f' in (r ∷ rs, f'')
