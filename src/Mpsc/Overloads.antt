-- ===== src/Mpsc/Overloads.antt =====
-- The overloads of `try_push`, `try_pop`, `blocking_push` and `blocking_pop`, side by side.
use sync_tools.Prelude.{
  ℕ, zero, suc, ◌≡◌, refl, Bool, true, false, Option, none, some, if◌then◌else◌, get_elem?,
}
use sync_tools.Prelude.Words.{add_size, mask}
use sync_tools.Storage.{ElementType, after_construct, ◌>>=◌}
use sync_tools.Fifo.{is_stopped}
use sync_tools.Mpsc.Queue.{
  Cell, Queue, Sign, same, negative, positive, diff, push_from, consumed, try_push, try_push_move,
  try_pop, try_pop_into,
}
use sync_tools.Mpsc.Blocking.{blocking_push, blocking_push_move, blocking_pop, blocking_pop_into}

module _ {ℓ} {A : Type ℓ} where
  -- What a push by move returns, where one by copy returns `r`.
  abbrev pub by_move : ElementType A → A → Bool × Queue A → Bool × A × Queue A
  by_move e v r = (r.0, (if r.0 then after_construct e v else v), r.1)

  -- What a pop into `out` returns, where one that returns an optional returns `r`.
  abbrev pub into : A → Option A × Queue A → Bool × A × Queue A
  into out (none, q) = (false, out, q)
  into out (some v, q) = (true, v, q)

module _ {ℓ} {A : Type ℓ} (size : ℕ) where
  try_push_agrees :
      (tries : ℕ) (e : ElementType A) (q : Queue A) (v : A)
      → try_push_move size tries e q v ≡ (try_push size tries q v >>= λ r. some (by_move e v r))
  unfolding try_push try_push_move
  try_push_agrees tries e q v = go (is_stopped q.status) (push_from size tries q.head q v)
    where
      go :
          (b : Bool) (x : Option (Bool × Queue A))
          → (if b then some (false, v, q) else (x >>= λ r. some (by_move e v r)))
            ≡ ((if b then some (false, q) else x) >>= λ r. some (by_move e v r))
      go true x = refl
      go false x = refl

  try_pop_agrees :
      (q : Queue A) (out : A)
      → try_pop_into size q out ≡ (try_pop size q >>= λ r. some (into out r))
  unfolding try_pop try_pop_into
  try_pop_agrees q out = cell (get_elem? q.cells (mask size q.tail))
    where
      take :
          (x : Option A)
          → (x >>= λ v. some (true, v, consumed size q))
            ≡ ((x >>= λ v. some (some v, consumed size q)) >>= λ r. some (into out r))
      take none = refl
      take (some v) = refl

      sign :
          (x : Option A) (s : Option Sign)
          → (s >>= λ d. elim d [
            | same ↦ x >>= λ v. some (true, v, consumed size q)
            | negative ↦ some (false, out, q)
            | positive ↦ some (false, out, q)
          ])
            ≡ ((s >>= λ d. elim d [
              | same ↦ x >>= λ v. some (some v, consumed size q)
              | negative ↦ some (none, q)
              | positive ↦ some (none, q)
            ])
                >>= λ r. some (into out r))
      sign x none = refl
      sign x (some same) = take x
      sign x (some negative) = refl
      sign x (some positive) = refl

      cell :
          (c : Option (Cell A))
          → (c >>= λ c. diff c.seq (add_size q.tail 1) >>= λ d. elim d [
            | same ↦ c.storage >>= λ v. some (true, v, consumed size q)
            | negative ↦ some (false, out, q)
            | positive ↦ some (false, out, q)
          ])
            ≡ ((c >>= λ c. diff c.seq (add_size q.tail 1) >>= λ d. elim d [
              | same ↦ c.storage >>= λ v. some (some v, consumed size q)
              | negative ↦ some (none, q)
              | positive ↦ some (none, q)
            ])
                >>= λ r. some (into out r))
      cell none = refl
      cell (some c) = sign c.storage (diff c.seq (add_size q.tail 1))

  blocking_push_agrees :
      (tries fuel : ℕ) (e : ElementType A) (q : Queue A) (v : A)
      → blocking_push_move size tries fuel e q v
        ≡ (blocking_push size tries fuel q v >>= λ r. some (by_move e v r))
  unfolding blocking_push blocking_push_move
  blocking_push_agrees tries zero e q v = refl
  blocking_push_agrees tries (suc fuel) e q v = rw (try_push_agrees tries e q v) (
      go (is_stopped q.status) (try_push size tries q v)
        (λ q'. blocking_push_agrees tries fuel e q' v))
    where
      go :
          (b : Bool) (x : Option (Bool × Queue A))
          → ((q' : Queue A)
              → blocking_push_move size tries fuel e q' v
                ≡ (blocking_push size tries fuel q' v >>= λ r. some (by_move e v r)))
          → (if b
              then some (false, v, q)
              else (x >>= λ r. some (by_move e v r)) >>= λ r. elim r.0 [
                | true ↦ some (true, r.1, r.2)
                | false ↦ blocking_push_move size tries fuel e r.2 r.1
              ])
            ≡ ((if b
                  then some (false, q)
                  else x >>= λ r. elim r.0 [
                    | true ↦ some (true, r.1)
                    | false ↦ blocking_push size tries fuel r.1 v
                  ])
                >>= λ r. some (by_move e v r))
      go true x rest = refl
      go false none rest = refl
      go false (some (true, q')) rest = refl
      go false (some (false, q')) rest = rest q'

  blocking_pop_agrees :
      (fuel : ℕ) (q : Queue A) (out : A)
      → blocking_pop_into size fuel q out ≡ (blocking_pop size fuel q >>= λ r. some (into out r))
  unfolding blocking_pop blocking_pop_into
  blocking_pop_agrees zero q out = refl
  blocking_pop_agrees (suc fuel) q out =
      rw (try_pop_agrees q out) (go (try_pop size q) (λ q'. blocking_pop_agrees fuel q' out))
    where
      stop :
          (b : Bool) (q' : Queue A)
          → blocking_pop_into size fuel q' out
            ≡ (blocking_pop size fuel q' >>= λ r. some (into out r))
          → (if b then some (false, out, q') else blocking_pop_into size fuel q' out) ≡ (
              (if b then some (none, q') else blocking_pop size fuel q') >>= λ r. some (into out r))
      stop true q' rest = refl
      stop false q' rest = rest

      go :
          (x : Option (Option A × Queue A))
          → ((q' : Queue A)
              → blocking_pop_into size fuel q' out
                ≡ (blocking_pop size fuel q' >>= λ r. some (into out r)))
          → ((x >>= λ r. some (into out r)) >>= λ r. elim r.0 [
            | true ↦ some (true, r.1, r.2)
            | false ↦
                if is_stopped r.2.status
                then some (false, r.1, r.2)
                else blocking_pop_into size fuel r.2 r.1
          ])
            ≡ ((x >>= λ r. elim r.0 [
              | some v ↦ some (some v, r.1)
              | none ↦
                  if is_stopped r.1.status then some (none, r.1) else blocking_pop size fuel r.1
            ])
                >>= λ r. some (into out r))
      go none rest = refl
      go (some (some v, q')) rest = refl
      go (some (none, q')) rest = stop (is_stopped q'.status) q' (rest q')

  -- From every state of the queue, reachable or not, and with any fuel: a push of an rvalue does
  -- what one of a copy does, undefined behaviour included, and moves the caller's variable away if
  -- it succeeds and leaves it as it was if not; a pop into `out` does what one that returns an
  -- optional does, and leaves `out` as it was where that is null. This holds of the calls that try
  -- and of those that block.
  pub overloads_agree :
      (tries fuel : ℕ) (e : ElementType A) (q : Queue A) (v out : A)
      → (try_push_move size tries e q v ≡ (try_push size tries q v >>= λ r. some (by_move e v r)))
        × (blocking_push_move size tries fuel e q v
            ≡ (blocking_push size tries fuel q v >>= λ r. some (by_move e v r)))
        × (try_pop_into size q out ≡ (try_pop size q >>= λ r. some (into out r)))
        × (blocking_pop_into size fuel q out
            ≡ (blocking_pop size fuel q >>= λ r. some (into out r)))
  overloads_agree tries fuel e q v out = (
    try_push_agrees tries e q v,
    blocking_push_agrees tries fuel e q v,
    try_pop_agrees q out,
    blocking_pop_agrees fuel q out,
  )
