-- ===== src/Mpsc/Blocking.antt =====
-- `blocking_push` and `blocking_pop`, as calls that run without interference: what each round of
-- their loops does. `fuel` counts the rounds, and the outer `none` is undefined behaviour, or fuel
-- that has run out; `tries` is the fuel of `try_push`.
use sync_tools.Prelude.{
  ℕ, zero, suc, ◌+◌, ◌^◌, ◌≤◌, ◌<◌, ◌≡◌, ap, Bool, true, false, Option, none, some, List, [], ◌∷◌,
  ◌==◌, if◌then◌else◌, length, Bool-cases, inl, inr,
}
use sync_tools.Prelude.Words.{IsPow2}
use sync_tools.Storage.{ElementType, after_construct, ◌>>=◌}
use sync_tools.Fifo.{Fifo, is_stopped, accepts}
use sync_tools.Mpsc.Queue.{Queue, try_push, try_push_move, try_pop, try_pop_into, publish, consumed}
use sync_tools.Mpsc.Holds.{Holds}
use sync_tools.Mpsc.Refine.{
  Refines, try_push_lem, try_push_move_lem, try_pop_nil, try_pop_cons, try_pop_into_nil,
  try_pop_into_cons,
}

module _ {ℓ} {A : Type ℓ} (size : ℕ) where
  -- `blocking_push(const T&)`
  unfoldable pub blocking_push : (tries fuel : ℕ) → Queue A → A → Option (Bool × Queue A)
  blocking_push tries zero q v = none
  blocking_push tries (suc fuel) q v =
      if is_stopped q.status
      then some (false, q)
      else try_push size tries q v >>= λ r. elim r.0 [
        | true ↦ some (true, r.1)
        | false ↦ blocking_push tries fuel r.1 v
      ]

  -- `blocking_push(T&&)`: also what is left in the caller's `v`
  unfoldable pub blocking_push_move :
      (tries fuel : ℕ) → ElementType A → Queue A → A → Option (Bool × A × Queue A)
  blocking_push_move tries zero e q v = none
  blocking_push_move tries (suc fuel) e q v =
      if is_stopped q.status
      then some (false, v, q)
      else try_push_move size tries e q v >>= λ r. elim r.0 [
        | true ↦ some (true, r.1, r.2)
        | false ↦ blocking_push_move tries fuel e r.2 r.1
      ]

  -- `blocking_pop()`
  unfoldable pub blocking_pop : (fuel : ℕ) → Queue A → Option (Option A × Queue A)
  blocking_pop zero q = none
  blocking_pop (suc fuel) q = try_pop size q >>= λ r. elim r.0 [
    | some v ↦ some (some v, r.1)
    | none ↦ if is_stopped r.1.status then some (none, r.1) else blocking_pop fuel r.1
  ]

  -- `blocking_pop(T& out)`
  unfoldable pub blocking_pop_into : (fuel : ℕ) → Queue A → A → Option (Bool × A × Queue A)
  blocking_pop_into zero q out = none
  blocking_pop_into (suc fuel) q out = try_pop_into size q out >>= λ r. elim r.0 [
    | true ↦ some (true, r.1, r.2)
    | false ↦
        if is_stopped r.2.status then some (false, r.1, r.2) else blocking_pop_into fuel r.2 r.1
  ]

module _ {ℓ} {A : Type ℓ} {size : ℕ} (p : IsPow2 size) where
  module _ (two : 2 ≤ size) (tries fuel : ℕ) {q : Queue A} {f : Fifo A} (r : Refines size q f)
      (b : q.head + size < 2 ^ 63) where
    -- A round of `blocking_push`, on a queue that is the FIFO `f` of at most `size` elements, with
    -- `size` a power of two from 2 on and positions below `2 ^ 63`: it returns false where the FIFO
    -- is stopped, goes round again with nothing changed where it is full, and else returns true
    -- with the cell published.
    blocking_push_lem :
        (v : A)
        → blocking_push size (suc tries) (suc fuel) q v ≡ (
            if is_stopped f.status
            then some (false, q)
            else if length f.items == size
            then blocking_push size (suc tries) fuel q v
            else some (true, publish size q.head v q))
    unfolding blocking_push accepts
    blocking_push_lem v =
        rw (ap is_stopped r.same_status, try_push_lem p two tries r b v)
          (elim (Bool-cases (is_stopped f.status)) [
            | inl e ↦ rw e
            | inr e ↦
                rw e (elim (Bool-cases (length f.items == size)) [ inl d ↦ rw d | inr d ↦ rw d ])
          ])

    -- The same for `blocking_push(T&&)`, which leaves the caller's variable as it was unless it
    -- returns true.
    blocking_push_move_lem :
        (e : ElementType A) (v : A)
        → blocking_push_move size (suc tries) (suc fuel) e q v ≡ (
            if is_stopped f.status
            then some (false, v, q)
            else if length f.items == size
            then blocking_push_move size (suc tries) fuel e q v
            else some (true, after_construct e v, publish size q.head v q))
    unfolding blocking_push_move accepts
    blocking_push_move_lem t v =
        rw (ap is_stopped r.same_status, try_push_move_lem p two tries r b t v)
          (elim (Bool-cases (is_stopped f.status)) [
            | inl e ↦ rw e
            | inr e ↦
                rw e (elim (Bool-cases (length f.items == size)) [ inl d ↦ rw d | inr d ↦ rw d ])
          ])

  module _ (fuel : ℕ) {q : Queue A} {f : Fifo A} (r : Refines size q f)
      (b : q.head + size < 2 ^ 63) where
    -- A round of `blocking_pop`, on a queue that is the FIFO `f` of at most `size` elements, with
    -- `size` a power of two and positions below `2 ^ 63`: it takes the oldest element if there is
    -- one, stopped or not; with none it returns null where the FIFO is stopped, and goes round again
    -- with nothing changed where it is running.
    blocking_pop_lem : blocking_pop size (suc fuel) q ≡ elim f.items [
      | [] ↦ if is_stopped f.status then some (none, q) else blocking_pop size fuel q
      | x ∷ c ↦ some (some x, consumed size q)
    ]
    unfolding blocking_pop
    blocking_pop_lem = go f.items r.holds
      where
        go :
            (c : List A)
            → Holds size q c
            → blocking_pop size (suc fuel) q ≡ elim c [
              | [] ↦ if is_stopped f.status then some (none, q) else blocking_pop size fuel q
              | x ∷ c' ↦ some (some x, consumed size q)
            ]
        go [] h = rw (try_pop_nil p h b, ap is_stopped r.same_status)
        go (x ∷ c) h = rw (try_pop_cons p x c h b)

    -- The same for `blocking_pop(T&)`, which leaves `out` as it was unless it takes an element.
    blocking_pop_into_lem :
        (out : A)
        → blocking_pop_into size (suc fuel) q out ≡ elim f.items [
          | [] ↦
              if is_stopped f.status
              then some (false, out, q)
              else blocking_pop_into size fuel q out
          | x ∷ c ↦ some (true, x, consumed size q)
        ]
    unfolding blocking_pop_into
    blocking_pop_into_lem out = go f.items r.holds
      where
        go :
            (c : List A)
            → Holds size q c
            → blocking_pop_into size (suc fuel) q out ≡ elim c [
              | [] ↦
                  if is_stopped f.status
                  then some (false, out, q)
                  else blocking_pop_into size fuel q out
              | x ∷ c' ↦ some (true, x, consumed size q)
            ]
        go [] h = rw (try_pop_into_nil p out h b, ap is_stopped r.same_status)
        go (x ∷ c) h = rw (try_pop_into_cons p out x c h b)

  -- A round of each, on a queue that is the FIFO `f` of at most `size` elements, with `size` a power
  -- of two from 2 on and positions below `2 ^ 63`. `blocking_push` returns false where the FIFO is
  -- stopped, goes round again with nothing changed where it is full, and else returns true with the
  -- cell published. `blocking_pop` takes the oldest element if there is one, stopped or not; with
  -- none it returns null where the FIFO is stopped, and goes round again with nothing changed where
  -- it is running.
  pub blocking_rounds :
      (tries fuel : ℕ) {q : Queue A} {f : Fifo A} (v : A)
      → 2 ≤ size
      → Refines size q f
      → q.head + size < 2 ^ 63
      → (blocking_push size (suc tries) (suc fuel) q v ≡ (
          if is_stopped f.status
          then some (false, q)
          else if length f.items == size
          then blocking_push size (suc tries) fuel q v
          else some (true, publish size q.head v q)))
        × (blocking_pop size (suc fuel) q ≡ elim f.items [
          | [] ↦ if is_stopped f.status then some (none, q) else blocking_pop size fuel q
          | x ∷ c ↦ some (some x, consumed size q)
        ])
  blocking_rounds tries fuel v two r b =
      (blocking_push_lem two tries fuel r b v, blocking_pop_lem fuel r b)
