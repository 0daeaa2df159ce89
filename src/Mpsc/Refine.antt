-- ===== src/Mpsc/Refine.antt =====
-- The ring, between calls, as a FIFO of at most `size` elements: each member function, called
-- without interference and while positions stay below `2 ^ 63`, beside the FIFO's.
use sync_tools.Prelude.{
  ℕ, suc, ◌+◌, ◌^◌, ◌≤◌, ◌<◌, ◌≡◌, refl, ◌∙◌, ap, true, false, none, some, List, [], ◌∷◌, ◌++◌,
  ◌==◌, leb, if◌then◌else◌, arith, length, Bool-cases, inl, inr, ==_iff,
}
use sync_tools.Prelude.Words.{IsPow2, IsPow2-pos, add_size}
use sync_tools.Storage.{ElementType, after_construct}
use sync_tools.Fifo
use sync_tools.Fifo.{Fifo, Op, Reply, is_stopped, running, stopped, accepts}
use sync_tools.Mpsc.Queue.{
  Queue, new_queue, try_push, try_push_move, try_pop, try_pop_into, run, stop, step, run_ops,
  push_from, publish, consumed, size_of, empty, full, sign_of, same, negative, diff,
}
use sync_tools.Mpsc.Holds.{
  Holds, diff_lem, head_room, head_full, tail_nil, tail_cons, Holds-pushed, Holds-popped,
  Holds-status, new_queue-Holds,
}

pub diff_same : (a : ℕ) → a < 2 ^ 63 → diff a a ≡ some same
diff_same a h = let e : sign_of a a ≡ same = ground arith in diff_lem a a h h ∙ ap some e

diff_negative : (a b : ℕ) → a < b → b < 2 ^ 63 → diff a b ≡ some negative
diff_negative a b h k =
    let e : sign_of a b ≡ negative = ground arith in diff_lem a b (omega arith) k ∙ ap some e

module _ {ℓ} {A : Type ℓ} (size : ℕ) where
  -- The queue, between calls, is the FIFO `f`.
  pub record Refines (q : Queue A) (f : Fifo A) : Type ℓ where
    pub holds : Holds size q f.items
    pub same_status : q.status ≡ f.status

  -- A call on `q` replies as the FIFO `f` does, and leaves the ring being the FIFO's new state.
  abbrev pub Simulates : (fuel : ℕ) → ElementType A → Op A → Queue A → Fifo A → Type ℓ
  Simulates fuel e o q f =
      let (r, f') = Fifo.step size e o f in
      (q' : Queue A) × (step size fuel e o q ≡ some (r, q'))
      × Refines q' f'
      × (q'.head ≤ q.head + 1)

module _ {ℓ} {A : Type ℓ} {size : ℕ} (p : IsPow2 size) where
  module _ {q : Queue A} {c : List A} (h : Holds size q c) (b : q.head + size < 2 ^ 63) where
    push_from-room :
        (fuel : ℕ) (v : A)
        → length c < size
        → push_from size (suc fuel) q.head q v ≡ some (true, publish size q.head v q)
    unfolding push_from
    push_from-room fuel v l =
        let t : (q.head == q.head) ≡ true = (==_iff q.head q.head).1 refl in
        rw (head_room p h l, diff_same q.head (omega arith), t)

    push_from-full :
        (fuel : ℕ) (v : A)
        → length c ≡ size
        → 2 ≤ size
        → push_from size (suc fuel) q.head q v ≡ some (false, q)
    unfolding push_from
    push_from-full fuel v l two =
        let (w, e) = head_full p h l in
        rw (e, diff_negative (q.tail + 1) q.head (omega (arith, h.head_at)) (omega arith))

    size_test : size_of q ≡ length c
    unfolding size_of
    size_test = omega (arith, h.head_at, h.room)

  module _ {q : Queue A} where
    pub try_pop_nil : Holds size q [] → q.head + size < 2 ^ 63 → try_pop size q ≡ some (none, q)
    unfolding try_pop
    try_pop_nil h b =
        let up : add_size q.tail 1 ≡ q.tail + 1 = omega (arith, h.head_at) in
        rw (
          tail_nil p h,
          up,
          diff_negative q.tail (q.tail + 1) (omega arith) (omega (arith, h.head_at, IsPow2-pos p)),
        )

    pub try_pop_cons :
        (x : A) (c : List A)
        → Holds size q (x ∷ c)
        → q.head + size < 2 ^ 63
        → try_pop size q ≡ some (some x, consumed size q)
    unfolding try_pop
    try_pop_cons x c h b =
        let up : add_size q.tail 1 ≡ q.tail + 1 = omega (arith, h.head_at) in
        let d : diff (q.tail + 1) (add_size q.tail 1) ≡ some same =
          rw up (diff_same (q.tail + 1) (omega (arith, h.head_at))) in
        rw (tail_cons p x c h, d)

    pub try_pop_into_nil :
        (out : A)
        → Holds size q []
        → q.head + size < 2 ^ 63
        → try_pop_into size q out ≡ some (false, out, q)
    unfolding try_pop_into
    try_pop_into_nil out h b =
        let up : add_size q.tail 1 ≡ q.tail + 1 = omega (arith, h.head_at) in
        rw (
          tail_nil p h,
          up,
          diff_negative q.tail (q.tail + 1) (omega arith) (omega (arith, h.head_at, IsPow2-pos p)),
        )

    pub try_pop_into_cons :
        (out x : A) (c : List A)
        → Holds size q (x ∷ c)
        → q.head + size < 2 ^ 63
        → try_pop_into size q out ≡ some (true, x, consumed size q)
    unfolding try_pop_into
    try_pop_into_cons out x c h b =
        let up : add_size q.tail 1 ≡ q.tail + 1 = omega (arith, h.head_at) in
        let d : diff (q.tail + 1) (add_size q.tail 1) ≡ some same =
          rw up (diff_same (q.tail + 1) (omega (arith, h.head_at))) in
        rw (tail_cons p x c h, d)

  module _ (two : 2 ≤ size) (fuel : ℕ) {q : Queue A} {f : Fifo A} (r : Refines size q f)
      (b : q.head + size < 2 ^ 63) where
    -- The loop of `try_push`, on a queue that is running.
    push_from_lem :
        (v : A)
        → push_from size (suc fuel) q.head q v
          ≡ some (if length f.items == size then (false, q) else (true, publish size q.head v q))
    push_from_lem v = elim (Bool-cases (length f.items == size)) [
      | inl e ↦ rw e (push_from-full r.holds b fuel v ((==_iff _ _).0 e) two)
      | inr e ↦ rw e (push_from-room r.holds b fuel v (ground (arith, r.holds.room)))
    ]

    accepts-room : accepts size f ≡ true → length f.items < size
    unfolding accepts
    accepts-room a = elim (Bool-cases (length f.items == size)) [
      | inl e ↦ absurd (ground arith)
      | inr e ↦ ground (arith, r.holds.room)
    ]

    pub Refines-pushed :
        (v : A)
        → accepts size f ≡ true
        → Refines size (publish size q.head v q) (record f { items = f.items ++ (v ∷ []) })
    Refines-pushed v a = record {
      holds = Holds-pushed p v r.holds (accepts-room a) (omega arith);
      same_status = r.same_status;
    }

    pub try_push_lem :
        (v : A)
        → try_push size (suc fuel) q v
          ≡ some (if accepts size f then (true, publish size q.head v q) else (false, q))
    unfolding try_push accepts
    try_push_lem v =
        rw (ap is_stopped r.same_status, push_from_lem v)
          (elim (Bool-cases (is_stopped f.status)) [
            | inl e ↦ rw e
            | inr e ↦
                rw e (elim (Bool-cases (length f.items == size)) [ inl d ↦ rw d | inr d ↦ rw d ])
          ])

    pub try_push_move_lem :
        (e : ElementType A) (v : A)
        → try_push_move size (suc fuel) e q v
          ≡ some (
              if accepts size f
              then (true, after_construct e v, publish size q.head v q)
              else (false, v, q))
    unfolding try_push_move accepts
    try_push_move_lem t v =
        rw (ap is_stopped r.same_status, push_from_lem v)
          (elim (Bool-cases (is_stopped f.status)) [
            | inl e ↦ rw e
            | inr e ↦
                rw e (elim (Bool-cases (length f.items == size)) [ inl d ↦ rw d | inr d ↦ rw d ])
          ])

    published : add_size q.head 1 ≤ q.head + 1
    published = omega arith

    try_push-Refines : (e : ElementType A) (v : A) → Simulates size (suc fuel) e (Op.try_push v) q f
    unfolding step Fifo.step
    try_push-Refines e v = elim (Bool-cases (accepts size f)) [
      | inl a ↦
          rw a (publish size q.head v q, rw (try_push_lem v, a), Refines-pushed v a, published)
      | inr a ↦ rw a (q, rw (try_push_lem v, a), r, omega arith)
    ]

    try_push_move-Refines :
        (e : ElementType A) (v : A) → Simulates size (suc fuel) e (Op.try_push_move v) q f
    unfolding step Fifo.step
    try_push_move-Refines e v = elim (Bool-cases (accepts size f)) [
      | inl a ↦
          rw a
            (publish size q.head v q, rw (try_push_move_lem e v, a), Refines-pushed v a, published)
      | inr a ↦ rw a (q, rw (try_push_move_lem e v, a), r, omega arith)
    ]

  try_pop-Refines :
      (fuel : ℕ) (e : ElementType A) (q : Queue A) (f : Fifo A)
      → Refines size q f
      → q.head + size < 2 ^ 63
      → Simulates size fuel e Op.try_pop q f
  unfolding step Fifo.step
  try_pop-Refines fuel e q f r b = go f.items r.holds r.same_status
    where
      go :
          (c : List A)
          → Holds size q c
          → q.status ≡ f.status
          → Simulates size fuel e Op.try_pop q (record { items = c; status = f.status })
      go [] h s = (q, rw (try_pop_nil h b), record { holds = h; same_status = s }, omega arith)
      go (x ∷ c) h s = (
        consumed size q,
        rw (try_pop_cons x c h b),
        record { holds = Holds-popped p x c h (omega (arith, h.head_at)); same_status = s },
        omega arith,
      )

  try_pop_into-Refines :
      (fuel : ℕ) (e : ElementType A) (out : A) (q : Queue A) (f : Fifo A)
      → Refines size q f
      → q.head + size < 2 ^ 63
      → Simulates size fuel e (Op.try_pop_into out) q f
  unfolding step Fifo.step
  try_pop_into-Refines fuel e out q f r b = go f.items r.holds r.same_status
    where
      go :
          (c : List A)
          → Holds size q c
          → q.status ≡ f.status
          → Simulates size fuel e (Op.try_pop_into out) q (record { items = c; status = f.status })
      go [] h s =
          (q, rw (try_pop_into_nil out h b), record { holds = h; same_status = s }, omega arith)
      go (x ∷ c) h s = (
        consumed size q,
        rw (try_pop_into_cons out x c h b),
        record { holds = Holds-popped p x c h (omega (arith, h.head_at)); same_status = s },
        omega arith,
      )

  full_test : {q : Queue A} {c : List A} → Holds size q c → leb size (length c) ≡ (length c == size)
  full_test h = ground (arith, h.room)

  -- Every member function.
  pub step-Refines :
      2 ≤ size
      → (fuel : ℕ) (e : ElementType A) (o : Op A) {q : Queue A} {f : Fifo A} → Refines size q f
      → q.head + size < 2 ^ 63
      → Simulates size (suc fuel) e o q f
  unfolding step Fifo.step empty full
  step-Refines two fuel e Op.run {q} {f} r b = (
    run q,
    refl,
    record { holds = Holds-status running r.holds; same_status = refl },
    omega arith,
  )
  step-Refines two fuel e Op.stop {q} {f} r b = (
    stop q,
    refl,
    record { holds = Holds-status stopped r.holds; same_status = refl },
    omega arith,
  )
  step-Refines two fuel e (Op.try_push v) r b = try_push-Refines two fuel r b e v
  step-Refines two fuel e (Op.try_push_move v) r b = try_push_move-Refines two fuel r b e v
  step-Refines two fuel e Op.try_pop {q} {f} r b = try_pop-Refines (suc fuel) e q f r b
  step-Refines two fuel e (Op.try_pop_into out) {q} {f} r b =
      try_pop_into-Refines (suc fuel) e out q f r b
  step-Refines two fuel e Op.size {q} r b = (q, rw (size_test r.holds b), r, omega arith)
  step-Refines two fuel e Op.empty {q} r b = (q, rw (size_test r.holds b), r, omega arith)
  step-Refines two fuel e Op.full {q} r b =
      (q, rw (size_test r.holds b, full_test r.holds), r, omega arith)

  -- Where `size` is a power of two from 2 on and the queue is the FIFO `f` of at most `size`
  -- elements, no sequence of calls that keeps positions below `2 ^ 63` is undefined behaviour, one
  -- round of each push loop is enough, each call replies as the FIFO does, and the queue ends as the
  -- FIFO's end state.
  pub replies_as_fifo :
      2 ≤ size
      → (fuel : ℕ) (e : ElementType A) (os : List (Op A)) {q : Queue A} {f : Fifo A}
      → Refines size q f
      → q.head + length os + size < 2 ^ 63
      → let (rs, f') = Fifo.run_ops size e os f in
        (q' : Queue A) × (run_ops size (suc fuel) e os q ≡ some (rs, q')) × Refines size q' f'
  unfolding run_ops Fifo.run_ops
  replies_as_fifo two fuel e [] {q} r b = (q, refl, r)
  replies_as_fifo two fuel e (o ∷ os) r b =
      let (q', eq, r', l) = step-Refines two fuel e o r (omega arith) in
      let (q'', eq', r'') = replies_as_fifo two fuel e os r' (omega arith) in
      (q'', rw (eq, eq'), r'')

  pub new_queue-Refines : Refines size (new_queue A size) (record { items = []; status = running })
  unfolding new_queue
  new_queue-Refines = record { holds = new_queue-Holds p; same_status = refl }
