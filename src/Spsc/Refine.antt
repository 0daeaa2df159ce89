-- ===== src/Spsc/Refine.antt =====
-- The ring, between calls, as a FIFO of at most `size - 1` elements: each member function, called
-- without interference, beside the FIFO's.
use sync_tools.Prelude.{
  ℕ, suc, ◌-◌, ◌<◌, ◌≡◌, refl, true, false, none, some, List, [], ◌∷◌, ◌++◌, ◌==◌, if◌then◌else◌,
  arith, length, ==_congr, Bool-cases, inl, inr, suc-==-zero, ==_comm,
}
use sync_tools.Prelude.Words.{IsPow2, IsPow2-pos}
use sync_tools.Storage.{ElementType, after_construct}
use sync_tools.Fifo
use sync_tools.Fifo.{Fifo, Op, Reply, is_stopped, running, stopped, accepts}
use sync_tools.Spsc.Queue.{
  Queue, new_queue, try_push, try_push_move, try_pop, try_pop_into, run, stop, step, run_ops,
}
use sync_tools.Spsc.Holds.{
  Holds, pushed, popped, full_test, empty_test, size_test, Holds-pushed, Holds-popped,
  construct-head, take-tail, Holds-status, new_queue-Holds,
}

module _ {ℓ} {A : Type ℓ} (size : ℕ) where
  -- The queue, between calls, is the FIFO `f`.
  pub record Refines (q : Queue A) (f : Fifo A) : Type ℓ where
    pub holds : Holds size q f.items
    pub same_status : q.status ≡ f.status

  -- A call on `q` replies as the FIFO `f` does, and leaves the ring being the FIFO's new state.
  abbrev pub Simulates : ElementType A → Op A → Queue A → Fifo A → Type ℓ
  Simulates e o q f =
      let (r, f') = Fifo.step (size - 1) e o f in
      (q' : Queue A) × (step size e o q ≡ some (r, q')) × Refines q' f'

pub capacity_test : {size : ℕ} → 0 < size → (n : ℕ) → (n == size - 1) ≡ (suc n == size)
capacity_test {size} h n = ==_congr n (size - 1) (suc n) size (λ e. omega arith) (λ e. omega arith)

module _ {ℓ} {A : Type ℓ} {size : ℕ} (p : IsPow2 size) where
  module _ {q : Queue A} {f : Fifo A} (r : Refines size q f) where
    pub try_push_lem :
        (v : A)
        → try_push size q v
          ≡ some (if accepts (size - 1) f then (true, pushed size q v) else (false, q))
    unfolding try_push accepts
    try_push_lem v =
        rw
          (
            r.same_status,
            full_test p r.holds,
            construct-head p r.holds v,
            capacity_test (IsPow2-pos p) (length f.items),
          )
          (elim (Bool-cases (is_stopped f.status)) [
            | inl e ↦ rw e
            | inr e ↦
                rw e
                  (elim (Bool-cases (suc (length f.items) == size)) [ inl d ↦ rw d | inr d ↦ rw d ])
          ])

    pub try_push_move_lem :
        (e : ElementType A) (v : A)
        → try_push_move size e q v
          ≡ some (
              if accepts (size - 1) f
              then (true, after_construct e v, pushed size q v)
              else (false, v, q))
    unfolding try_push_move accepts
    try_push_move_lem t v =
        rw
          (
            r.same_status,
            full_test p r.holds,
            construct-head p r.holds v,
            capacity_test (IsPow2-pos p) (length f.items),
          )
          (elim (Bool-cases (is_stopped f.status)) [
            | inl e ↦ rw e
            | inr e ↦
                rw e
                  (elim (Bool-cases (suc (length f.items) == size)) [ inl d ↦ rw d | inr d ↦ rw d ])
          ])

    pub accepts-room : accepts (size - 1) f ≡ true → suc (length f.items) < size
    unfolding accepts
    accepts-room a = elim (Bool-cases (suc (length f.items) == size)) [
      | inl e ↦ absurd (ground (arith, capacity_test (IsPow2-pos p) (length f.items)))
      | inr e ↦ ground (arith, r.holds.room)
    ]

    pub Refines-pushed :
        (v : A)
        → accepts (size - 1) f ≡ true
        → Refines size (pushed size q v) (record f { items = f.items ++ (v ∷ []) })
    Refines-pushed v a = record {
      holds = Holds-pushed p r.holds v (accepts-room a);
      same_status = r.same_status;
    }

    pub try_push-Refines : (e : ElementType A) (v : A) → Simulates size e (Op.try_push v) q f
    unfolding step Fifo.step
    try_push-Refines e v = elim (Bool-cases (accepts (size - 1) f)) [
      | inl a ↦ rw a (pushed size q v, rw (try_push_lem v, a), Refines-pushed v a)
      | inr a ↦ rw a (q, rw (try_push_lem v, a), r)
    ]

    pub try_push_move-Refines :
        (e : ElementType A) (v : A) → Simulates size e (Op.try_push_move v) q f
    unfolding step Fifo.step
    try_push_move-Refines e v = elim (Bool-cases (accepts (size - 1) f)) [
      | inl a ↦ rw a (pushed size q v, rw (try_push_move_lem e v, a), Refines-pushed v a)
      | inr a ↦ rw a (q, rw (try_push_move_lem e v, a), r)
    ]

  module _ {q : Queue A} where
    pub try_pop_nil : Holds size q [] → try_pop size q ≡ some (none, q)
    unfolding try_pop
    try_pop_nil h = rw (empty_test p h)

    pub try_pop_cons :
        (x : A) (c : List A) → Holds size q (x ∷ c) → try_pop size q ≡ some (some x, popped size q)
    unfolding try_pop
    try_pop_cons x c h = rw (empty_test p h, suc-==-zero (length c), take-tail p x c h)

    pub try_pop_into_nil :
        (out : A) → Holds size q [] → try_pop_into size q out ≡ some (false, out, q)
    unfolding try_pop_into
    try_pop_into_nil out h = rw (empty_test p h)

    pub try_pop_into_cons :
        (out x : A) (c : List A)
        → Holds size q (x ∷ c)
        → try_pop_into size q out ≡ some (true, x, popped size q)
    unfolding try_pop_into
    try_pop_into_cons out x c h = rw (empty_test p h, suc-==-zero (length c), take-tail p x c h)

  try_pop-Refines :
      (e : ElementType A) (q : Queue A) (f : Fifo A)
      → Refines size q f
      → Simulates size e Op.try_pop q f
  unfolding step Fifo.step
  try_pop-Refines e q f r = go f.items r.holds r.same_status
    where
      go :
          (c : List A)
          → Holds size q c
          → q.status ≡ f.status
          → Simulates size e Op.try_pop q (record { items = c; status = f.status })
      go [] h s = (q, rw (try_pop_nil h), record { holds = h; same_status = s })
      go (x ∷ c) h s = (
        popped size q,
        rw (try_pop_cons x c h),
        record { holds = Holds-popped p x c h; same_status = s },
      )

  try_pop_into-Refines :
      (e : ElementType A) (out : A) (q : Queue A) (f : Fifo A)
      → Refines size q f
      → Simulates size e (Op.try_pop_into out) q f
  unfolding step Fifo.step
  try_pop_into-Refines e out q f r = go f.items r.holds r.same_status
    where
      go :
          (c : List A)
          → Holds size q c
          → q.status ≡ f.status
          → Simulates size e (Op.try_pop_into out) q (record { items = c; status = f.status })
      go [] h s = (q, rw (try_pop_into_nil out h), record { holds = h; same_status = s })
      go (x ∷ c) h s = (
        popped size q,
        rw (try_pop_into_cons out x c h),
        record { holds = Holds-popped p x c h; same_status = s },
      )

  -- Every member function.
  pub step-Refines :
      (e : ElementType A) (o : Op A) {q : Queue A} {f : Fifo A}
      → Refines size q f
      → Simulates size e o q f
  unfolding step Fifo.step
  step-Refines e Op.run {q} {f} r =
      (run q, refl, record { holds = Holds-status running r.holds; same_status = refl })
  step-Refines e Op.stop {q} {f} r =
      (stop q, refl, record { holds = Holds-status stopped r.holds; same_status = refl })
  step-Refines e (Op.try_push v) r = try_push-Refines r e v
  step-Refines e (Op.try_push_move v) r = try_push_move-Refines r e v
  step-Refines e Op.try_pop {q} {f} r = try_pop-Refines e q f r
  step-Refines e (Op.try_pop_into out) {q} {f} r = try_pop_into-Refines e out q f r
  step-Refines e Op.size {q} r = (q, rw (size_test p r.holds), r)
  step-Refines e Op.empty {q} r = (q, rw (==_comm q.head q.tail, empty_test p r.holds), r)
  step-Refines e Op.full {q} {f} r =
      (q, rw (full_test p r.holds, capacity_test (IsPow2-pos p) (length f.items)), r)

  -- Where `size` is a power of two and the queue is the FIFO `f` of at most `size - 1` elements, no
  -- sequence of calls is undefined behaviour, each replies as the FIFO does, and the queue ends as
  -- the FIFO's end state.
  pub run_ops-Refines :
      (e : ElementType A) (os : List (Op A)) {q : Queue A} {f : Fifo A}
      → Refines size q f
      → let (rs, f') = Fifo.run_ops (size - 1) e os f in
        (q' : Queue A) × (run_ops size e os q ≡ some (rs, q')) × Refines size q' f'
  unfolding run_ops Fifo.run_ops
  run_ops-Refines e [] {q} r = (q, refl, r)
  run_ops-Refines e (o ∷ os) r =
      let (q', eq, r') = step-Refines e o r in
      let (q'', eq', r'') = run_ops-Refines e os r' in (q'', rw (eq, eq'), r'')

  pub new_queue-Refines : Refines size (new_queue A size) (record { items = []; status = running })
  unfolding new_queue
  new_queue-Refines = record { holds = new_queue-Holds p; same_status = refl }
