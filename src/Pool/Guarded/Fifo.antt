-- ===== src/Pool/Guarded/Fifo.antt =====
-- The pool under its mutex, any number of threads interleaved at every access, beside the queue of
-- free pointers of FreeList.
use sync_tools.Prelude.{
  ℕ, min, ◌+◌, ◌≤◌, ◌<◌, ◌≡◌, refl, sym, ◌∙◌, ap, subst, Option, none, some, some-injective, List,
  [], ◌∷◌, ◌++◌, length, take, drop, ltb, leb, ltb→lt, leb→le, take-append-drop, inl, inr,
  Bool-cases, Option-cases,
}
use sync_tools.Mutex.Guard.{System, Reach}
use sync_tools.Mutex.Guard.Serial.{Ran, Serial, AtRest, settled-base, calls_serialise}
use sync_tools.Mutex.Guard.Whole.{finish, Ran-finish}
use sync_tools.Pool.ObjectPool.{ObjectPool, copy_in}
use sync_tools.Pool.ObjectPool.Holds.{Holds, Holds-returned, copy_in_lem}
use sync_tools.Pool.ObjectPool.Calls.{
  returned, acquire-none, acquire-some, release_lem, acquire_batch_lem,
}
use sync_tools.Pool.Memory.{Memory}
use sync_tools.Pool.Guarded.{
  Call, acquire, release, acquire_batch, release_batch, Reply, pointer, batch, given_back, Place,
  Members, under_mutex,
}
use sync_tools.Pool.Guarded.Steps.{bounded}
use sync_tools.Pool.Guarded.Whole.{
  alone, after_acquire, after_return, after_acquire_batch, acquire-alone, release-alone,
  acquire_batch-alone, batch_stored, rest_of_return,
}
use sync_tools.Pool.Guarded.FreeList.{answer, answers, and_then, answers-snoc, length-take-min}

-- The members `d` after calls that leave the pointers `free` and have replied `log`.
abbrev pub Leaves : (size : ℕ) → (log : List Reply) → (free : List ℕ) → Members → Type 0
Leaves size log free d =
    (p : ObjectPool) × (d ≡ some (p, log)) × Holds p free × (p.pool_size ≡ size)

-- Any memory, since the members do not depend on it: every address with an object.
abbrev full : Memory (Unit {0})
full x = some tt

module _ (p : ObjectPool) (log : List Reply) (free : List ℕ) (holds : Holds p free) where
  release-Leaves :
      (obj : ℕ)
      → length free < p.pool_size
      → Leaves p.pool_size
          (log ++ (given_back ∷ []))
          (free ++ (obj ∷ []))
          (alone p log (release obj))
  release-Leaves obj room =
      let (e, h) = release_lem obj tt full free holds refl room in
      (_, release-alone p log obj full e ∙ ap (after_return p log) e, h, refl)

  acquire_batch-Leaves :
      (n : ℕ)
      → Leaves p.pool_size
          (log ++ (batch (take n free) ∷ []))
          (drop n free)
          (alone p log (acquire_batch n))
  acquire_batch-Leaves n =
      let cut : take n free ++ drop n free ≡ free = take-append-drop n free in
      let (p', e, h, z) =
        acquire_batch_lem n (λ i. tt) full (take n free) (drop n free)
          (subst (Holds p) (sym cut) holds)
          (length-take-min n free ∙ ap (λ l. min n (length l)) (sym cut)) in
      (p', acquire_batch-alone p log n (λ i. tt) full ∙ ap (after_acquire_batch p log) e, h, z)

  release_batch-Leaves :
      (items : List ℕ)
      → length free + length items ≤ p.pool_size
      → Leaves p.pool_size
          (log ++ (given_back ∷ []))
          (free ++ items)
          (alone p log (release_batch items))
  unfolding finish
  release_batch-Leaves items room =
      let (cells, e, w) = copy_in_lem free items holds room in
      (
        returned p cells (length items),
        batch_stored p log full (length items) (copy_in p items)
            ∙ ap (λ o. after_return p log (rest_of_return p log (length items) full o)) e,
        Holds-returned free items cells holds room w,
        refl,
      )

-- One call, alone.
alone-Leaves :
    (p : ObjectPool) (log : List Reply) (free : List ℕ) (c : Call) {a : Reply × List ℕ}
    → Holds p free
    → answer p.pool_size c free ≡ some a
    → Leaves p.pool_size (log ++ (a.0 ∷ [])) a.1 (alone p log c)
unfolding answer
alone-Leaves p log [] acquire {a} h e =
    subst (λ a. Leaves p.pool_size (log ++ (a.0 ∷ [])) a.1 (alone p log acquire))
      (some-injective (pointer none, []) a e)
      (p, acquire-alone p log tt full ∙ ap (after_acquire p log) (acquire-none tt full h), h, refl)
alone-Leaves p log (x ∷ free) acquire {a} h e =
    let (call, h') = acquire-some tt full x free h in
    subst (λ a. Leaves p.pool_size (log ++ (a.0 ∷ [])) a.1 (alone p log acquire))
      (some-injective (pointer (some x), free) a e)
      (_, acquire-alone p log tt full ∙ ap (after_acquire p log) call, h', refl)
alone-Leaves p log free (release obj) {a} h e = elim (Bool-cases (ltb (length free) p.pool_size)) [
  | inl room ↦
      subst (λ a. Leaves p.pool_size (log ++ (a.0 ∷ [])) a.1 (alone p log (release obj)))
        (some-injective (given_back, free ++ (obj ∷ [])) a (rw room at e))
        (release-Leaves p log free h obj (ltb→lt (length free) p.pool_size room))
  | inr over ↦ absurd (cc (rw over at e))
]
alone-Leaves p log free (acquire_batch n) {a} h e =
    subst (λ a. Leaves p.pool_size (log ++ (a.0 ∷ [])) a.1 (alone p log (acquire_batch n)))
      (some-injective (batch (take n free), drop n free) a e) (acquire_batch-Leaves p log free h n)
alone-Leaves p log free (release_batch items) {a} h e =
    elim (Bool-cases (leb (length free + length items) p.pool_size)) [
      | inl room ↦
          subst
            (λ a. Leaves p.pool_size (log ++ (a.0 ∷ [])) a.1 (alone p log (release_batch items)))
            (some-injective (given_back, free ++ items) a (rw room at e))
            (release_batch-Leaves p log free h items
              (leb→le (length free + length items) p.pool_size room))
      | inr over ↦ absurd (cc (rw over at e))
    ]

Ran-alone :
    {p : ObjectPool} {log : List Reply} {c : Call} {d : Members}
    → Ran under_mutex c (some (p, log)) none d
    → d ≡ alone p log c
unfolding finish
Ran-alone run = (Ran-finish bounded run).1

-- `answers` that are defined are defined before the last call.
answers-before :
    (size : ℕ) (c : Call) (o : Option (List Reply × List ℕ)) {b : List Reply × List ℕ}
    → and_then size c o ≡ some b
    → (before : List Reply × List ℕ) × (a : Reply × List ℕ) × (o ≡ some before)
      × (answer size c before.1 ≡ some a)
      × (b ≡ (before.0 ++ (a.0 ∷ []), a.1))
answers-before size c none e = cc e
answers-before size c (some before) {b} e = elim (Option-cases (answer size c before.1)) [
  | inl none_at ↦ absurd (cc (rw none_at at e))
  | inr (a, at) ↦
      (before, a, refl, at, sym (some-injective (before.0 ++ (a.0 ∷ []), a.1) b (rw at at e)))
]

Serial-Leaves :
    {p : ObjectPool} {free : List ℕ} {cs : List Call} {d : Members} {b : List Reply × List ℕ}
    → Holds p free
    → Serial under_mutex (some (p, [])) cs d
    → answers p.pool_size [] free cs ≡ some b
    → Leaves p.pool_size b.0 b.1 d
unfolding answers
Serial-Leaves {p} {free} {b = b} h Serial.none_made e =
    subst (λ b. Leaves p.pool_size b.0 b.1 (some (p, []))) (some-injective ([], free) b e)
      (p, refl, h, refl)
Serial-Leaves {p} {free} {b = b} h (Serial.made {c} {cs} {d'} {d''} served run) e =
    let (before, a, at, now, z) =
      answers-before p.pool_size c (answers p.pool_size [] free cs)
        (sym (answers-snoc p.pool_size [] free cs c) ∙ e) in
    let (p', e', h', same) = Serial-Leaves h served at in
    let ran : d'' ≡ alone p' before.0 c =
      Ran-alone (subst (λ d. Ran under_mutex c d none d'') e' run) in
    let (p'', e'', h'', same') =
      alone-Leaves p' before.0 before.1 c h' (ap (λ n. answer n c before.1) same ∙ now) in
    subst (λ b. Leaves p.pool_size b.0 b.1 d'') (sym z) (p'', ran ∙ e'', h'', same' ∙ same)

-- Where the pool begins with the free pointers `free`, and no call that is over gives back more
-- pointers than the pool has room for when the calls are served from the queue `free` in the order of
-- their last accesses: in every reachable state of any number of threads that make the calls of `programs` under the
-- mutex, interleaved at every access to it or to the members, while no call is under way, the replies
-- are those of the queue, and the pool has the free pointers that the queue has, in order.
pub pool_serves_fifo :
    {p : ObjectPool} {free : List ℕ} {programs : List (List Call)} {s : System Members Call Place}
    {b : List Reply × List ℕ}
    → Holds p free
    → Reach under_mutex (some (p, [])) programs s
    → AtRest s.clients
    → answers p.pool_size [] free s.done ≡ some b
    → Leaves p.pool_size b.0 b.1 s.shared
pool_serves_fifo {p} {s = s} {b = b} h r rest e =
    let (base, serial, shows) = calls_serialise r in
    subst (Leaves p.pool_size b.0 b.1) (sym (settled-base s.clients shows rest))
      (Serial-Leaves h serial e)
