-- ===== src/Mpsc/Threads/Consume.antt =====
-- Each access by the consumer keeps the invariant.
use sync_tools.Prelude.{
  ℕ, suc, ◌+◌, ◌^◌, ◌≤◌, ◌<◌, ◌≡◌, refl, sym, subst, none, some, List, [], ◌∷◌, ◌++◌, arith,
  append-nil,
}
use sync_tools.Prelude.Words.{IsPow2, add_size}
use sync_tools.Spsc.Threads.{Mode, non_blocking, blocking}
use sync_tools.Mpsc.Queue.{Queue, diff, same}
use sync_tools.Mpsc.Threads.{
  Producer, Consumer, ConsumerMove, CellOf, put_cell, pop_failed, call, loads_tail, sees_object,
  sees_none, stores_tail, takes, releases, first_running, first_stopped, second_running,
  second_stopped,
}
use sync_tools.Mpsc.Threads.Invariant.{taken, Published, Inv}
use sync_tools.Mpsc.Threads.Facts.{same-Published}
use sync_tools.Mpsc.Threads.Take.{Inv-still, Inv-take, Inv-release}

-- An access that gives nothing back.
nothing_popped {ℓ} :
    {A : Type ℓ} {size h r : ℕ} {q : Queue A} {ps : ℕ → Producer A} {k : Consumer A}
    {claimed popped : List A}
    → Inv size h r q ps k claimed popped
    → (r' : ℕ) × Inv size h r' q ps k claimed (popped ++ [])
nothing_popped {size = size} {h} {r} {q} {ps} {k} {claimed} {popped} inv =
    (r, subst (λ l. Inv size h r q ps k claimed l) (sym (append-nil popped)) inv)

module _ {ℓ} {A : Type ℓ} {size h r : ℕ} (pow : IsPow2 size) (two : 2 ≤ size)
    (b : h + size < 2 ^ 63) {q : Queue A} {ps : ℕ → Producer A} {claimed popped : List A} where
  fails :
      {k : Consumer A} (m : Mode)
      → Inv size h r q ps k claimed popped
      → taken k r ≡ r
      → q.tail ≡ r
      → (r' : ℕ) × Inv size h r' q ps (pop_failed m) claimed (popped ++ [])
  fails non_blocking inv kept at = nothing_popped (Inv-still inv Consumer.idle q.tail kept at tt)
  fails blocking inv kept at =
      nothing_popped (Inv-still inv Consumer.check_relaxed q.tail kept at tt)

  pub ConsumerMove-Inv :
      {k k' : Consumer A} {q' : Queue A} {out : List A}
      → Inv size h r q ps k claimed popped
      → ConsumerMove size q k q' k' out
      → (r' : ℕ) × Inv size h r' q' ps k' claimed (popped ++ out)
  ConsumerMove-Inv inv (call m) =
      nothing_popped (Inv-still inv (Consumer.load_tail m) q.tail refl inv.tail_at tt)
  ConsumerMove-Inv inv (loads_tail {m}) = nothing_popped (
      Inv-still inv (Consumer.load_seq m q.tail) q.tail refl inv.tail_at
        (record { here = inv.tail_at }))
  ConsumerMove-Inv inv (sees_object {m} {pos} {c} here d) =
      let e : pos ≡ r = inv.consumer_knows.here in
      let f : (r < h) × Published size q.cells claimed r =
        same-Published pow inv two b refl (subst (λ n. CellOf size q n c) e here)
          (subst (λ n. diff c.seq (add_size n 1) ≡ some same) e d) in
      nothing_popped
        (Inv-still inv (Consumer.store_tail m pos) q.tail refl inv.tail_at (e, f.0, f.1))
  ConsumerMove-Inv inv (sees_none {m} _ _ _) = fails m inv refl inv.tail_at
  ConsumerMove-Inv inv (stores_tail {m} {pos}) =
      let e : pos ≡ r = inv.consumer_knows.0 in
      nothing_popped (
        Inv-still inv (Consumer.take_object m pos) (add_size pos 1) refl
          (omega (arith, inv.consumer_knows.1)) inv.consumer_knows)
  ConsumerMove-Inv inv (takes {m} {pos} {c} {v} here full) =
      let e : r ≡ pos = sym inv.consumer_knows.0 in
      nothing_popped (
        subst
          (λ n.
            Inv size h r (put_cell size q n (record c { storage = none })) ps
              (Consumer.store_seq m n v) claimed popped)
          e
          (Inv-take pow (subst (λ n. CellOf size q n c) (sym e) here)
            (subst (λ n. Inv size h r q ps (Consumer.take_object m n) claimed popped) (sym e) inv)
            full))
  ConsumerMove-Inv inv (releases {m} {pos} {c} {v} here) =
      let e : r ≡ pos = sym inv.consumer_knows.0 in
      (
        suc r,
        subst
            (λ n.
              Inv size h (suc r) (put_cell size q n (record c { seq = add_size n size })) ps
                Consumer.idle claimed (popped ++ (v ∷ [])))
            e
            (Inv-release pow (subst (λ n. CellOf size q n c) (sym e) here) b (
              subst (λ n. Inv size h r q ps (Consumer.store_seq m n v) claimed popped) (sym e)
                inv)),
      )
  ConsumerMove-Inv inv (first_stopped _) =
      nothing_popped (Inv-still inv Consumer.check_acquire q.tail refl inv.tail_at tt)
  ConsumerMove-Inv inv (first_running _) =
      nothing_popped (Inv-still inv (Consumer.load_tail blocking) q.tail refl inv.tail_at tt)
  ConsumerMove-Inv inv (second_stopped _) =
      nothing_popped (Inv-still inv Consumer.idle q.tail refl inv.tail_at tt)
  ConsumerMove-Inv inv (second_running _) =
      nothing_popped (Inv-still inv (Consumer.load_tail blocking) q.tail refl inv.tail_at tt)
