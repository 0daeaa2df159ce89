-- ===== src/Mpsc/Threads/Produce.antt =====
-- Each access by a producer keeps the invariant.
use sync_tools.Prelude.{
  ℕ, suc, ◌+◌, ◌^◌, ◌≤◌, ◌<◌, ◌≡◌, refl, sym, ◌∙◌, ap, subst, none, List, [], ◌∷◌, ◌++◌, arith,
  append-nil,
}
use sync_tools.Prelude.Words.{IsPow2, add_size}
use sync_tools.Prelude.Family.{update}
use sync_tools.Spsc.Threads.{Mode, non_blocking, blocking}
use sync_tools.Mpsc.Queue.{Queue}
use sync_tools.Mpsc.Threads.{
  Producer, Consumer, ProducerMove, push_begun, push_failed, call, first_running, first_stopped,
  second_running, second_stopped, sees_running, sees_stopped, loads_head, sees_free, sees_full,
  sees_claimed, claims, claim_fails, constructs, publishes,
}
use sync_tools.Mpsc.Threads.Invariant.{in_flight, taken, ProducerKnows, Inv}
use sync_tools.Mpsc.Threads.Flight.{Inv-local, Inv-claim}
use sync_tools.Mpsc.Threads.Write.{producer_knows, Inv-construct, Inv-publish}
use sync_tools.Mpsc.Threads.Facts.{same_free}

-- A producer that has not claimed a cell.
grounded_begun {ℓ} : {A : Type ℓ} (m : Mode) (v : A) → in_flight (push_begun m v) ≡ none
grounded_begun non_blocking v = refl
grounded_begun blocking v = refl

grounded_failed {ℓ} : {A : Type ℓ} (m : Mode) (v : A) → in_flight (push_failed m v) ≡ none
grounded_failed non_blocking v = refl
grounded_failed blocking v = refl

-- An access that claims nothing.
nothing_claimed {ℓ} :
    {A : Type ℓ} {size h r : ℕ} {q : Queue A} {ps : ℕ → Producer A} {k : Consumer A}
    {claimed popped : List A}
    → Inv size h r q ps k claimed popped
    → (h' : ℕ) × Inv size h' r q ps k (claimed ++ []) popped
nothing_claimed {size = size} {h} {r} {q} {ps} {k} {claimed} {popped} inv =
    (h, subst (λ l. Inv size h r q ps k l popped) (sym (append-nil claimed)) inv)

module _ {ℓ} {A : Type ℓ} (size h r : ℕ) {q : Queue A} {ps : ℕ → Producer A} {k : Consumer A}
    {claimed popped : List A} (inv : Inv size h r q ps k claimed popped) (i : ℕ) where
  knows_begun :
      (m : Mode) (v : A) → ProducerKnows size h r q.cells claimed (taken k r) (push_begun m v)
  knows_begun non_blocking v = tt
  knows_begun blocking v = tt

  knows_failed :
      (m : Mode) (v : A) → ProducerKnows size h r q.cells claimed (taken k r) (push_failed m v)
  knows_failed non_blocking v = tt
  knows_failed blocking v = tt

  -- A producer without a cell stays without one.
  stays :
      {p : Producer A} (p' : Producer A)
      → ps i ≡ p
      → in_flight p ≡ none
      → in_flight p' ≡ none
      → ProducerKnows size h r q.cells claimed (taken k r) p'
      → (h' : ℕ) × Inv size h' r q (update ps i p') k (claimed ++ []) popped
  stays p' e a b knows =
      nothing_claimed (Inv-local inv i p' (b ∙ sym a ∙ ap in_flight (sym e)) knows)

module _ {ℓ} {A : Type ℓ} {size h r : ℕ} (pow : IsPow2 size) (two : 2 ≤ size)
    (b : h + size < 2 ^ 63) {q : Queue A} {ps : ℕ → Producer A} {k : Consumer A}
    {claimed popped : List A} (inv : Inv size h r q ps k claimed popped) (i : ℕ) where
  pub ProducerMove-Inv :
      {p p' : Producer A} {q' : Queue A} {out : List A}
      → ps i ≡ p
      → ProducerMove size q p q' p' out
      → (h' : ℕ) × Inv size h' r q' (update ps i p') k (claimed ++ out) popped
  ProducerMove-Inv e (call m v) =
      stays size h r inv i (push_begun m v) e refl (grounded_begun m v)
        (knows_begun size h r inv i m v)
  ProducerMove-Inv e (first_running _) = stays size h r inv i _ e refl refl tt
  ProducerMove-Inv e (first_stopped _) = stays size h r inv i _ e refl refl tt
  ProducerMove-Inv e (second_running _) = stays size h r inv i _ e refl refl tt
  ProducerMove-Inv e (second_stopped _) = stays size h r inv i _ e refl refl tt
  ProducerMove-Inv e (sees_running _) = stays size h r inv i _ e refl refl tt
  ProducerMove-Inv e (sees_stopped {m} {v} _) =
      stays size h r inv i (push_failed m v) e refl (grounded_failed m v)
        (knows_failed size h r inv i m v)
  ProducerMove-Inv e (loads_head {m} {v}) =
      stays size h r inv i (Producer.load_seq m v q.head) e refl refl
        (record { below = omega (arith, inv.head_at) })
  ProducerMove-Inv e (sees_free {m} {v} {pos} {c} here d) =
      stays size h r inv i (Producer.claim m v pos) e refl refl
        (record { below = same_free pow inv two b (producer_knows inv i e).below here d })
  ProducerMove-Inv e (sees_full {m} {v} _ _) =
      stays size h r inv i (push_failed m v) e refl (grounded_failed m v)
        (knows_failed size h r inv i m v)
  ProducerMove-Inv e (sees_claimed _ _) = stays size h r inv i _ e refl refl tt
  ProducerMove-Inv e (claim_fails {m} {v}) =
      stays size h r inv i (Producer.load_seq m v q.head) e refl refl
        (record { below = omega (arith, inv.head_at) })
  ProducerMove-Inv e (claims {m} {v} {pos} here) =
      let z : h ≡ pos = sym inv.head_at ∙ here in
      let room : pos < r + size = (producer_knows inv i e).below in
      (
        suc h,
        subst
            (λ n.
              Inv size (suc h) r (record q { head = add_size n 1 })
                (update ps i (Producer.construct m v n)) k (claimed ++ (v ∷ [])) popped)
            z (Inv-claim inv i m v (ap in_flight e) (omega arith) b),
      )
  ProducerMove-Inv e (constructs {m} {v} {pos} here) =
      nothing_claimed (Inv-construct pow inv i here e)
  ProducerMove-Inv e (publishes {m} {v} {pos} here) =
      nothing_claimed (Inv-publish pow inv i here b e)
