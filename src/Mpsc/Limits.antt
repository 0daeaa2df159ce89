-- ===== src/Mpsc/Limits.antt =====
-- Where the sequence numbers let the queue down: a single cell, and positions at `2 ^ 63`.
use sync_tools.Prelude.{
  ℕ, suc, ◌+◌, ◌-◌, ◌^◌, ◌<◌, ◌≡◌, refl, ◌∙◌, ap, ap₂, true, none, some, [], ◌∷◌, ◌==◌, arith,
  get_elem?, set, get_elem?-set, ==_iff,
}
use sync_tools.Prelude.Words.{add_size, mask, mask-eq-mod, IsPow2}
use sync_tools.Fifo.{running, is_stopped}
use sync_tools.Mpsc.Queue.{
  Cell, Queue, try_push, try_pop, push_from, publish, diff, sign_of, same, positive,
}
use sync_tools.Mpsc.Holds.{Holds, diff_lem, head_full, tail_nil}
use sync_tools.Mpsc.Refine.{diff_same}

one : IsPow2 1
one = record { exponent = 0; is_pow = refl; fits = omega arith }

diff_positive : (a b : ℕ) → b < a → a < 2 ^ 63 → diff a b ≡ some positive
diff_positive a b h k =
    let e : sign_of a b ≡ positive = ground arith in diff_lem a b k (omega arith) ∙ ap some e

mask_one : (i : ℕ) → mask 1 i ≡ 0
mask_one i = mask-eq-mod one i ∙ omega arith

module _ {ℓ} {A : Type ℓ} where
  -- In a running queue of one cell, a push onto a queue that holds an element succeeds, and then
  -- `try_pop` finds nothing: the cell's number is that of neither element.
  pub single_cell_loses :
      (x v : A) (fuel : ℕ) {q : Queue A}
      → Holds 1 q (x ∷ [])
      → q.status ≡ running
      → q.head + 1 < 2 ^ 63
      → (q' : Queue A) × (try_push 1 (suc fuel) q v ≡ some (true, q'))
        × (try_pop 1 q' ≡ some (none, q'))
  unfolding try_push push_from try_pop
  single_cell_loses x v fuel {q} h s b =
      let (w, e) = head_full one h refl in
      let cell : Cell A = record { seq = add_size q.head 1; storage = some v } in
      let found : get_elem? (set q.cells (mask 1 q.head) cell) (mask 1 q.tail) ≡ some cell =
        rw (mask_one q.head, mask_one q.tail)
          (get_elem?-set q.cells 0 0 cell (omega (arith, h.long))) in
      let past : diff (add_size q.head 1) (add_size q.tail 1) ≡ some positive =
        ap₂ diff (omega arith) (omega (arith, h.head_at))
        ∙ diff_positive (q.head + 1) q.head (omega arith) b in
      let pop_none : try_pop 1 (publish 1 q.head v q) ≡ some (none, publish 1 q.head v q) =
        rw (found, past) in
      let t : (q.head == q.head) ≡ true = (==_iff q.head q.head).1 refl in
      let d : diff (q.tail + 1) q.head ≡ some same =
        ap (λ k. diff k q.head) (omega (arith, h.head_at)) ∙ diff_same q.head (omega arith) in
      (publish 1 q.head v q, rw (ap is_stopped s, e, d, t), pop_none)

  -- On an empty queue whose next position is the last below `2 ^ 63`, the difference that `try_pop`
  -- computes is not an `intptr_t`: undefined behaviour.
  pub try_pop_overflows :
      {size : ℕ} {q : Queue A}
      → IsPow2 size
      → Holds size q []
      → q.tail ≡ 2 ^ 63 - 1
      → try_pop size q ≡ none
  unfolding try_pop diff
  try_pop_overflows {size} {q} p h e = rw (tail_nil p h, e)
