-- ===== src/Mpsc/Destroy.antt =====
-- The destructor: it stops the queue and destroys what is left in it.
use sync_tools.Prelude.{ℕ, zero, suc, ◌+◌, ◌^◌, ◌<◌, ◌≡◌, refl, some, List, [], ◌∷◌, arith, length}
use sync_tools.Prelude.Words.{IsPow2}
use sync_tools.Fifo.{stopped}
use sync_tools.Mpsc.Queue.{Queue, drain, destroy}
use sync_tools.Mpsc.Holds.{Holds, Holds-popped, Holds-status}
use sync_tools.Mpsc.Refine.{try_pop_nil, try_pop_cons}

module _ {ℓ} {A : Type ℓ} {size : ℕ} (p : IsPow2 size) where
  drain_lem :
      (fuel : ℕ) (c : List A) {q : Queue A}
      → length c < fuel
      → q.head + size < 2 ^ 63
      → Holds size q c
      → (q' : Queue A) × (drain size fuel q ≡ some (c, q'))
        × Holds size q' []
        × (q'.status ≡ q.status)
  unfolding drain
  drain_lem zero c h b r = elim h [ ]
  drain_lem (suc fuel) [] {q} h b r = (q, rw (try_pop_nil p r b), r, refl)
  drain_lem (suc fuel) (x ∷ c) {q} h b r =
      let r' = Holds-popped p x c r (omega (arith, r.head_at)) in
      let (q', e, r'', s) = drain_lem fuel c (omega arith) b r' in
      (q', rw (try_pop_cons p x c r b, e), r'', s)

  -- On a queue that holds the elements `c`, with positions below `2 ^ 63` and more rounds than
  -- elements, the destructor's loop ends without undefined behaviour; it has destroyed each element
  -- once, oldest first, no cell holds an object, and the queue is stopped.
  pub destroy_empties :
      (fuel : ℕ) (c : List A) {q : Queue A}
      → length c < fuel
      → q.head + size < 2 ^ 63
      → Holds size q c
      → (q' : Queue A) × (destroy size fuel q ≡ some (c, q'))
        × Holds size q' []
        × (q'.status ≡ stopped)
  unfolding destroy
  destroy_empties fuel c h b r = drain_lem fuel c h b (Holds-status stopped r)
