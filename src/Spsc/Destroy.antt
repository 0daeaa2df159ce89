-- ===== src/Spsc/Destroy.antt =====
-- The destructor: it stops the queue and destroys what is left in it.
use sync_tools.Prelude.{ℕ, zero, suc, ◌<◌, ◌≡◌, refl, some, List, [], ◌∷◌, arith, length}
use sync_tools.Prelude.Words.{IsPow2}
use sync_tools.Fifo.{stopped}
use sync_tools.Spsc.Queue.{Queue, drain, destroy}
use sync_tools.Spsc.Holds.{Holds, Holds-popped, Holds-status}
use sync_tools.Spsc.Refine.{try_pop_nil, try_pop_cons}

module _ {ℓ} {A : Type ℓ} {size : ℕ} (p : IsPow2 size) where
  drain_lem :
      (fuel : ℕ) (c : List A) {q : Queue A}
      → length c < fuel
      → Holds size q c
      → (q' : Queue A) × (drain size fuel q ≡ some (c, q'))
        × Holds size q' []
        × (q'.status ≡ q.status)
  unfolding drain
  drain_lem zero c h r = elim h [ ]
  drain_lem (suc fuel) [] {q} h r = (q, rw (try_pop_nil p r), r, refl)
  drain_lem (suc fuel) (x ∷ c) {q} h r =
      let (q', e, r', s) = drain_lem fuel c (omega arith) (Holds-popped p x c r) in
      (q', rw (try_pop_cons p x c r, e), r', s)

  -- On a queue that holds the elements `c`, with more rounds than elements, the destructor's loop
  -- ends without undefined behaviour; it has destroyed each element once, oldest first, no slot
  -- holds an object, and the queue is stopped.
  pub destroy_drains :
      (fuel : ℕ) (c : List A) {q : Queue A}
      → length c < fuel
      → Holds size q c
      → (q' : Queue A) × (destroy size fuel q ≡ some (c, q'))
        × Holds size q' []
        × (q'.status ≡ stopped)
  unfolding destroy
  destroy_drains fuel c h r = drain_lem fuel c h (Holds-status stopped r)
