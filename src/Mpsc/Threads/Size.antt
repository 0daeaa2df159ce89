-- ===== src/Mpsc/Threads/Size.antt =====
-- `size()` while other threads push and pop: its two loads are at different times.
use sync_tools.Prelude.{
  ℕ, ◌+◌, ◌^◌, ◌≤◌, ◌<◌, ◌⊎◌, inl, inr, List, arith, length, length-append, dec_lt,
}
use sync_tools.Prelude.Words.{IsPow2}
use sync_tools.Mpsc.Queue.{Cell, size_of}
use sync_tools.Mpsc.Threads.{Consumer, System, Step, produce, consume, set_status, Reach, later}
use sync_tools.Mpsc.Threads.Invariant.{tail_of, ConsumerKnows}
use sync_tools.Mpsc.Threads.Reachable.{Reach-Inv, claimed_grows}

module _ {ℓ} {A : Type ℓ} (size : ℕ) where
  -- A run from one state to another.
  pub data Run (s : System A) : System A → Type ℓ where
    now : Run s s
    then_step : {t u : System A} → Run s t → Step size t u → Run s u

module _ {ℓ} {A : Type ℓ} {size : ℕ} where
  Reach-run : {s t : System A} → Reach size s → Run size s t → Reach size t
  Reach-run reach now = reach
  Reach-run reach (then_step run step) = later (Reach-run reach run) step

  popped_grows : {s t : System A} → Step size s t → length s.popped ≤ length t.popped
  popped_grows (produce i e move) = omega arith
  popped_grows {s = s} (consume {out = out} move) = omega (arith, length-append s.popped out)
  popped_grows (set_status t) = omega arith

  run_grows :
      (pow : IsPow2 size) (two : 2 ≤ size) {s t : System A}
      → Run size s t
      → (length s.claimed ≤ length t.claimed) × (length s.popped ≤ length t.popped)
  run_grows pow two now = omega arith
  run_grows pow two (then_step run step) =
      let (a, b) = run_grows pow two run in
      omega (arith, claimed_grows pow two step, popped_grows step)

module _ {ℓ} {A : Type ℓ} (size h r : ℕ) (cells : List (Cell A)) (claimed : List A) where
  -- The tail is the oldest position, or the one after it.
  tail_range :
      (k : Consumer A)
      → r ≤ h
      → ConsumerKnows size h r cells claimed k
      → (r ≤ tail_of k r) × (tail_of k r ≤ h)
  tail_range (Consumer.store_seq m pos v) l o = omega (arith, o.1)
  tail_range (Consumer.take_object m pos) l o = omega (arith, o.1)
  tail_range (Consumer.store_tail m pos) l o = omega arith
  tail_range (Consumer.load_seq m pos) l o = omega arith
  tail_range (Consumer.load_tail m) l o = omega arith
  tail_range Consumer.idle l o = omega arith
  tail_range Consumer.check_relaxed l o = omega arith
  tail_range Consumer.check_acquire l o = omega arith

module _ {ℓ} {A : Type ℓ} {size : ℕ} (pow : IsPow2 size) (two : 2 ≤ size) {s t : System A} where
  -- For a `size` that is a power of two from 2 on, while positions stay below `2 ^ 63`: a call of
  -- `size()` that loads `_head` in one state and `_tail` in a later one returns at most `size` where
  -- the tail has not passed the head that it loaded; where it has, the subtraction wraps, to a number
  -- that is below `2 ^ 64` by no more than the number of claims.
  pub size_bounds :
      Reach size s
      → Run size s t
      → length t.claimed + size < 2 ^ 63
      → let seen = size_of (record t.queue { head = s.queue.head }) in
        ((t.queue.tail ≤ s.queue.head) × (seen ≤ size))
        ⊎ ((s.queue.head < t.queue.tail) × (2 ^ 64 ≤ seen + length t.claimed))
  unfolding size_of
  size_bounds reach run b =
      let grown = run_grows pow two run in
      let (h, r, inv) = Reach-Inv pow two reach (omega (arith, grown.0)) in
      let (h', r', inv') = Reach-Inv pow two (Reach-run reach run) b in
      let tail =
        tail_range size h' r' t.queue.cells t.claimed t.consumer inv'.behind inv'.consumer_knows in
      let room : s.queue.head ≤ t.queue.tail + size =
        omega (arith, inv.head_at, inv.room, inv.pops, inv'.pops, inv'.tail_at, tail.0, grown.1) in
      let top : t.queue.tail ≤ length t.claimed =
        omega (arith, inv'.tail_at, inv'.claims, tail.1) in
      elim (dec_lt s.queue.head t.queue.tail) [
        | yes passed ↦ inr (passed, omega arith)
        | no g ↦ inl (omega arith, omega (arith, inv.head_at, inv.claims, grown.0))
      ]
