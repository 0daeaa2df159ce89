-- ===== src/Spsc/Threads/Missed.antt =====
-- `blocking_pop` beside a producer that pushes and then calls `stop()`, as the clients under
-- examples/ do: the loads of the status come after the `try_pop` that found the queue empty.
use sync_tools.Prelude.{
  ℕ, suc, ◌+◌, ◌<◌, ◌≡◌, refl, sym, ◌∙◌, ap, List, [], ◌∷◌, ◌++◌, arith, length, append-nil,
  append_assoc, length-snoc, subst, false, ◌≢◌, ◌==◌, ==_iff, ==-eq_false,
}
use sync_tools.Prelude.Words.{IsPow2}
use sync_tools.Fifo.{running, stopped}
use sync_tools.Spsc.Queue.{Queue, new_queue, next_index}
use sync_tools.Spsc.Holds.{Holds, pushed, full_test, construct-head}
use sync_tools.Spsc.Threads.{
  Producer, Consumer, non_blocking, blocking, ProducerMove, ConsumerMove, System, produce, consume,
  set_status, Step, Reach, start, later, init,
}
use sync_tools.Spsc.Threads.Calls.{ConsumerRun, Reach-produce, Reach-consume, push_accepted}
use sync_tools.Spsc.Threads.Safety.{Reach-Inv}

module _ {ℓ} {A : Type ℓ} (size : ℕ) where
  -- The consumer has found the queue empty and not yet looked at the status; the producer, between
  -- its calls, has pushed `vs`.
  record Looked (vs : List A) : Type ℓ where
    queue : Queue A
    status : queue.status ≡ running
    reached : Reach size (record {
      queue = queue;
      producer = Producer.idle;
      consumer = Consumer.check_relaxed;
      pushed = vs;
      popped = [];
    })

module _ {ℓ} {A : Type ℓ} {size : ℕ} (pow : IsPow2 size) where
  Looked-empty : Looked {A = A} size []
  unfolding init new_queue
  Looked-empty = record {
    queue = new_queue A size;
    status = refl;
    reached = Reach-consume start (
        ConsumerRun.then
          (ConsumerRun.then (ConsumerRun.then ConsumerRun.rest (ConsumerMove.call blocking))
            ConsumerMove.loads_tail)
          (ConsumerMove.sees_empty refl));
  }

  called :
      {vs : List A} (l : Looked size vs) (p : Producer A)
      → ProducerMove size l.queue Producer.idle l.queue p []
      → Reach size (record {
        queue = l.queue;
        producer = p;
        consumer = Consumer.check_relaxed;
        pushed = vs;
        popped = [];
      })
  called {vs} l p m =
      subst
        (λ out. Reach size (record {
          queue = l.queue;
          producer = p;
          consumer = Consumer.check_relaxed;
          pushed = out;
          popped = [];
        }))
        (append-nil vs) (later l.reached (produce m))

  Looked-on :
      {vs : List A} (v : A) → Looked size vs → suc (length vs) < size → Looked size (vs ++ (v ∷ []))
  Looked-on {vs} v l room =
      let (c, inv) = Reach-Inv pow l.reached in
      let h : Holds size l.queue c = record {
        slots = rw (sym (append-nil c)) inv.slots;
        tail_in = inv.tail_in;
        room = inv.room;
        head_at = inv.head_at;
      } in
      let test : (next_index size l.queue.head == l.queue.tail) ≡ false =
        full_test pow h
        ∙ ==-eq_false (suc (length c)) size (omega (arith, room, ap length inv.order)) in
      let free : next_index size l.queue.head ≢ l.queue.tail =
        λ e. cc (test, (==_iff (next_index size l.queue.head) l.queue.tail).1 e) in
      record {
        queue = pushed size l.queue v;
        status = l.status;
        reached =
            Reach-produce
              (called l (Producer.load_status non_blocking v) (ProducerMove.call non_blocking v))
              (push_accepted size non_blocking l.queue v l.status free (construct-head pow h v));
      }

  Looked-all :
      (vs ws : List A) → Looked size vs → length vs + length ws < size → Looked size (vs ++ ws)
  Looked-all vs [] l room = rw append-nil l
  Looked-all vs (w ∷ ws) l room = rw (sym (append_assoc vs (w ∷ []) ws)) (
      Looked-all (vs ++ (w ∷ [])) ws (Looked-on w l (omega arith))
        (omega (arith, length-snoc vs w)))

  -- Where `_size` is a power of two: for any values, fewer than `_size`, there is a reachable state
  -- where the producer is in no call and has pushed them all, the status is `Stopped`, nothing was
  -- popped, and the next access of the consumer makes `blocking_pop` return null.
  pub stop_hides_values :
      (vs : List A)
      → length vs < size
      → (s t : System A) × Reach size s
        × Step size s t
        × (s.consumer ≡ Consumer.check_acquire)
        × (t.consumer ≡ Consumer.idle)
        × (t.producer ≡ Producer.idle)
        × (t.queue.status ≡ stopped)
        × (t.pushed ≡ vs)
        × (t.popped ≡ [])
  stop_hides_values vs h =
      let l = Looked-all [] vs Looked-empty (omega arith) in
      let r =
        later (later l.reached (set_status stopped)) (consume (ConsumerMove.first_stopped refl)) in
      (_, _, r, consume (ConsumerMove.second_stopped refl), refl, refl, refl, refl, refl, refl)
