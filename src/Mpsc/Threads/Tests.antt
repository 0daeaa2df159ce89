-- ===== src/Mpsc/Threads/Tests.antt =====
-- Two producers and the consumer on a queue of two cells.
use sync_tools.Prelude.{
  ℕ, ◌+◌, ◌-◌, ◌^◌, ◌≤◌, ◌<◌, ◌≡◌, refl, ◌⊎◌, Option, none, some, List, ◌++◌, arith, length,
  get_elem?,
}
use sync_tools.Prelude.Words.{IsPow2, add_size, mask}
use sync_tools.Prelude.Family.{update}
use sync_tools.Spsc.Threads.{non_blocking}
use sync_tools.Mpsc.Queue.{size_of, Cell, new_queue, diff, Sign}
use sync_tools.Mpsc.Threads.{
  ProducerMove, ConsumerMove, CellOf, System, produce, consume, Reach, start, later, init,
}
use sync_tools.Mpsc.Threads.Size.{Run, now, then_step, size_bounds}
use sync_tools.Mpsc.Threads.Safety.{
  Access, constructing, taking, Fits, claimed_in_order, accesses_are_exclusive, Access-is_safe,
}
use sync_tools.Mpsc.Threads.Answers.{PushMeans, PopMeans, push_reads, pop_reads}
use sync_tools.Mpsc.Threads.PushProgress.{
  ProducerCanMove, push_accesses, Spurious, try_push_lock_free,
}
use sync_tools.Mpsc.Threads.PopProgress.{ConsumerCanMove, pop_accesses, mpsc_try_pop_wait_free}

two : IsPow2 2
two = record { exponent = 1; is_pow = refl; fits = omega arith }

-- Producer 0 has pushed 7, producer 1 is about to read the cell of position 1, and the consumer that
-- of position 0.
abbrev reading : (s : System ℕ) × Reach 2 s
unfolding init new_queue mask diff update
reading = (
  _,
  (later
      (later
        (later
          (later
            (later
              (later
                (later
                  (later
                    (later
                      (later
                        (later (later start (produce 0 refl (ProducerMove.call non_blocking 7)))
                          (produce 0 refl (ProducerMove.sees_running refl)))
                        (produce 0 refl ProducerMove.loads_head))
                      (produce 0 refl (ProducerMove.sees_free refl refl)))
                    (produce 0 refl (ProducerMove.claims refl)))
                  (produce 0 refl (ProducerMove.constructs refl)))
                (produce 0 refl (ProducerMove.publishes refl)))
              (produce 1 refl (ProducerMove.call non_blocking 8)))
            (produce 1 refl (ProducerMove.sees_running refl)))
          (produce 1 refl ProducerMove.loads_head))
        (consume (ConsumerMove.call non_blocking)))
      (consume ConsumerMove.loads_tail)),
)

-- Producer 1 is about to construct 8, and the consumer to take 7 out.
abbrev working : (s : System ℕ) × Reach 2 s
unfolding reading init new_queue mask diff update
working = (
  _,
  (later
      (later
        (later (later reading.1 (produce 1 refl (ProducerMove.sees_free refl refl)))
          (produce 1 refl (ProducerMove.claims refl)))
        (consume (ConsumerMove.sees_object refl refl)))
      (consume ConsumerMove.stores_tail)),
)

constructs_8 : Access 2 working.0 (some 1) 1
unfolding working reading init mask update
constructs_8 = constructing refl refl

takes_7 : Access 2 working.0 none 0
unfolding working reading init mask update
takes_7 = taking refl refl

claimed_in_order_example :
    (rest : List ℕ) × (length rest ≤ 2) × (working.0.popped ++ rest ≡ working.0.claimed)
unfolding working reading init
claimed_in_order_example = claimed_in_order two (omega arith) working.1 (omega arith)

accesses_are_exclusive_example : ◌≡◌ {A = Option ℕ} (some 1) (some 1)
unfolding working reading init
accesses_are_exclusive_example =
    accesses_are_exclusive two (omega arith) working.1 (omega arith) constructs_8 constructs_8

Access-is_safe_example :
    (c : Cell ℕ) × (get_elem? working.0.queue.cells 0 ≡ some c) × Fits none c.storage
unfolding working reading init
Access-is_safe_example = Access-is_safe two (omega arith) working.1 (omega arith) takes_7

push_reads_example :
    (c : Cell ℕ) × (sign : Sign) × CellOf 2 reading.0.queue 1 c
    × (diff c.seq 1 ≡ some sign)
    × PushMeans 2 reading.0 c 1 sign
unfolding reading init update
push_reads_example = push_reads two (omega arith) reading.1 (omega arith) 1 refl

pop_reads_example :
    (c : Cell ℕ) × (sign : Sign) × CellOf 2 reading.0.queue 0 c
    × (diff c.seq (add_size 0 1) ≡ some sign)
    × PopMeans 2 reading.0 c sign
unfolding reading init
pop_reads_example = pop_reads two (omega arith) reading.1 (omega arith) refl

try_push_lock_free_example :
    ProducerCanMove 2 reading.0.queue (reading.0.producers 1)
    × ((m : ProducerCanMove 2 reading.0.queue (reading.0.producers 1))
        → (push_accesses m.0.head m.1 < push_accesses reading.0.queue.head (reading.0.producers 1))
          ⊎ Spurious reading.0.queue.head (reading.0.producers 1) m.1)
unfolding reading init update
try_push_lock_free_example = try_push_lock_free two (omega arith) reading.1 (omega arith) 1 refl

mpsc_try_pop_wait_free_example :
    ConsumerCanMove 2 reading.0.queue reading.0.consumer
    × ((m : ConsumerCanMove 2 reading.0.queue reading.0.consumer)
        → pop_accesses m.1 < pop_accesses reading.0.consumer)
unfolding reading init
mpsc_try_pop_wait_free_example =
    mpsc_try_pop_wait_free two (omega arith) reading.1 (omega arith) refl

-- The same steps, as a run from the new queue.
worked : Run 2 (init ℕ 2) working.0
unfolding working reading init new_queue mask diff update
worked =
    (then_step
      (then_step
        (then_step
          (then_step
            (then_step
              (then_step
                (then_step
                  (then_step
                    (then_step
                      (then_step
                        (then_step
                          (then_step
                            (then_step
                              (then_step
                                (then_step
                                  (then_step now
                                    (produce 0 refl (ProducerMove.call non_blocking 7)))
                                  (produce 0 refl (ProducerMove.sees_running refl)))
                                (produce 0 refl ProducerMove.loads_head))
                              (produce 0 refl (ProducerMove.sees_free refl refl)))
                            (produce 0 refl (ProducerMove.claims refl)))
                          (produce 0 refl (ProducerMove.constructs refl)))
                        (produce 0 refl (ProducerMove.publishes refl)))
                      (produce 1 refl (ProducerMove.call non_blocking 8)))
                    (produce 1 refl (ProducerMove.sees_running refl)))
                  (produce 1 refl ProducerMove.loads_head))
                (consume (ConsumerMove.call non_blocking)))
              (consume ConsumerMove.loads_tail))
            (produce 1 refl (ProducerMove.sees_free refl refl)))
          (produce 1 refl (ProducerMove.claims refl)))
        (consume (ConsumerMove.sees_object refl refl)))
      (consume ConsumerMove.stores_tail))

-- A thread that loads `_head` before them and `_tail` after them.
size_bounds_example :
    let seen = size_of (record working.0.queue { head = (init ℕ 2).queue.head }) in
    ((working.0.queue.tail ≤ (init ℕ 2).queue.head) × (seen ≤ 2))
    ⊎ (((init ℕ 2).queue.head < working.0.queue.tail) × (2 ^ 64 ≤ seen + length working.0.claimed))
unfolding working reading init
size_bounds_example = size_bounds two (omega arith) start worked (omega arith)

size_wraps : size_of (record working.0.queue { head = (init ℕ 2).queue.head }) ≡ 2 ^ 64 - 1
unfolding size_of working reading init new_queue update
size_wraps = refl
