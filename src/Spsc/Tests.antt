-- ===== src/Spsc/Tests.antt =====
-- The single-producer single-consumer queue on concrete inputs: a queue of 4 slots.
use sync_tools.Prelude.{
  ℕ, ◌<◌, ◌≡◌, ◌≢◌, refl, true, false, none, some, List, [], ◌∷◌, ◌++◌, arith, length,
}
use sync_tools.Prelude.Words.{IsPow2, mask}
use sync_tools.Storage.{ElementType, slot, construct_at}
use sync_tools.Fifo
use sync_tools.Fifo.{Fifo, Op, Reply, running, stopped, accepts}
use sync_tools.Spsc.Queue.{Queue, new_queue, run_ops, destroy}
use sync_tools.Spsc.Holds.{Holds, new_queue-Holds, Holds-pushed, pushed}
use sync_tools.Spsc.Refine.{Refines, run_ops-Refines, new_queue-Refines}
use sync_tools.Spsc.Destroy.{destroy_drains}
use sync_tools.Spsc.Threads.{
  non_blocking, blocking, Producer, Consumer, Step, ProducerMove, ConsumerMove, System, produce,
  consume, Reach, start, later, init,
}
use sync_tools.Spsc.Threads.Safety.{popped_in_order, no_data_race, slot_use_is_safe, Access, Fits}
use sync_tools.Spsc.Threads.Calls.{ProducerRun, ConsumerRun, push_end, pop_end}
use sync_tools.Spsc.Threads.Alone.{calls_answer_as_fifo}
use sync_tools.Spsc.Threads.Missed.{stop_hides_values}
use sync_tools.Spsc.Threads.Progress.{
  try_calls_wait_free, InCall, CanMove, left_after, accesses_left,
}

four : IsPow2 4
four = record { exponent = 2; is_pow = refl; fits = omega arith }

abbrev numbers : ElementType ℕ
numbers = record { is_move_constructible = true; is_move_assignable = true; moved_from = λ n. 0 }

abbrev script : List (Op ℕ)
script =
    Op.try_push 1
    ∷ Op.try_push_move 2
    ∷ Op.try_push 3
    ∷ Op.try_push_move 4
    ∷ Op.full
    ∷ Op.try_pop
    ∷ Op.stop
    ∷ Op.try_push 5
    ∷ Op.size
    ∷ Op.try_pop_into 9
    ∷ Op.try_pop
    ∷ Op.try_pop
    ∷ []

script_replies :
    (Fifo.run_ops 3 numbers script (record { items = []; status = running })).0
    ≡ Reply.pushed true
      ∷ Reply.pushed_move true 0
      ∷ Reply.pushed true
      ∷ Reply.pushed_move false 4
      ∷ Reply.flag true
      ∷ Reply.popped (some 1)
      ∷ Reply.done
      ∷ Reply.pushed false
      ∷ Reply.count 2
      ∷ Reply.popped_into true 2
      ∷ Reply.popped (some 3)
      ∷ Reply.popped none
      ∷ []
unfolding Fifo.run_ops Fifo.step
script_replies = refl

run_ops-Refines_example :
    let (rs, f) = Fifo.run_ops 3 numbers script (record { items = []; status = running }) in
    (q' : Queue ℕ) × (run_ops 4 numbers script (new_queue ℕ 4) ≡ some (rs, q')) × Refines 4 q' f
run_ops-Refines_example = run_ops-Refines four numbers script (new_queue-Refines four)

destroy_drains_example :
    (q' : Queue ℕ) × (destroy 4 2 (pushed 4 (new_queue ℕ 4) 7) ≡ some (7 ∷ [], q'))
    × Holds 4 q' []
    × (q'.status ≡ stopped)
destroy_drains_example =
    destroy_drains four 2 (7 ∷ []) (omega arith)
      (Holds-pushed four (new_queue-Holds four) 7 (omega arith))

-- The producer is about to construct the object 8, with 7 in the queue that the consumer is about
-- to take out.
abbrev published : (s : System ℕ) × Reach 4 s
unfolding init new_queue mask construct_at
published = (
  _,
  later
      (later
        (later
          (later
            (later (later start (produce (ProducerMove.call non_blocking 7)))
              (produce (ProducerMove.sees_running refl)))
            (produce ProducerMove.loads_head))
          (produce (ProducerMove.sees_room (omega arith))))
        (produce (ProducerMove.constructs refl)))
      (produce ProducerMove.publishes),
)

abbrev contending : (s : System ℕ) × Reach 4 s
unfolding published init new_queue mask construct_at
contending = (
  _,
  later
      (later
        (later
          (later
            (later
              (later (later published.1 (produce (ProducerMove.call non_blocking 8)))
                (produce (ProducerMove.sees_running refl)))
              (produce ProducerMove.loads_head))
            (produce (ProducerMove.sees_room (omega arith))))
          (consume (ConsumerMove.call non_blocking)))
        (consume ConsumerMove.loads_tail))
      (consume (ConsumerMove.sees_object (omega arith))),
)

popped_in_order_example :
    (waiting : List ℕ) × (contending.0.popped ++ waiting ≡ contending.0.pushed)
    × (length waiting < 4)
popped_in_order_example = popped_in_order four contending.1

no_data_race_example : ◌≢◌ {A = ℕ} 1 0
unfolding contending
no_data_race_example = no_data_race four contending.1 refl refl

slot_use_is_safe_example :
    (0 < length contending.0.queue.buffer) × Fits true (slot contending.0.queue.buffer 0)
unfolding contending
slot_use_is_safe_example = slot_use_is_safe four contending.1 (Access.taking refl)

-- The queue has one element, and there is room for another.
calls_answer_as_fifo_example :
    (c : List ℕ) × (published.0.popped ++ c ≡ published.0.pushed)
    × (let b = accepts 3 (record { items = c; status = published.0.queue.status }) in
        (q : Queue ℕ) × ProducerRun 4 published.0.queue
          (Producer.load_status blocking 8)
          q
          (push_end blocking 8 b).0
          (push_end blocking 8 b).1)
    × (let x = (Fifo.pop c).0 in
        (q : Queue ℕ) × ConsumerRun 4 published.0.queue
          (Consumer.load_tail blocking)
          q
          (pop_end blocking x).0
          (pop_end blocking x).1)
unfolding published
calls_answer_as_fifo_example = calls_answer_as_fifo four blocking 8 published.1 refl refl

stop_hides_values_example :
    (s t : System ℕ) × Reach 4 s
    × Step 4 s t
    × (s.consumer ≡ Consumer.check_acquire)
    × (t.consumer ≡ Consumer.idle)
    × (t.producer ≡ Producer.idle)
    × (t.queue.status ≡ stopped)
    × (t.pushed ≡ 1 ∷ 2 ∷ [])
    × (t.popped ≡ [])
stop_hides_values_example = stop_hides_values four (1 ∷ 2 ∷ []) (omega arith)

try_calls_wait_free_example :
    CanMove 4 contending.0 true
    × ((m : CanMove 4 contending.0 true)
        → left_after 4 contending.0 true m < accesses_left contending.0 true)
unfolding contending
try_calls_wait_free_example = try_calls_wait_free four contending.1 (InCall.popping refl)
