-- ===== src/Mpsc/Tests.antt =====
-- The multi-producer single-consumer queue on concrete inputs.
use sync_tools.Prelude.{ℕ, ◌≡◌, refl, true, false, none, some, List, [], ◌∷◌, arith}
use sync_tools.Prelude.Words.{IsPow2}
use sync_tools.Storage.{ElementType, ◌>>=◌}
use sync_tools.Fifo
use sync_tools.Fifo.{Fifo, Op, Reply, running, stopped}
use sync_tools.Mpsc.Queue.{
  Queue, new_queue, run_ops, destroy, try_push, try_push_move, try_pop, try_pop_into, publish,
}
use sync_tools.Mpsc.Holds.{Holds, new_queue-Holds, Holds-pushed}
use sync_tools.Mpsc.Refine.{Refines, replies_as_fifo, new_queue-Refines}
use sync_tools.Mpsc.Blocking.{blocking_push, blocking_push_move, blocking_pop, blocking_pop_into}
use sync_tools.Mpsc.Overloads.{by_move, into, overloads_agree}
use sync_tools.Mpsc.Destroy.{destroy_empties}
use sync_tools.Mpsc.Limits.{single_cell_loses}

two_cells : IsPow2 2
two_cells = record { exponent = 1; is_pow = refl; fits = omega arith }

one_cell : IsPow2 1
one_cell = record { exponent = 0; is_pow = refl; fits = omega arith }

abbrev numbers : ElementType ℕ
numbers = record { is_move_constructible = true; is_move_assignable = true; moved_from = λ n. 0 }

abbrev script : List (Op ℕ)
script =
    Op.try_push 1
    ∷ Op.try_push_move 2
    ∷ Op.try_push_move 3
    ∷ Op.full
    ∷ Op.try_pop
    ∷ Op.try_push 4
    ∷ Op.stop
    ∷ Op.try_push 5
    ∷ Op.size
    ∷ Op.try_pop_into 9
    ∷ Op.try_pop
    ∷ Op.try_pop
    ∷ []

script_replies :
    (Fifo.run_ops 2 numbers script (record { items = []; status = running })).0
    ≡ Reply.pushed true
      ∷ Reply.pushed_move true 0
      ∷ Reply.pushed_move false 3
      ∷ Reply.flag true
      ∷ Reply.popped (some 1)
      ∷ Reply.pushed true
      ∷ Reply.done
      ∷ Reply.pushed false
      ∷ Reply.count 2
      ∷ Reply.popped_into true 2
      ∷ Reply.popped (some 4)
      ∷ Reply.popped none
      ∷ []
unfolding Fifo.run_ops Fifo.step
script_replies = refl

replies_as_fifo_example :
    let (rs, f) = Fifo.run_ops 2 numbers script (record { items = []; status = running }) in
    (q' : Queue ℕ) × (run_ops 2 1 numbers script (new_queue ℕ 2) ≡ some (rs, q')) × Refines 2 q' f
unfolding new_queue
replies_as_fifo_example =
    replies_as_fifo two_cells (omega arith) 0 numbers script (new_queue-Refines two_cells)
      (omega arith)

abbrev holding_seven : Queue ℕ
holding_seven = publish 2 0 7 (record {
  cells = record { seq = 0; storage = none } ∷ record { seq = 1; storage = none } ∷ [];
  head = 0;
  tail = 0;
  status = running;
})

destroy_empties_example :
    (q' : Queue ℕ) × (destroy 2 2 holding_seven ≡ some (7 ∷ [], q'))
    × Holds 2 q' []
    × (q'.status ≡ stopped)
unfolding new_queue
destroy_empties_example =
    destroy_empties two_cells 2 (7 ∷ []) (omega arith) (omega arith)
      (Holds-pushed two_cells 7 (new_queue-Holds two_cells) (omega arith) (omega arith))

abbrev one_element : Queue ℕ
one_element = publish 1 0 7 (record {
  cells = record { seq = 0; storage = none } ∷ [];
  head = 0;
  tail = 0;
  status = running;
})

one_element-Holds : Holds 1 one_element (7 ∷ [])
unfolding new_queue
one_element-Holds = Holds-pushed one_cell 7 (new_queue-Holds one_cell) (omega arith) (omega arith)

single_cell_loses_example :
    (q' : Queue ℕ) × (try_push 1 1 one_element 8 ≡ some (true, q'))
    × (try_pop 1 q' ≡ some (none, q'))
single_cell_loses_example = single_cell_loses 7 8 0 one_element-Holds refl (omega arith)

overloads_agree_example :
    (try_push_move 2 1 numbers holding_seven 8
      ≡ (try_push 2 1 holding_seven 8 >>= λ r. some (by_move numbers 8 r)))
    × (blocking_push_move 2 1 3 numbers holding_seven 8
        ≡ (blocking_push 2 1 3 holding_seven 8 >>= λ r. some (by_move numbers 8 r)))
    × (try_pop_into 2 holding_seven 9 ≡ (try_pop 2 holding_seven >>= λ r. some (into 9 r)))
    × (blocking_pop_into 2 3 holding_seven 9
        ≡ (blocking_pop 2 3 holding_seven >>= λ r. some (into 9 r)))
overloads_agree_example = overloads_agree 2 1 3 numbers holding_seven 8 9
