-- ===== src/Pool/Guarded/Steps.antt =====
-- Each access that a call makes under the mutex leaves fewer to make.
use sync_tools.Prelude.{
  ℕ, min, ◌≤◌, ◌<◌, Option, none, some, ◌==◌, arith, Bool-cases, Option-cases, inl, inr, get_elem?,
}
use sync_tools.Mutex.Guard.Whole.{Bounded}
use sync_tools.Pool.Blocks.{write_at}
use sync_tools.Pool.ObjectPool.{copy_out, copy_in}
use sync_tools.Pool.Guarded.{Call, acquire, Place, Members, under_mutex, begin_at, advance_members}

abbrev left : Option Place → ℕ
left none = 0
left (some Place.test_count) = 4
left (some Place.load_pointer) = 3
left (some (Place.move_head obj)) = 2
left (some (Place.count_down obj)) = 1
left (some (Place.load_tail obj)) = 3
left (some (Place.store_pointer obj tail)) = 2
left (some Place.count_up) = 1
left (some (Place.load_count max_count)) = 4
left (some (Place.copy_pointers num)) = 3
left (some (Place.move_head_by num out)) = 2
left (some (Place.count_down_by num out)) = 1
left (some (Place.store_batch items)) = 2
left (some (Place.count_up_by num)) = 1

left_pos : (l : Place) → 0 < left (some l)
left_pos Place.test_count = omega arith
left_pos _ = omega arith

left-advance_members : (l : Place) (d : Members) → left (advance_members l d).0 < left (some l)
left-advance_members l none = left_pos l
left-advance_members Place.test_count (some m) = elim (Bool-cases (m.0.available_count == 0)) [
  | inl e ↦ rw e (omega arith)
  | inr e ↦ rw e (omega arith)
]
left-advance_members Place.load_pointer (some m) =
    elim (Option-cases (get_elem? m.0.available m.0.head_index)) [
      | inl e ↦ rw e (omega arith)
      | inr (obj, e) ↦ rw e (omega arith)
    ]
left-advance_members (Place.store_pointer obj tail) (some m) =
    elim (Option-cases (write_at m.0.available tail obj)) [
      | inl e ↦ rw e (omega arith)
      | inr (cells, e) ↦ rw e (omega arith)
    ]
left-advance_members (Place.load_count max_count) (some m) =
    elim (Bool-cases (min max_count m.0.available_count == 0)) [
      | inl e ↦ rw e (omega arith)
      | inr e ↦ rw e (omega arith)
    ]
left-advance_members (Place.copy_pointers num) (some m) = elim (Option-cases (copy_out m.0 num)) [
  | inl e ↦ rw e (omega arith)
  | inr (out, e) ↦ rw e (omega arith)
]
left-advance_members (Place.store_batch items) (some m) = elim (Option-cases (copy_in m.0 items)) [
  | inl e ↦ rw e (omega arith)
  | inr (cells, e) ↦ rw e (omega arith)
]
left-advance_members _ (some m) = omega arith

left-begin_at : (c : Call) → left (some (begin_at c)) ≤ 4
left-begin_at acquire = omega arith
left-begin_at _ = omega arith

pub bounded : Bounded under_mutex 4
bounded = record { left = left; begins = left-begin_at; goes_on = left-advance_members }
