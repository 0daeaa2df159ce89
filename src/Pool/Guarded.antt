-- ===== src/Pool/Guarded.antt =====
-- The member functions of `ObjectPool<T>` between the lock of `_mutex` and its unlock, access by
-- access: each load of a member into a local variable, each test of one and each store to one. The
-- constructor calls of `acquire` and `acquire_batch`, which run before the unlock, and the destructor
-- calls of `release` and `release_batch`, which run before the lock, make no access to the members.
-- `release_batch` of no pointers returns before it locks; here it locks and changes nothing.
mod Steps
mod FreeList
mod Whole
pub mod Fifo
mod Tests
use sync_tools.Prelude.{
  ℕ, min, Option, none, some, List, [], ◌∷◌, ◌++◌, ◌==◌, if◌then◌else◌, length, get_elem?,
}
use sync_tools.Prelude.Words.{add_size, sub_size, mask}
use sync_tools.Storage.{◌>>=◌}
use sync_tools.Mutex.Guard.{Guarded}
use sync_tools.Pool.Blocks.{write_at}
use sync_tools.Pool.ObjectPool.{ObjectPool, tail_index, copy_out, copy_in}

pub data Call : Type 0 where
  acquire : Call
  release : (obj : ℕ) → Call
  acquire_batch : (max_count : ℕ) → Call
  release_batch : (items : List ℕ) → Call

-- What a call hands back: a pointer or null, the pointers of a batch, or nothing.
pub data Reply : Type 0 where
  pointer : Option ℕ → Reply
  batch : List ℕ → Reply
  given_back : Reply

-- Where a call stands, with its live local variables.
pub data Place : Type 0 where
  test_count : Place  -- `acquire`
  load_pointer : Place
  move_head : (obj : ℕ) → Place
  count_down : (obj : ℕ) → Place
  load_tail : (obj : ℕ) → Place  -- `release`
  store_pointer : (obj tail : ℕ) → Place
  count_up : Place
  load_count : (max_count : ℕ) → Place  -- `acquire_batch`
  copy_pointers : (num : ℕ) → Place
  move_head_by : (num : ℕ) → (out : List ℕ) → Place
  count_down_by : (num : ℕ) → (out : List ℕ) → Place
  store_batch : (items : List ℕ) → Place  -- `release_batch`
  count_up_by : (num : ℕ) → Place

abbrev pub begin_at : Call → Place
begin_at acquire = test_count
begin_at (release obj) = load_tail obj
begin_at (acquire_batch max_count) = load_count max_count
begin_at (release_batch items) = store_batch items

-- The members, and the replies of the calls that are over, in order. `none` after an access outside
-- an array.
abbrev pub Members : Type 0
Members = Option (ObjectPool × List Reply)

abbrev pub steps_to : Place → ObjectPool → List Reply → Option Place × Members
steps_to next p log = (some next, some (p, log))

abbrev pub replies : Reply → ObjectPool → List Reply → Option Place × Members
replies r p log = (none, some (p, log ++ (r ∷ [])))

abbrev pub undefined : Option Place × Members
undefined = (none, none)

abbrev pub loads : Option ℕ → ObjectPool → List Reply → Option Place × Members
loads none p log = undefined
loads (some obj) p log = steps_to (move_head obj) p log

abbrev pub loads_batch : ℕ → Option (List ℕ) → ObjectPool → List Reply → Option Place × Members
loads_batch num none p log = undefined
loads_batch num (some out) p log = steps_to (move_head_by num out) p log

abbrev pub stores : Place → Option (List ℕ) → ObjectPool → List Reply → Option Place × Members
stores next none p log = undefined
stores next (some cells) p log = steps_to next (record p { available = cells }) log

abbrev pub advance_pool : Place → ObjectPool → List Reply → Option Place × Members
advance_pool test_count p log =
    if p.available_count == 0 then replies (pointer none) p log else steps_to load_pointer p log
advance_pool load_pointer p log = loads (get_elem? p.available p.head_index) p log
advance_pool (move_head obj) p log =
    steps_to (count_down obj) (record p { head_index = mask p.pool_size (add_size p.head_index 1) })
      log
advance_pool (count_down obj) p log =
    replies (pointer (some obj)) (record p { available_count = sub_size p.available_count 1 }) log
advance_pool (load_tail obj) p log = steps_to (store_pointer obj (tail_index p)) p log
advance_pool (store_pointer obj tail) p log = stores count_up (write_at p.available tail obj) p log
advance_pool count_up p log =
    replies given_back (record p { available_count = add_size p.available_count 1 }) log
advance_pool (load_count max_count) p log =
    let num = min max_count p.available_count in
    if num == 0 then replies (batch []) p log else steps_to (copy_pointers num) p log
advance_pool (copy_pointers num) p log = loads_batch num (copy_out p num) p log
advance_pool (move_head_by num out) p log =
    steps_to (count_down_by num out)
      (record p { head_index = mask p.pool_size (add_size p.head_index num) }) log
advance_pool (count_down_by num out) p log =
    replies (batch out) (record p { available_count = sub_size p.available_count num }) log
advance_pool (store_batch items) p log = stores (count_up_by (length items)) (copy_in p items) p log
advance_pool (count_up_by num) p log =
    replies given_back (record p { available_count = add_size p.available_count num }) log

abbrev pub advance_members : Place → Members → Option Place × Members
advance_members l none = undefined
advance_members l (some m) = advance_pool l m.0 m.1

abbrev pub under_mutex : Guarded Members Call Place
under_mutex = record { begin = begin_at; advance = advance_members }
