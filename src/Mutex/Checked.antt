-- ===== src/Mutex/Checked.antt =====
-- include/sync_tools/mutex.hpp built with `SYNC_TOOLS_ENABLE_DEADLOCK_CHECKS`: `_owner` and
-- `_owner_set`, the loads and assertions before `lock`, `try_lock` and `unlock`, and the stores after
-- the mutex is acquired and before it is released. Each load and each store is one step, and a thread
-- may make any call at any time. `pthread_equal` holds of one thread only, and never of `pthread_t{}`.
mod Tests
mod Recorded
pub mod Safety
use sync_tools.Prelude.{
  ℕ, ◌≡◌, ◌≢◌, Bool, true, false, Option, none, some, List, ◌==◌, if◌then◌else◌, get_elem?, set,
  replicate,
}
use sync_tools.Mutex
use sync_tools.Mutex.{
  MutexState, unlocked, fast_path, trying, waiting, asleep, waking, swapping, critical,
}

-- The data members.
pub record Members : Type 0 where
  pub state : MutexState
  pub owner : Option ℕ
  pub owner_set : Bool

pub data Call : Type 0 where
  lock try_lock unlock : Call

-- Where a thread stands: what it does next. `mine` is whether it owns the mutex as it makes the call.
pub data Place : Type 0 where
  code : Mutex.Place → Place  -- in the code without the checks, or in no call and not the owner
  owning : Place  -- in no call, and the owner
  check_set : Call → (mine : Bool) → Place  -- the load of `_owner_set`
  check_owner : Call → (mine : Bool) → Place  -- the load of `_owner`, where `_owner_set` was true
  failed : Call → (mine : Bool) → Place  -- the assertion has failed
  store_owner : Place
  store_set : Place  -- the store of true to `_owner_set`, at the end of `lock` or `try_lock`
  clear_set : Place  -- the store of false, at the start of `unlock`
  clear_owner : Place

-- `pthread_equal(_owner, pthread_self())`
abbrev pub is_self : ℕ → Option ℕ → Bool
is_self i none = false
is_self i (some j) = j == i

-- Where a call goes on after its check.
abbrev pub passed : Call → Place
passed lock = code fast_path
passed try_lock = code trying
passed unlock = clear_set

-- Whether the assertion is of the two loads, or, for `lock` and `try_lock`, of their negation.
abbrev pub judge : Call → (mine loads : Bool) → Place
judge unlock mine loads = if loads then passed unlock else failed unlock mine
judge c mine loads = if loads then failed c mine else passed c

-- The stores to `_owner` and `_owner_set` follow wherever the code acquires the mutex.
abbrev pub with_stores : Mutex.Place → Place
with_stores critical = store_owner
with_stores p = code p

-- The next access of thread `i`. `code critical` is the exchange in `unlock`. A thread that is in no
-- call, asleep, waking others or stopped by an assertion makes no access of its own.
unfoldable pub access : ℕ → Members → Place → Members × Place
unfolding Mutex.access
access i m (code p) =
    let (w, p') = Mutex.access m.state p in (record m { state = w }, with_stores p')
access i m owning = (m, owning)
access i m (check_set c mine) = (m, if m.owner_set then check_owner c mine else judge c mine false)
access i m (check_owner c mine) = (m, judge c mine (is_self i m.owner))
access i m (failed c mine) = (m, failed c mine)
access i m store_owner = (record m { owner = some i }, store_set)
access i m store_set = (record m { owner_set = true }, owning)
access i m clear_set = (record m { owner_set = false }, clear_owner)
access i m clear_owner = (record m { owner = none }, code critical)

pub record System : Type 0 where
  pub members : Members
  pub threads : List Place

-- One access, call or system call.
pub data Step (s : System) : System → Type 0 where
  call :
      (i : ℕ) (c : Call)
      → get_elem? s.threads i ≡ some (code Mutex.idle)
      → Step s (record s { threads = set s.threads i (check_set c false) })
  call_owning :
      (i : ℕ) (c : Call)
      → get_elem? s.threads i ≡ some owning
      → Step s (record s { threads = set s.threads i (check_set c true) })
  make_access :
      (i : ℕ) (p : Place)
      → get_elem? s.threads i ≡ some p
      → Step s (record {
        members = (access i s.members p).0;
        threads = set s.threads i (access i s.members p).1;
      })
  interrupt_wait :
      (i : ℕ)
      → get_elem? s.threads i ≡ some (code waiting)
      → Step s (record s { threads = set s.threads i (code swapping) })
  interrupt_sleep :
      (i : ℕ)
      → get_elem? s.threads i ≡ some (code asleep)
      → Step s (record s { threads = set s.threads i (code swapping) })
  wake_one :
      (i j : ℕ)
      → get_elem? s.threads i ≡ some (code waking)
      → get_elem? s.threads j ≡ some (code asleep)
      → Step s (record s { threads = set (set s.threads i (code Mutex.idle)) j (code swapping) })
  wake_none :
      (i : ℕ)
      → get_elem? s.threads i ≡ some (code waking)
      → ((j : ℕ) → get_elem? s.threads j ≢ some (code asleep))
      → Step s (record s { threads = set s.threads i (code Mutex.idle) })

-- `Mutex()`, with `n` threads
abbrev pub init : ℕ → System
init n = record {
  members = record { state = unlocked; owner = none; owner_set = false };
  threads = replicate n (code Mutex.idle);
}

pub data Reach (n : ℕ) : System → Type 0 where
  start : Reach n (init n)
  later : {s t : System} → Reach n s → Step s t → Reach n t
