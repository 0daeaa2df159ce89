-- ===== src/Mutex/Threads.antt =====
-- Any number of threads on one mutex, interleaved in any order. The futex is the kernel's, as
-- futex(2) documents it: a wake-up lets one sleeper return, if there is one, and a wait may also be
-- interrupted. A thread calls `unlock` only while it owns the mutex, and `lock` and `try_lock` only
-- while it does not.
use sync_tools.Prelude.{ℕ, ◌≡◌, ◌≢◌, some, List, get_elem?, set, replicate}
use sync_tools.Mutex.{
  MutexState, unlocked, Place, idle, fast_path, trying, swapping, waiting, asleep, waking, access,
}

pub record System : Type 0 where
  pub state : MutexState
  pub threads : List Place

pub data Step (s : System) : System → Type 0 where
  call_lock :
      (i : ℕ)
      → get_elem? s.threads i ≡ some idle
      → Step s (record s { threads = set s.threads i fast_path })
  call_try_lock :
      (i : ℕ)
      → get_elem? s.threads i ≡ some idle
      → Step s (record s { threads = set s.threads i trying })
  make_access :
      (i : ℕ) (p : Place)
      → get_elem? s.threads i ≡ some p
      → Step s
          (record { state = (access s.state p).0; threads = set s.threads i (access s.state p).1 })
  interrupt_wait :
      (i : ℕ)
      → get_elem? s.threads i ≡ some waiting
      → Step s (record s { threads = set s.threads i swapping })
  interrupt_sleep :
      (i : ℕ)
      → get_elem? s.threads i ≡ some asleep
      → Step s (record s { threads = set s.threads i swapping })
  wake_one :
      (i j : ℕ)
      → get_elem? s.threads i ≡ some waking
      → get_elem? s.threads j ≡ some asleep
      → Step s (record s { threads = set (set s.threads i idle) j swapping })
  wake_none :
      (i : ℕ)
      → get_elem? s.threads i ≡ some waking
      → ((j : ℕ) → get_elem? s.threads j ≢ some asleep)
      → Step s (record s { threads = set s.threads i idle })

-- `Mutex()`, with `n` threads
abbrev pub init : ℕ → System
init n = record { state = unlocked; threads = replicate n idle }

pub data Reach (n : ℕ) : System → Type 0 where
  start : Reach n (init n)
  later : {s t : System} → Reach n s → Step s t → Reach n t
