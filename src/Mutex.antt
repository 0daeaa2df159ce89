-- ===== src/Mutex.antt =====
-- include/sync_tools/mutex.hpp: the futex-based mutex, without the optional deadlock checks and
-- ThreadSanitizer calls. One access to `_state`, or one system call, is one step.
mod Tally
mod Tests
pub mod Threads
pub mod Invariant
pub mod Safety
pub mod Checked
pub mod Guard
use sync_tools.Prelude.{
  ℕ, suc, ◌<◌, min, ◌^◌, bit_and, Bool, true, false, not, ◌==◌, ltb, if◌then◌else◌,
}

-- `enum class MutexState`
pub data MutexState : Type 0 where
  unlocked locked contended : MutexState

-- `static_cast<int>(state)`
abbrev pub to_int : MutexState → ℕ
to_int unlocked = 0
to_int locked = 1
to_int contended = 3

-- `compare_exchange_strong(expected, desired)`, with `expected` the value `Free`
abbrev pub compare_exchange_free : MutexState → MutexState → Bool × MutexState
compare_exchange_free unlocked desired = (true, desired)
compare_exchange_free w desired = (false, w)

-- `static_cast<int>(old) & static_cast<int>(MutexState::Locked)`
abbrev pub lock_bit : MutexState → Bool
lock_bit old = not (bit_and (to_int old) (to_int locked) == 0)

abbrev pub is_contended : MutexState → Bool
is_contended unlocked = false
is_contended locked = false
is_contended contended = true

-- `_spin_count`
abbrev pub spin_count : ℕ
spin_count = 22

-- The calls of `cpu_relax` before the compare-exchange of a spin: `1 << (spin < 10 ? spin : 10)`.
abbrev pub backoff : ℕ → ℕ
backoff spin = 2 ^ (if ltb spin 10 then spin else 10)

-- Where a thread stands: what it does next.
pub data Place : Type 0 where
  idle : Place  -- outside the mutex, in no call
  fast_path : Place  -- the compare-exchange of `lock`
  trying : Place  -- the compare-exchange of `try_lock`
  spinning : (spin : ℕ) → Place  -- head of the loop in `_lock_slow`
  swapping : Place  -- the exchange with `Contended` in `_lock_slow`
  waiting : Place  -- the system call of `_futex_wait`
  asleep : Place  -- in the kernel, on the futex
  critical : Place  -- owner of the mutex; the exchange in `unlock` comes next
  waking : Place  -- the system call of `_futex_wake`

-- The next access of a thread: the state of the mutex and its place after it. FUTEX_WAIT sleeps only
-- if the state is still `Contended`, and returns EAGAIN otherwise. A thread that is idle, asleep or
-- waking others makes no access of its own to `_state`.
unfoldable pub access : MutexState → Place → MutexState × Place
access w fast_path =
    let (got, w') = compare_exchange_free w locked in (w', if got then critical else spinning 0)
access w trying =
    let (got, w') = compare_exchange_free w locked in (w', if got then critical else idle)
access w (spinning spin) =
    let (got, w') = compare_exchange_free w locked in
    if ltb spin spin_count
    then (w', if got then critical else spinning (suc spin))
    else (w, swapping)
access w swapping = (contended, if lock_bit w then waiting else critical)
access w waiting = (w, if is_contended w then asleep else swapping)
access w critical = (unlocked, if is_contended w then waking else idle)
access w idle = (w, idle)
access w asleep = (w, asleep)
access w waking = (w, waking)
