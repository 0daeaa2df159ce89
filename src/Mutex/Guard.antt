-- ===== src/Mutex/Guard.antt =====
-- Clients of include/sync_tools/mutex.hpp that keep shared data behind a mutex, as the workers of
-- examples/mutex.cpp do with `std::scoped_lock`: each thread makes its calls one after the other, and
-- a call locks the mutex, makes its accesses to the data one by one, and unlocks. All threads are
-- interleaved at every access, to the mutex or to the data.
mod Holds
pub mod Serial
mod Calls
pub mod Whole
pub mod Counter
pub mod Schedule
mod Tests
use sync_tools.Prelude.{
  ℕ, ◌≡◌, Bool, true, false, not, Option, none, some, List, [], ◌∷◌, ◌++◌, get_elem?, set, map,
  length,
}
use sync_tools.Mutex
use sync_tools.Mutex.{fast_path, critical, access}
use sync_tools.Mutex.Threads
use sync_tools.Mutex.Threads.{
  call_lock, call_try_lock, make_access, interrupt_wait, interrupt_sleep, wake_one, wake_none,
}

-- What the calls do between `lock` and `unlock`: where a call begins, and one access to the shared
-- data, after which the call goes on, or is over.
pub record Guarded {ℓ} (Data Call Local : Type ℓ) : Type ℓ where
  pub begin : Call → Local
  pub advance : Local → Data → Option Local × Data

pub data Phase {ℓ} (Call Local : Type ℓ) : Type ℓ where
  outside : Phase Call Local
  wants : Call → Phase Call Local  -- in `lock`
  works : Call → Local → Phase Call Local
  leaves : Phase Call Local  -- about to call `unlock`

pub record Client {ℓ} (Call Local : Type ℓ) : Type ℓ where
  pub phase : Phase Call Local
  pub calls : List Call  -- still to be made

-- The mutex, the clients by the numbers of their threads, the data, and the calls that are over, in
-- the order in which they made their last access.
pub record System {ℓ} (Data Call Local : Type ℓ) : Type ℓ where
  pub mutex : Threads.System
  pub clients : List (Client Call Local)
  pub shared : Data
  pub done : List Call

abbrev pub is_critical : Mutex.Place → Bool
is_critical critical = true
is_critical _ = false

-- A step of the mutex that is neither the start of a call of `lock` or `try_lock` nor of `unlock`.
abbrev pub is_inner : {m m' : Threads.System} → Threads.Step m m' → Bool
is_inner (call_lock i e) = false
is_inner (call_try_lock i e) = false
is_inner (make_access i p e) = not (is_critical p)
is_inner (interrupt_wait i e) = true
is_inner (interrupt_sleep i e) = true
is_inner (wake_one i j e k) = true
is_inner (wake_none i e h) = true

module _ {ℓ} {Call Local : Type ℓ} where
  -- Where an access leads to, and the calls that are over by then.
  abbrev pub next_phase : Call → Option Local → Phase Call Local
  next_phase c none = leaves
  next_phase c (some l) = works c l

  abbrev pub over : Call → Option Local → List Call
  over c none = c ∷ []
  over c (some l) = []

module _ {ℓ} {Data Call Local : Type ℓ} (g : Guarded Data Call Local) where
  pub data Step (s : System Data Call Local) : System Data Call Local → Type ℓ where
    locks :
        (i : ℕ) (c : Call) (cs : List Call)
        → get_elem? s.clients i ≡ some (record { phase = outside; calls = c ∷ cs })
        → get_elem? s.mutex.threads i ≡ some Mutex.idle
        → Step s (record s {
          mutex = record s.mutex { threads = set s.mutex.threads i fast_path };
          clients = set s.clients i (record { phase = wants c; calls = cs });
        })
    waits :
        {m : Threads.System} (st : Threads.Step s.mutex m)
        → is_inner st ≡ true
        → Step s (record s { mutex = m })
    enters :
        (i : ℕ) (c : Call) (cs : List Call)
        → get_elem? s.clients i ≡ some (record { phase = wants c; calls = cs })
        → get_elem? s.mutex.threads i ≡ some critical
        → Step s (record s {
          clients = set s.clients i (record { phase = works c (g.begin c); calls = cs });
        })
    advances :
        (i : ℕ) (c : Call) (l : Local) (cs : List Call)
        → get_elem? s.clients i ≡ some (record { phase = works c l; calls = cs })
        → Step s (record s {
          clients =
              set s.clients i
                (record { phase = next_phase c (g.advance l s.shared).0; calls = cs });
          shared = (g.advance l s.shared).1;
          done = s.done ++ over c (g.advance l s.shared).0;
        })
    unlocks :
        (i : ℕ) (cs : List Call)
        → get_elem? s.clients i ≡ some (record { phase = leaves; calls = cs })
        → get_elem? s.mutex.threads i ≡ some critical
        → Step s (record s {
          mutex = record {
            state = (access s.mutex.state critical).0;
            threads = set s.mutex.threads i (access s.mutex.state critical).1;
          };
          clients = set s.clients i (record { phase = outside; calls = cs });
        })

  -- One thread for each list of calls.
  abbrev pub init : Data → List (List Call) → System Data Call Local
  init d programs = record {
    mutex = Threads.init (length programs);
    clients = map (λ cs. record { phase = outside; calls = cs }) programs;
    shared = d;
    done = [];
  }

  pub data Reach (d : Data) (programs : List (List Call)) : System Data Call Local → Type ℓ where
    start : Reach d programs (init d programs)
    later : {s t : System Data Call Local} → Reach d programs s → Step s t → Reach d programs t
