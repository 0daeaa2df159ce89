-- ===== src/Mutex/Checked/Tests.antt =====
-- Two threads on one mutex with the deadlock checks: schedules that run, and the theorems at the
-- states they reach.
use sync_tools.Prelude.{ℕ, ◌≡◌, refl, false, true, Option, none, some, List, [], ◌∷◌, get_elem?}
use sync_tools.Mutex
use sync_tools.Mutex.{locked, critical, idle}
use sync_tools.Mutex.Threads
use sync_tools.Mutex.Checked.{
  Call, lock, unlock, Place, code, owning, check_owner, access, System, call, call_owning,
  make_access, init, Reach, start, later,
}
use sync_tools.Mutex.Checked.Safety.{
  unchecked_system, checked_follows, checks_are_exact, Verdict, second_load,
}

record Run : Type 0 where
  last : System
  reach : Reach 2 last

-- Thread `i` makes the call `c` if it is in none, and its next access otherwise.
turn_at :
    (s : System)
    → Reach 2 s
    → (i : ℕ) (c : Call) (o : Option Place) → get_elem? s.threads i ≡ o
    → Run
turn_at s r i c none e = record { last = s; reach = r }
turn_at s r i c (some (code Mutex.idle)) e = record { last = _; reach = later r (call i c e) }
turn_at s r i c (some owning) e = record { last = _; reach = later r (call_owning i c e) }
turn_at s r i c (some p) e = record { last = _; reach = later r (make_access i p e) }

run : List (ℕ × Call) → Run
unfolding turn_at access Mutex.access
run [] = record { last = init 2; reach = start }
run ((i, c) ∷ turns) =
    let r = run turns in turn_at r.last r.reach i c (get_elem? r.last.threads i) refl

-- Thread 0 takes the mutex and calls `lock` again, thread 1 calls `unlock`. The last turn stands
-- first.
abbrev misused : Run
misused = run (
    (1, unlock)
    ∷ (1, unlock)
    ∷ (0, lock)
    ∷ (0, lock)
    ∷ (0, lock)
    ∷ (0, lock)
    ∷ (0, lock)
    ∷ (0, lock)
    ∷ (0, lock)
    ∷ [])

misused_threads : misused.last.threads ≡ check_owner lock true ∷ check_owner unlock false ∷ []
unfolding run
misused_threads = refl

checked_follows_example : Threads.Reach 2 (unchecked_system misused.last)
checked_follows_example = checked_follows misused.reach

checks_are_exact_example :
    Verdict lock true
      (check_owner lock true)
      (access 0 misused.last.members (check_owner lock true)).1
unfolding run
checks_are_exact_example = checks_are_exact misused.reach 0 second_load refl
