-- ===== src/Mutex/Tests.antt =====
-- Two threads on one mutex: schedules that run, and the theorems at the states they reach.
use sync_tools.Prelude.{
  ℕ, ◌≡◌, refl, ◌⊎◌, Option, none, some, List, [], ◌∷◌, ◌++◌, get_elem?, replicate,
}
use sync_tools.Mutex.{contended, Place, idle, swapping, asleep, critical, waking, access, backoff}
use sync_tools.Mutex.Threads.{System, call_lock, make_access, Reach, start, later, init}
use sync_tools.Mutex.Safety.{mutual_exclusion, no_lost_wakeup}

record Run : Type 0 where
  last : System
  reach : Reach 2 last

-- Thread `i` calls `lock` if it is idle, and makes its next access otherwise.
turn_at : (s : System) → Reach 2 s → (i : ℕ) (o : Option Place) → get_elem? s.threads i ≡ o → Run
turn_at s r i none e = record { last = s; reach = r }
turn_at s r i (some idle) e = record { last = _; reach = later r (call_lock i e) }
turn_at s r i (some p) e = record { last = _; reach = later r (make_access i p e) }

run : List ℕ → Run
unfolding turn_at access
run [] = record { last = init 2; reach = start }
run (i ∷ is) = let r = run is in turn_at r.last r.reach i (get_elem? r.last.threads i) refl

-- Thread 0 takes the free mutex, thread 1 spins through all its rounds and goes to sleep. The last
-- turn stands first.
abbrev one_owner : Run
one_owner = run (0 ∷ 0 ∷ [])

abbrev one_sleeper : Run
one_sleeper = run (replicate 27 1 ++ (0 ∷ 0 ∷ []))

one_sleeper_result :
    one_sleeper.last ≡ record { state = contended; threads = critical ∷ asleep ∷ [] }
unfolding run
one_sleeper_result = refl

longest_backoff : backoff 21 ≡ 1024
longest_backoff = refl

mutual_exclusion_example : ◌≡◌ {A = ℕ} 0 0
unfolding run
mutual_exclusion_example = mutual_exclusion one_owner.reach 0 0 refl refl

no_lost_wakeup_example :
    (i : ℕ) × (((get_elem? one_sleeper.last.threads i ≡ some critical)
        × (one_sleeper.last.state ≡ contended))
      ⊎ ((get_elem? one_sleeper.last.threads i ≡ some swapping)
          ⊎ (get_elem? one_sleeper.last.threads i ≡ some waking)))
unfolding run
no_lost_wakeup_example = no_lost_wakeup one_sleeper.reach 1 refl
