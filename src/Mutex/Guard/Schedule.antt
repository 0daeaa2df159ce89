-- ===== src/Mutex/Guard/Schedule.antt =====
-- Schedules that run: the clients of a mutex take turns as a list of their numbers says.
use sync_tools.Prelude.{ℕ, ◌≡◌, refl, Option, some, List, [], ◌∷◌, get_elem?}
use sync_tools.Mutex
use sync_tools.Mutex.{
  fast_path, trying, spinning, swapping, waiting, asleep, critical, waking, access, idle,
}
use sync_tools.Mutex.Threads.{make_access}
use sync_tools.Mutex.Guard.{
  Guarded, Phase, outside, wants, works, leaves, Client, System, locks, waits, enters, advances,
  unlocks, init, Reach, start, later,
}

module _ {ℓ} {Data Call Local : Type ℓ} (g : Guarded Data Call Local) (d : Data)
    (programs : List (List Call)) where
  pub record Run : Type ℓ where
    pub last : System Data Call Local
    pub reach : Reach g d programs last

  -- Thread `i` does what it can do next, and sleeps on where it can do nothing.
  turn_at :
      (s : System Data Call Local)
      → Reach g d programs s
      → (i : ℕ) (f : Phase Call Local) (cs : List Call)
      → get_elem? s.clients i ≡ some (record { phase = f; calls = cs })
      → (p : Mutex.Place) → get_elem? s.mutex.threads i ≡ some p
      → Run
  turn_at s r i outside (c ∷ cs) e idle k = record { last = _; reach = later r (locks i c cs e k) }
  turn_at s r i (wants c) cs e critical k = record { last = _; reach = later r (enters i c cs e k) }
  turn_at s r i (wants c) cs e fast_path k = record {
    last = _;
    reach = later r (waits (make_access i fast_path k) refl);
  }
  turn_at s r i (wants c) cs e (spinning n) k = record {
    last = _;
    reach = later r (waits (make_access i (spinning n) k) refl);
  }
  turn_at s r i (works c l) cs e p k = record { last = _; reach = later r (advances i c l cs e) }
  turn_at s r i leaves cs e critical k = record { last = _; reach = later r (unlocks i cs e k) }
  turn_at s r i f cs e p k = record { last = s; reach = r }

  thread_at :
      (s : System Data Call Local)
      → Reach g d programs s
      → (i : ℕ) (o : Option (Client Call Local)) → get_elem? s.clients i ≡ o
      → (q : Option Mutex.Place) → get_elem? s.mutex.threads i ≡ q
      → Run
  thread_at s r i (some k) e (some p) h = turn_at s r i k.phase k.calls e p h
  thread_at s r i o e q h = record { last = s; reach = r }

  -- The last turn stands first.
  unfoldable pub run : List ℕ → Run
  unfolding thread_at turn_at access
  run [] = record { last = init g d programs; reach = start }
  run (i ∷ is) =
      let r = run is in
      thread_at r.last r.reach i (get_elem? r.last.clients i) refl
        (get_elem? r.last.mutex.threads i) refl
