-- ===== src/Mutex/Guard/Holds.antt =====
-- A client that works on the shared data, or is about to unlock, owns the mutex.
use sync_tools.Prelude.{
  ℕ, ◌≡◌, ◌≢◌, refl, sym, ◌∙◌, ap, true, some, List, length, get_elem?, set, some-injective,
  get_elem?-set_other, get_elem?_of_map, All, All-set, subst, none, Option,
}
use sync_tools.Mutex
use sync_tools.Mutex.{Place, access, fast_path, critical, asleep, waiting, waking, swapping}
use sync_tools.Mutex.Threads
use sync_tools.Mutex.Threads.{
  call_lock, call_try_lock, make_access, interrupt_wait, interrupt_sleep, wake_one, wake_none,
}
use sync_tools.Mutex.Safety.{mutual_exclusion}
use sync_tools.Mutex.Guard.{
  Guarded, Phase, outside, wants, works, leaves, Client, System, is_critical, is_inner, Step, locks,
  waits, next_phase, enters, advances, unlocks, Reach, start, later,
}

other_thread :
    (ps : List Place) (i j : ℕ) {p : Place}
    → get_elem? ps j ≡ some p
    → p ≢ critical
    → get_elem? ps i ≡ some critical
    → j ≢ i
other_thread ps i j {p} e ne h same =
    ne (some-injective p critical (sym e ∙ ap (λ k. get_elem? ps k) same ∙ h))

set_elsewhere :
    (ps : List Place) (i j : ℕ) {p : Place} (p' : Place)
    → get_elem? ps j ≡ some p
    → p ≢ critical
    → get_elem? ps i ≡ some critical
    → get_elem? (set ps j p') i ≡ some critical
set_elsewhere ps i j p' e ne h = get_elem?-set_other ps j i p' (other_thread ps i j e ne h) ∙ h

-- An owner stays owner while it does not unlock.
inner-critical :
    {m m' : Threads.System} (st : Threads.Step m m') (i : ℕ)
    → is_inner st ≡ true
    → get_elem? m.threads i ≡ some critical
    → get_elem? m'.threads i ≡ some critical
inner-critical {m = m} (call_lock j e) i h c = cc h
inner-critical (call_try_lock j e) i h c = cc h
inner-critical {m = m} (make_access j p e) i h c =
    set_elsewhere m.threads i j _ e (λ same. cc (h, ap is_critical same)) c
inner-critical {m = m} (interrupt_wait j e) i h c =
    set_elsewhere m.threads i j swapping e (λ same. cc same) c
inner-critical {m = m} (interrupt_sleep j e) i h c =
    set_elsewhere m.threads i j swapping e (λ same. cc same) c
inner-critical {m = m} (wake_one j k e f) i h c =
    get_elem?-set_other (set m.threads j Mutex.idle) k i swapping
      (other_thread m.threads i k f (λ same. cc same) c)
    ∙ set_elsewhere m.threads i j Mutex.idle e (λ same. cc same) c
inner-critical {m = m} (wake_none j e none_asleep) i h c =
    set_elsewhere m.threads i j Mutex.idle e (λ same. cc same) c

module _ {ℓ} {Call Local : Type ℓ} where
  -- What a client's phase says of its thread.
  abbrev pub Owns : Threads.System → ℕ → Phase Call Local → Type 0
  Owns m i outside = Unit
  Owns m i (wants c) = Unit
  Owns m i (works c l) = get_elem? m.threads i ≡ some critical
  Owns m i leaves = get_elem? m.threads i ≡ some critical

  Owns-inner :
      {m m' : Threads.System} (st : Threads.Step m m') (i : ℕ) (f : Phase Call Local)
      → is_inner st ≡ true
      → Owns m i f
      → Owns m' i f
  Owns-inner st i outside h o = tt
  Owns-inner st i (wants c) h o = tt
  Owns-inner st i (works c l) h o = inner-critical st i h o
  Owns-inner st i leaves h o = inner-critical st i h o

  Owns-set :
      (m m' : Threads.System) (i j : ℕ) (p : Place) (f : Phase Call Local)
      → m'.threads ≡ set m.threads i p
      → i ≢ j
      → Owns m j f
      → Owns m' j f
  Owns-set m m' i j p outside e ne o = tt
  Owns-set m m' i j p (wants c) e ne o = tt
  Owns-set m m' i j p (works c l) e ne o =
      ap (λ ps. get_elem? ps j) e ∙ get_elem?-set_other m.threads i j p ne ∙ o
  Owns-set m m' i j p leaves e ne o =
      ap (λ ps. get_elem? ps j) e ∙ get_elem?-set_other m.threads i j p ne ∙ o

  next_phase-Owns :
      (m : Threads.System) (i : ℕ) (c : Call) (r : Option Local)
      → get_elem? m.threads i ≡ some critical
      → Owns m i (next_phase c r)
  next_phase-Owns m i c none e = e
  next_phase-Owns m i c (some l) e = e

  abbrev pub ClientOwns : Threads.System → ℕ → Client Call Local → Type 0
  ClientOwns m i k = Owns m i k.phase

module _ {ℓ} {Data Call Local : Type ℓ} {g : Guarded Data Call Local} where
  Step-owns :
      {s t : System Data Call Local}
      → Step g s t
      → All (ClientOwns s.mutex) s.clients
      → All (ClientOwns t.mutex) t.clients
  Step-owns {s} (locks i c cs e f) o =
      All-set (ClientOwns (record s.mutex { threads = set s.mutex.threads i fast_path })) s.clients
        i (record { phase = wants c; calls = cs }) e tt
        (λ j b ne k.
          Owns-set s.mutex (record s.mutex { threads = set s.mutex.threads i fast_path }) i j
            fast_path b.phase refl ne (o j b k))
  Step-owns (waits st h) o = λ j b k. Owns-inner st j b.phase h (o j b k)
  Step-owns {s} (enters i c cs e f) o =
      All-set (ClientOwns s.mutex) s.clients i (record { phase = works c (g.begin c); calls = cs })
        e f (λ j b ne k. o j b k)
  Step-owns {s} (advances i c l cs e) o =
      All-set (ClientOwns s.mutex) s.clients i
        (record { phase = next_phase c (g.advance l s.shared).0; calls = cs }) e
        (next_phase-Owns s.mutex i c (g.advance l s.shared).0
          (o i (record { phase = works c l; calls = cs }) e))
        (λ j b ne k. o j b k)
  Step-owns {s} (unlocks i cs e f) o =
      let m : Threads.System = record {
        state = (access s.mutex.state critical).0;
        threads = set s.mutex.threads i (access s.mutex.state critical).1;
      } in
      All-set (ClientOwns m) s.clients i (record { phase = outside; calls = cs }) e tt
        (λ j b ne k.
          Owns-set s.mutex m i j (access s.mutex.state critical).1 b.phase refl ne (o j b k))

module _ {ℓ} {Data Call Local : Type ℓ} {g : Guarded Data Call Local} {d : Data}
    {programs : List (List Call)} where
  pub follows :
      {s : System Data Call Local} → Reach g d programs s → Threads.Reach (length programs) s.mutex
  follows start = Threads.start
  follows (later r (locks i c cs e f)) = Threads.later (follows r) (call_lock i f)
  follows (later r (waits st h)) = Threads.later (follows r) st
  follows (later r (enters i c cs e f)) = follows r
  follows (later r (advances i c l cs e)) = follows r
  follows (later r (unlocks i cs e f)) = Threads.later (follows r) (make_access i critical f)

  pub Reach-owns :
      {s : System Data Call Local} → Reach g d programs s → All (ClientOwns s.mutex) s.clients
  Reach-owns start j b k =
      let (cs, at, e) =
        get_elem?_of_map (λ cs. record { phase = outside; calls = cs }) programs j k in
      subst (λ q. ClientOwns (Threads.init (length programs)) j q) e tt
  Reach-owns (later r st) j b k = Step-owns st (Reach-owns r) j b k

  -- Only one client at a time is between the lock and the unlock.
  pub owners_agree :
      {s : System Data Call Local}
      → Reach g d programs s
      → (i j : ℕ) → get_elem? s.mutex.threads i ≡ some critical
      → get_elem? s.mutex.threads j ≡ some critical
      → i ≡ j
  owners_agree r = mutual_exclusion (follows r)
