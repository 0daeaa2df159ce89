-- ===== src/Mutex/Guard/Counter.antt =====
-- examples/mutex.cpp: workers that add one to `int shared` again and again, each time under the mutex.
-- `++shared` is a load and a store. An `int` has 32 bits, and overflow is undefined behaviour: `none`.
use sync_tools.Prelude.{
  ℕ, suc, ◌+◌, ◌-◌, ◌*◌, ◌^◌, ◌≤◌, ◌<◌, ◌≡◌, refl, sym, ◌∙◌, ap, subst, Option, none, some, List,
  [], ◌∷◌, arith, length, replicate, ltb, lt→ltb, if◌then◌else◌, All, length-snoc, length-replicate,
  some-injective,
}
use sync_tools.Mutex.Tally.{tally, tally-length, tally-replicate_all}
use sync_tools.Mutex.Guard.{Guarded, outside, Client, System, Reach}
use sync_tools.Mutex.Guard.Serial.{Ran, Serial, AtRest, is_working, calls_serialise, settled-base}
use sync_tools.Mutex.Guard.Calls.{pending, Reach-balance}

-- One round of the loop of `worker`.
pub data Round : Type 0 where
  add_one : Round

pub data Place : Type 0 where
  load_shared : Place
  store_shared : (loaded : ℕ) → Place

abbrev pub int_max : ℕ
int_max = 2 ^ 31 - 1

abbrev pub add : ℕ → Option ℕ
add x = if ltb x int_max then some (x + 1) else none

-- One access to `shared`.
abbrev pub access_shared : Place → Option ℕ → Option Place × Option ℕ
access_shared load_shared none = (none, none)
access_shared load_shared (some x) = (some (store_shared x), some x)
access_shared (store_shared x) shared = (none, add x)

abbrev pub worker : Guarded (Option ℕ) Round Place
worker = record { begin = λ c. load_shared; advance = access_shared }

-- `std::thread`s that run `worker`: 8 with 100000 rounds each in the example.
abbrev pub programs : (threads rounds : ℕ) → List (List Round)
programs threads rounds = replicate threads (replicate rounds add_one)

-- Where one round alone, begun on `x`, stands.
abbrev Expect : ℕ → Option Place → Option ℕ → Type 0
Expect x (some load_shared) d = d ≡ some x
Expect x (some (store_shared y)) d = (y ≡ x) × (d ≡ some x)
Expect x none d = d ≡ some (x + 1)

module _ {x : ℕ} (below : x < int_max) where
  advance-Expect :
      (l : Place) (d : Option ℕ)
      → Expect x (some l) d
      → Expect x (worker.advance l d).0 (worker.advance l d).1
  advance-Expect load_shared none e = absurd (cc e)
  advance-Expect load_shared (some y) e = (some-injective y x e, e)
  advance-Expect (store_shared y) d e = rw (e.0, lt→ltb x int_max below) refl

  Ran-Expect :
      {c : Round} {o : Option Place} {d : Option ℕ} → Ran worker c (some x) o d → Expect x o d
  Ran-Expect Ran.begun = refl
  Ran-Expect (Ran.then {l} {d'} run) = advance-Expect l d' (Ran-Expect run)

Serial-Expect :
    {cs : List Round} {d : Option ℕ}
    → Serial worker (some 0) cs d
    → length cs ≤ int_max
    → d ≡ some (length cs)
Serial-Expect Serial.none_made h = refl
Serial-Expect (Serial.made {c} {cs} {d'} {d''} before run) h =
    let e : d' ≡ some (length cs) = Serial-Expect before (omega (arith, length-snoc cs c)) in
    let run' : Ran worker c (some (length cs)) none d'' =
      subst (λ b. Ran worker c b none d'') e run in
    Ran-Expect (omega (arith, length-snoc cs c)) run' ∙ ap some (sym (length-snoc cs c))

-- Every thread is out of its loop.
abbrev pub AllJoined : List (Client Round Place) → Type 0
AllJoined ks = All (λ i k. k ≡ record { phase = outside; calls = [] }) ks

joined-pending : (ks : List (Client Round Place)) → AllJoined ks → tally (pending (λ c. 1)) ks ≡ 0
unfolding tally
joined-pending [] h = refl
joined-pending (k ∷ ks) h =
    omega (arith, ap (pending (λ c. 1)) (h 0 k refl), joined-pending ks (λ i q e. h (suc i) q e))

joined-AtRest : (ks : List (Client Round Place)) → AllJoined ks → AtRest ks
joined-AtRest ks h i k e = ap (λ q. is_working q.phase) (h i k e)

module _ (threads rounds : ℕ) (fits : threads * rounds ≤ int_max) where
  made_at_most :
      {s : System (Option ℕ) Round Place}
      → Reach worker (some 0) (programs threads rounds) s
      → length s.done + tally (pending (λ c. 1)) s.clients ≡ threads * rounds
  made_at_most {s} r =
      let total = tally-replicate_all (tally (λ c. 1)) threads (replicate rounds add_one) in
      let each = tally-length (replicate rounds add_one) ∙ length-replicate rounds add_one in
      omega
        (arith, Reach-balance (λ c. 1) r, tally-length s.done, total ∙ ap (λ k. threads * k) each)

  -- No update is lost: with any number of threads that each run the loop of `worker` for the same
  -- number of rounds, and no more additions in all than an `int` can count, `shared` is the number of
  -- all the additions in every reachable state in which all threads are out of their loops.
  pub no_update_lost :
      {s : System (Option ℕ) Round Place}
      → Reach worker (some 0) (programs threads rounds) s
      → AllJoined s.clients
      → s.shared ≡ some (threads * rounds)
  no_update_lost {s} r joined =
      let (base, serial, shows) = calls_serialise r in
      let n : length s.done ≡ threads * rounds =
        omega (arith, made_at_most r, joined-pending s.clients joined) in
      settled-base s.clients shows (joined-AtRest s.clients joined)
      ∙ Serial-Expect serial (omega arith)
      ∙ ap some n
