-- ===== src/Mutex/Checked/Safety.antt =====
-- What the deadlock checks find, and that the checked build is otherwise the mutex.
use sync_tools.Prelude.{
  ℕ, ◌≡◌, ◌≢◌, refl, sym, ◌∙◌, ap, Bool, true, false, some, map, get_elem?, set, subst,
  if◌then◌else◌, get_elem?-set_other, get_elem?-map, get_elem?_of_map, map-set, map-replicate,
  set_same, get_elem?-replicate, All, All-set, none, not,
}
use sync_tools.Mutex
use sync_tools.Mutex.{MutexState, critical, asleep, waiting, waking, swapping}
use sync_tools.Mutex.Threads
use sync_tools.Mutex.Safety.{mutual_exclusion}
use sync_tools.Mutex.Checked.{
  Members, Call, lock, try_lock, unlock, Place, code, owning, check_set, check_owner, failed,
  passed, judge, access, System, Step, call, call_owning, make_access, interrupt_wait,
  interrupt_sleep, wake_one, wake_none, init, Reach, start, later,
}
use sync_tools.Mutex.Checked.Recorded.{
  unchecked, record_of, Recorded, access-others, Effect, access-own, owner_shows, set_shows,
}

-- The system without the checks.
abbrev pub unchecked_system : System → Threads.System
unchecked_system s = record { state = s.members.state; threads = map unchecked s.threads }

abbrev IsRecorded : Members → ℕ → Place → Type 0
IsRecorded m j q = Recorded m.owner m.owner_set j (record_of q)

record Kept (n : ℕ) (s : System) : Type 0 where
  follows : Threads.Reach n (unchecked_system s)
  recorded : All (IsRecorded s.members) s.threads

module _ {n : ℕ} {s : System} (kept : Kept n s) where
  at_unchecked :
      (i : ℕ) {p : Place}
      → get_elem? s.threads i ≡ some p
      → get_elem? (map unchecked s.threads) i ≡ some (unchecked p)
  at_unchecked i {p} e = get_elem?-map unchecked s.threads i {a = p} e

  -- A move of the system without the checks, or none.
  follow :
      (i : ℕ) (p p' : Place) (w : MutexState)
      → get_elem? s.threads i ≡ some p
      → Effect s.members.state (unchecked p) w (unchecked p')
      → Threads.Reach n (record { state = w; threads = map unchecked (set s.threads i p') })
  follow i p p' w e (Effect.stays we pe) =
      rw
        (
          map-set unchecked s.threads i p',
          we,
          pe,
          set_same (map unchecked s.threads) i (at_unchecked i e),
        )
        kept.follows
  follow i p p' w e (Effect.calls_lock we pe qe) =
      rw (map-set unchecked s.threads i p', we, qe)
        (Threads.later kept.follows (Threads.call_lock i (at_unchecked i e ∙ ap some pe)))
  follow i p p' w e (Effect.calls_try_lock we pe qe) =
      rw (map-set unchecked s.threads i p', we, qe)
        (Threads.later kept.follows (Threads.call_try_lock i (at_unchecked i e ∙ ap some pe)))
  follow i p p' w e (Effect.accesses we pe) =
      rw (map-set unchecked s.threads i p', we, pe)
        (Threads.later kept.follows (Threads.make_access i (unchecked p) (at_unchecked i e)))

  access-Kept :
      (i : ℕ) (p : Place)
      → get_elem? s.threads i ≡ some p
      → Kept n (record {
        members = (access i s.members p).0;
        threads = set s.threads i (access i s.members p).1;
      })
  access-Kept i p e =
      let own = access-own i s.members p (kept.recorded i p e) in
      record {
        follows = follow i p (access i s.members p).1 (access i s.members p).0.state e own.effect;
        recorded =
            All-set (IsRecorded (access i s.members p).0) s.threads i (access i s.members p).1 e
              own.recorded
              (λ j q ne k.
                access-others s.members p q ne
                  (λ mine theirs. ne (
                    mutual_exclusion kept.follows i j
                      (get_elem?-map unchecked s.threads i e ∙ ap some mine)
                      (get_elem?-map unchecked s.threads j k ∙ ap some theirs)))
                  (kept.recorded j q k));
      }

  -- A thread moves between places of the code without the checks.
  code-IsRecorded :
      (i : ℕ) {p : Place} (p' : Place)
      → get_elem? s.threads i ≡ some p
      → record_of p ≡ record_of p'
      → All (IsRecorded s.members) (set s.threads i p')
  code-IsRecorded i {p} p' e same =
      All-set (IsRecorded s.members) s.threads i p' e
        (subst (Recorded s.members.owner s.members.owner_set i) same (kept.recorded i p e))
        (λ j q ne k. kept.recorded j q k)

  call-Kept :
      (i : ℕ) (p p' : Place)
      → get_elem? s.threads i ≡ some p
      → record_of p ≡ record_of p'
      → unchecked p' ≡ unchecked p
      → Kept n (record s { threads = set s.threads i p' })
  call-Kept i p p' e same pe = record {
    follows = follow i p p' s.members.state e (Effect.stays refl pe);
    recorded = code-IsRecorded i p' e same;
  }

asleep_only : (p : Place) → unchecked p ≡ asleep → p ≡ code asleep
asleep_only (code p) e = ap code e
asleep_only owning e = cc e
asleep_only (check_set c true) e = cc e
asleep_only (check_set c false) e = cc e
asleep_only (check_owner c true) e = cc e
asleep_only (check_owner c false) e = cc e
asleep_only (failed c true) e = cc e
asleep_only (failed c false) e = cc e
asleep_only _ e = cc e

waking-ne-asleep : ¬ (some (code waking) ≡ some (code asleep))
waking-ne-asleep h = cc h

Step-Kept : {n : ℕ} {s t : System} → Step s t → Kept n s → Kept n t
Step-Kept (call i c e) kept = call-Kept kept i (code Mutex.idle) (check_set c false) e refl refl
Step-Kept (call_owning i c e) kept = call-Kept kept i owning (check_set c true) e refl refl
Step-Kept (make_access i p e) kept = access-Kept kept i p e
Step-Kept {s = s} (interrupt_wait i e) kept = record {
  follows =
      rw (map-set unchecked s.threads i (code swapping))
        (Threads.later kept.follows (Threads.interrupt_wait i (at_unchecked kept i e)));
  recorded = code-IsRecorded kept i (code swapping) e refl;
}
Step-Kept {s = s} (interrupt_sleep i e) kept = record {
  follows =
      rw (map-set unchecked s.threads i (code swapping))
        (Threads.later kept.follows (Threads.interrupt_sleep i (at_unchecked kept i e)));
  recorded = code-IsRecorded kept i (code swapping) e refl;
}
Step-Kept {s = s} (wake_one i j e k) kept =
    let ne : i ≢ j = λ eq. waking-ne-asleep (sym e ∙ ap (λ l. get_elem? s.threads l) eq ∙ k) in
    let k' : get_elem? (set s.threads i (code Mutex.idle)) j ≡ some (code asleep) =
      get_elem?-set_other s.threads i j (code Mutex.idle) ne ∙ k in
    record {
      follows =
          rw
            (
              map-set unchecked (set s.threads i (code Mutex.idle)) j (code swapping),
              map-set unchecked s.threads i (code Mutex.idle),
            )
            (Threads.later kept.follows
              (Threads.wake_one i j (at_unchecked kept i e) (at_unchecked kept j k)));
      recorded =
          All-set (IsRecorded s.members) (set s.threads i (code Mutex.idle)) j (code swapping) k'
            (kept.recorded j (code asleep) k)
            (λ l q nl h. code-IsRecorded kept i (code Mutex.idle) e refl l q h);
    }
Step-Kept {s = s} (wake_none i e none_asleep) kept = record {
  follows = rw (map-set unchecked s.threads i (code Mutex.idle)) (
      Threads.later kept.follows (
        Threads.wake_none i (at_unchecked kept i e) (λ j h.
          let (p, k, a) = get_elem?_of_map unchecked s.threads j h in
          none_asleep j (k ∙ ap some (asleep_only p a)))));
  recorded = code-IsRecorded kept i (code Mutex.idle) e refl;
}

init-Kept : (n : ℕ) → Kept n (init n)
init-Kept n = record {
  follows = rw (map-replicate unchecked n (code Mutex.idle)) Threads.start;
  recorded = λ j q e.
      subst (λ p. Recorded none false j (record_of p))
        (sym (get_elem?-replicate n j (code Mutex.idle) e)) (λ h. cc h);
}

Reach-Kept : {n : ℕ} {s : System} → Reach n s → Kept n s
Reach-Kept {n} start = init-Kept n
Reach-Kept (later r st) = Step-Kept st (Reach-Kept r)

-- In every state that the checked build reaches, whatever calls its threads make, the state of the
-- mutex and the places of the threads, with the checks and the stores left out, are reached by the
-- build without the checks, with calls of `lock` and `try_lock` by threads that do not own the mutex
-- and of `unlock` by its owner only.
pub checked_follows : {n : ℕ} {s : System} → Reach n s → Threads.Reach n (unchecked_system s)
checked_follows r = (Reach-Kept r).follows

-- `lock` and `try_lock` by the owner, and `unlock` by another thread.
abbrev pub is_misuse : Call → (mine : Bool) → Bool
is_misuse unlock mine = not mine
is_misuse _ mine = mine

-- What a load of a check may lead to: the second load, the failure of the assertion, or the call.
pub data Verdict (c : Call) (mine : Bool) : Place → Place → Type 0 where
  undecided : Verdict c mine (check_set c mine) (check_owner c mine)
  refused : {p : Place} → is_misuse c mine ≡ true → Verdict c mine p (failed c mine)
  allowed : {p : Place} → is_misuse c mine ≡ false → Verdict c mine p (passed c)

judge-Verdict : (p : Place) (c : Call) (mine : Bool) → Verdict c mine p (judge c mine mine)
judge-Verdict p lock true = Verdict.refused refl
judge-Verdict p lock false = Verdict.allowed refl
judge-Verdict p try_lock true = Verdict.refused refl
judge-Verdict p try_lock false = Verdict.allowed refl
judge-Verdict p unlock true = Verdict.allowed refl
judge-Verdict p unlock false = Verdict.refused refl

-- The places of the two loads.
pub data IsCheck (c : Call) (mine : Bool) : Place → Type 0 where
  first_load : IsCheck c mine (check_set c mine)
  second_load : IsCheck c mine (check_owner c mine)

set-Verdict :
    (i : ℕ) (m : Members) (c : Call) (mine : Bool)
    → Recorded m.owner m.owner_set i (record_of (check_set c mine))
    → (b : Bool) → m.owner_set ≡ b
    → Verdict c mine (check_set c mine) (if b then check_owner c mine else judge c mine false)
set-Verdict i m c mine r true e = Verdict.undecided
set-Verdict i m c mine r false e =
    subst (λ b. Verdict c mine (check_set c mine) (judge c mine b)) (set_shows i m c mine r e)
      (judge-Verdict (check_set c mine) c mine)

-- In every state that the checked build reaches, whatever calls its threads make, a load of the check
-- before a call leads to the failure of the assertion only if the call is misuse, that is, `lock` or
-- `try_lock` by the owner or `unlock` by another thread, and on to the call only if it is not; and
-- the load of `_owner_set` may lead to the load of `_owner`, which decides.
pub checks_are_exact :
    {n : ℕ} {s : System}
    → Reach n s
    → (i : ℕ) {p : Place} {c : Call} {mine : Bool} → IsCheck c mine p
    → get_elem? s.threads i ≡ some p
    → Verdict c mine p (access i s.members p).1
unfolding access
checks_are_exact {s = s} r i {c = c} {mine = mine} first_load e =
    set-Verdict i s.members c mine ((Reach-Kept r).recorded i (check_set c mine) e)
      s.members.owner_set refl
checks_are_exact {s = s} r i {c = c} {mine = mine} second_load e =
    subst (λ b. Verdict c mine (check_owner c mine) (judge c mine b))
      (sym (owner_shows i s.members c mine ((Reach-Kept r).recorded i (check_owner c mine) e)))
      (judge-Verdict (check_owner c mine) c mine)
