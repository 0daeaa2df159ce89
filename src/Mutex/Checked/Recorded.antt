-- ===== src/Mutex/Checked/Recorded.antt =====
-- What `_owner` and `_owner_set` record of each thread of the checked build, and what one access
-- does to it.
use sync_tools.Prelude.{
  ℕ, ◌≡◌, ◌≢◌, refl, sym, ap, Bool, true, false, Option, none, some, ◌==◌, if◌then◌else◌, inl, inr,
  ==_iff, some-injective, Bool-cases, subst,
}
use sync_tools.Mutex
use sync_tools.Mutex.{MutexState, critical, fast_path, trying}
use sync_tools.Mutex.Checked.{
  Members, Call, lock, try_lock, unlock, Place, code, owning, check_set, check_owner, failed,
  store_owner, store_set, clear_set, clear_owner, is_self, judge, with_stores, access,
}

-- The thread of the build without the checks: where the same calls would have brought it.
abbrev pub unchecked : Place → Mutex.Place
unchecked (code p) = p
unchecked owning = critical
unchecked (check_set c mine) = if mine then critical else Mutex.idle
unchecked (check_owner c mine) = if mine then critical else Mutex.idle
unchecked (failed c mine) = if mine then critical else Mutex.idle
unchecked _ = critical

pub data Record : Type 0 where
  absent named set_too : Record

-- What is recorded of a thread in a place: nothing, its name, or its name and the flag.
abbrev pub record_of : Place → Record
record_of owning = Record.set_too
record_of (check_set c mine) = if mine then Record.set_too else Record.absent
record_of (check_owner c mine) = if mine then Record.set_too else Record.absent
record_of (failed c mine) = if mine then Record.set_too else Record.absent
record_of clear_set = Record.set_too
record_of store_set = Record.named
record_of clear_owner = Record.named
record_of _ = Record.absent

abbrev pub Recorded : (owner : Option ℕ) (owner_set : Bool) → ℕ → Record → Type 0
Recorded o b i Record.absent = o ≢ some i
Recorded o b i Record.named = o ≡ some i
Recorded o b i Record.set_too = (o ≡ some i) × (b ≡ true)

none-ne-some : (i : ℕ) → none ≢ some i
none-ne-some i e = cc e

pub self_test : (i : ℕ) (o : Option ℕ) → o ≡ some i → is_self i o ≡ true
self_test i none e = absurd (cc e)
self_test i (some j) e = (==_iff j i).1 (some-injective j i e)

pub other_test : (i : ℕ) (o : Option ℕ) → o ≢ some i → is_self i o ≡ false
other_test i none ne = refl
other_test i (some j) ne = elim (Bool-cases (j == i)) [
  | inl e ↦ absurd (ne (ap some ((==_iff j i).0 e)))
  | inr e ↦ e
]

-- A thread that does not own the mutex is not recorded.
unowned-absent : (p : Place) → unchecked p ≢ critical → record_of p ≡ Record.absent
unowned-absent (code p) ne = refl
unowned-absent owning ne = absurd (ne refl)
unowned-absent (check_set c true) ne = absurd (ne refl)
unowned-absent (check_set c false) ne = refl
unowned-absent (check_owner c true) ne = absurd (ne refl)
unowned-absent (check_owner c false) ne = refl
unowned-absent (failed c true) ne = absurd (ne refl)
unowned-absent (failed c false) ne = refl
unowned-absent store_owner ne = absurd (ne refl)
unowned-absent store_set ne = absurd (ne refl)
unowned-absent clear_set ne = absurd (ne refl)
unowned-absent clear_owner ne = absurd (ne refl)

absent-Recorded :
    {o o' : Option ℕ} (b b' : Bool) {j : ℕ} (k : Record)
    → k ≡ Record.absent
    → (o ≢ some j → o' ≢ some j)
    → Recorded o b j k
    → Recorded o' b' j k
absent-Recorded b b' Record.absent e f r = f r
absent-Recorded b b' Record.named e f r = absurd (cc e)
absent-Recorded b b' Record.set_too e f r = absurd (cc e)

-- An access by thread `i` leaves what is recorded of thread `j`.
pub access-others :
    {i j : ℕ} (m : Members) (p q : Place)
    → i ≢ j
    → (unchecked p ≡ critical → unchecked q ≢ critical)
    → Recorded m.owner m.owner_set j (record_of q)
    → Recorded (access i m p).0.owner (access i m p).0.owner_set j (record_of q)
unfolding access
access-others m (code p) q ne alone r = r
access-others m owning q ne alone r = r
access-others m (check_set c mine) q ne alone r = r
access-others m (check_owner c mine) q ne alone r = r
access-others m (failed c mine) q ne alone r = r
access-others {i} {j} m store_owner q ne alone r =
    absent-Recorded _ _ (record_of q) (unowned-absent q (alone refl))
      (λ h e. ne (some-injective i j e)) r
access-others m store_set q ne alone r =
    absent-Recorded _ _ (record_of q) (unowned-absent q (alone refl)) (λ h. h) r
access-others m clear_set q ne alone r =
    absent-Recorded _ _ (record_of q) (unowned-absent q (alone refl)) (λ h. h) r
access-others {j = j} m clear_owner q ne alone r =
    absent-Recorded _ _ (record_of q) (unowned-absent q (alone refl)) (λ h e. none-ne-some j e) r

-- What the checked build does, in the build without the checks: nothing, the start of a call, or the
-- next access.
pub data Effect (w : MutexState) (p : Mutex.Place) (w' : MutexState) (p' : Mutex.Place)
    : Type 0 where
  stays : w' ≡ w → p' ≡ p → Effect w p w' p'
  calls_lock : w' ≡ w → p ≡ Mutex.idle → p' ≡ fast_path → Effect w p w' p'
  calls_try_lock : w' ≡ w → p ≡ Mutex.idle → p' ≡ trying → Effect w p w' p'
  accesses : w' ≡ (Mutex.access w p).0 → p' ≡ (Mutex.access w p).1 → Effect w p w' p'

pub record Accessed (i : ℕ) (m : Members) (p : Place) (m' : Members) (p' : Place) : Type 0 where
  pub recorded : Recorded m'.owner m'.owner_set i (record_of p')
  pub effect : Effect m.state (unchecked p) m'.state (unchecked p')

with_stores-absent : (p : Mutex.Place) → record_of (with_stores p) ≡ Record.absent
with_stores-absent critical = refl
with_stores-absent _ = refl

unchecked-with_stores : (p : Mutex.Place) → unchecked (with_stores p) ≡ p
unchecked-with_stores critical = refl
unchecked-with_stores _ = refl

-- The loads of a check show whether the thread owns the mutex.
pub owner_shows :
    (i : ℕ) (m : Members) (c : Call) (mine : Bool)
    → Recorded m.owner m.owner_set i (record_of (check_owner c mine))
    → is_self i m.owner ≡ mine
owner_shows i m c true r = self_test i m.owner r.0
owner_shows i m c false r = other_test i m.owner r

pub set_shows :
    (i : ℕ) (m : Members) (c : Call) (mine : Bool)
    → Recorded m.owner m.owner_set i (record_of (check_set c mine))
    → m.owner_set ≡ false
    → mine ≡ false
set_shows i m c true r e = cc (r.1, e)
set_shows i m c false r e = refl

judge-Accessed :
    (i : ℕ) (m : Members) (p : Place) (c : Call) (mine : Bool)
    → unchecked p ≡ (if mine then critical else Mutex.idle)
    → Recorded m.owner m.owner_set i (if mine then Record.set_too else Record.absent)
    → Accessed i m p m (judge c mine mine)
judge-Accessed i m p lock true e r = record { recorded = r; effect = Effect.stays refl (sym e) }
judge-Accessed i m p lock false e r = record {
  recorded = r;
  effect = Effect.calls_lock refl e refl;
}
judge-Accessed i m p try_lock true e r = record { recorded = r; effect = Effect.stays refl (sym e) }
judge-Accessed i m p try_lock false e r = record {
  recorded = r;
  effect = Effect.calls_try_lock refl e refl;
}
judge-Accessed i m p unlock true e r = record { recorded = r; effect = Effect.stays refl (sym e) }
judge-Accessed i m p unlock false e r = record { recorded = r; effect = Effect.stays refl (sym e) }

set-Accessed :
    (i : ℕ) (m : Members) (c : Call) (mine : Bool)
    → Recorded m.owner m.owner_set i (record_of (check_set c mine))
    → (b : Bool) → m.owner_set ≡ b
    → Accessed i m (check_set c mine) m (if b then check_owner c mine else judge c mine false)
set-Accessed i m c mine r true e = record { recorded = r; effect = Effect.stays refl refl }
set-Accessed i m c mine r false e =
    subst (λ b. Accessed i m (check_set c mine) m (judge c mine b)) (set_shows i m c mine r e)
      (judge-Accessed i m (check_set c mine) c mine refl r)

pub access-own :
    (i : ℕ) (m : Members) (p : Place)
    → Recorded m.owner m.owner_set i (record_of p)
    → Accessed i m p (access i m p).0 (access i m p).1
unfolding access
access-own i m (code p) r = record {
  recorded = rw (with_stores-absent (Mutex.access m.state p).1) r;
  effect = Effect.accesses refl (unchecked-with_stores (Mutex.access m.state p).1);
}
access-own i m owning r = record { recorded = r; effect = Effect.stays refl refl }
access-own i m (check_set c mine) r = set-Accessed i m c mine r m.owner_set refl
access-own i m (check_owner c mine) r =
    subst (λ b. Accessed i m (check_owner c mine) m (judge c mine b))
      (sym (owner_shows i m c mine r)) (judge-Accessed i m (check_owner c mine) c mine refl r)
access-own i m (failed c mine) r = record { recorded = r; effect = Effect.stays refl refl }
access-own i m store_owner r = record { recorded = refl; effect = Effect.stays refl refl }
access-own i m store_set r = record { recorded = (r, refl); effect = Effect.stays refl refl }
access-own i m clear_set r = record { recorded = r.0; effect = Effect.stays refl refl }
access-own i m clear_owner r = record { recorded = none-ne-some i; effect = Effect.stays refl refl }
