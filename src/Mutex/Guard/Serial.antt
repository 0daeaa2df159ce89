-- ===== src/Mutex/Guard/Serial.antt =====
-- The calls of all threads, made one after the other with no thread between: what the shared data is
-- in terms of them.
use sync_tools.Prelude.{
  ℕ, ◌≡◌, ◌≢◌, refl, sym, ap, subst, Bool, true, false, Option, none, some, List, [], ◌∷◌, ◌++◌,
  get_elem?, set, ◌⊎◌, inl, inr, All, All-set, All-unset, All-cons, All-nil, append-nil, suc,
  get_elem?_of_map, get_elem?-set_self,
}
use sync_tools.Mutex.{critical}
use sync_tools.Mutex.Threads
use sync_tools.Mutex.Guard.{
  Guarded, Phase, outside, wants, works, leaves, Client, System, Step, locks, waits, next_phase,
  over, enters, advances, unlocks, Reach, start, later,
}
use sync_tools.Mutex.Guard.Holds.{Owns, Reach-owns, owners_agree}

module _ {ℓ} {Data Call Local : Type ℓ} (g : Guarded Data Call Local) where
  -- The call `c`, begun on the data `d`, alone: where it stands, `none` when it is over, and the data.
  pub data Ran (c : Call) (d : Data) : Option Local → Data → Type ℓ where
    begun : Ran c d (some (g.begin c)) d
    then :
        {l : Local} {d' : Data}
        → Ran c d (some l) d'
        → Ran c d (g.advance l d').0 (g.advance l d').1

  -- Whole calls, one after the other.
  pub data Serial (d : Data) : List Call → Data → Type ℓ where
    none_made : Serial d [] d
    made :
        {c : Call} {cs : List Call} {d' d'' : Data}
        → Serial d cs d'
        → Ran c d' none d''
        → Serial d (cs ++ (c ∷ [])) d''

abbrev pub is_working {ℓ} : {Call Local : Type ℓ} → Phase Call Local → Bool
is_working (works c l) = true
is_working _ = false

module _ {ℓ} {Call Local : Type ℓ} where
  abbrev pub AtRest : List (Client Call Local) → Type ℓ
  AtRest ks = All (λ i k. is_working k.phase ≡ false) ks

  unowned-idle :
      (m : Threads.System) (j : ℕ) (f : Phase Call Local)
      → Owns m j f
      → get_elem? m.threads j ≢ some critical
      → is_working f ≡ false
  unowned-idle m j outside o ne = refl
  unowned-idle m j (wants c) o ne = refl
  unowned-idle m j (works c l) o ne = absurd (ne o)
  unowned-idle m j leaves o ne = refl

  working-not-AtRest :
      (ks : List (Client Call Local)) (i : ℕ) {k : Client Call Local} (k' : Client Call Local)
      → get_elem? ks i ≡ some k
      → is_working k'.phase ≡ true
      → ¬ AtRest (set ks i k')
  working-not-AtRest ks i {k} k' e h rest = cc (h, rest i k' (get_elem?-set_self ks i {a = k} k' e))

module _ {ℓ} {Data Call Local : Type ℓ} (g : Guarded Data Call Local) where
  -- How far the call of a client has changed the data since `base`.
  abbrev RunOf : (base shared : Data) → Phase Call Local → Type ℓ
  RunOf base shared (works c l) = Ran g c base (some l) shared
  RunOf base shared _ = Unit

  idle_run :
      (base shared : Data) (f : Phase Call Local) → is_working f ≡ false → RunOf base shared f
  idle_run base shared outside h = tt
  idle_run base shared (wants c) h = tt
  idle_run base shared (works c l) h = cc h
  idle_run base shared leaves h = tt

  record Serialised (d : Data) (ks : List (Client Call Local)) (shared : Data) (done : List Call)
      : Type ℓ where
    base : Data
    serial : Serial g d done base
    running : All (λ i k. RunOf base shared k.phase) ks
    at_rest : AtRest ks → shared ≡ base

module _ {ℓ} {Data Call Local : Type ℓ} {g : Guarded Data Call Local} where
  -- A client that does not work changes to a phase in which it does not.
  idle-Serialised :
      {d : Data} {ks : List (Client Call Local)} {shared : Data} {done : List Call} (i : ℕ)
      {k : Client Call Local} (k' : Client Call Local)
      → get_elem? ks i ≡ some k
      → is_working k.phase ≡ false
      → is_working k'.phase ≡ false
      → Serialised g d ks shared done
      → Serialised g d (set ks i k') shared done
  idle-Serialised {ks} {shared} i k' e was is_now z = record {
    base = z.base;
    serial = z.serial;
    running =
        All-set (λ j q. RunOf g z.base shared q.phase) ks i k' e
          (idle_run g z.base shared k'.phase is_now) (λ j q ne at. z.running j q at);
    at_rest = λ h. z.at_rest (All-unset (λ j q. is_working q.phase ≡ false) ks i k' e was h);
  }

module _ {ℓ} {Data Call Local : Type ℓ} {g : Guarded Data Call Local} {d : Data}
    {programs : List (List Call)} where
  -- While a thread owns the mutex no other client works.
  others_idle :
      {s : System Data Call Local}
      → Reach g d programs s
      → (i : ℕ) → get_elem? s.mutex.threads i ≡ some critical
      → (j : ℕ) (k : Client Call Local) → i ≢ j
      → get_elem? s.clients j ≡ some k
      → is_working k.phase ≡ false
  others_idle {s} r i e j k ne at =
      unowned-idle s.mutex j k.phase (Reach-owns r j k at) (λ f. ne (owners_agree r i j e f))

  advanced :
      {s : System Data Call Local}
      → Reach g d programs s
      → (i : ℕ) (c : Call) (l : Local) (cs : List Call)
      → get_elem? s.clients i ≡ some (record { phase = works c l; calls = cs })
      → (z : Serialised g d s.clients s.shared s.done) → (o : Option Local) (d' : Data)
      → Ran g c z.base o d'
      → Serialised g d
          (set s.clients i (record { phase = next_phase c o; calls = cs }))
          d'
          (s.done ++ over c o)
  advanced {s} r i c l cs e z none d' run = record {
    base = d';
    serial = Serial.made z.serial run;
    running =
        All-set (λ j q. RunOf g d' d' q.phase) s.clients i (record { phase = leaves; calls = cs }) e
          tt
          (λ j q ne at. idle_run g d' d' q.phase (others_idle r i (Reach-owns r i _ e) j q ne at));
    at_rest = λ h. refl;
  }
  advanced {s} r i c l cs e z (some l') d' run = record {
    base = z.base;
    serial = rw append-nil z.serial;
    running =
        All-set (λ j q. RunOf g z.base d' q.phase) s.clients i
          (record { phase = works c l'; calls = cs }) e run
          (λ j q ne at.
            idle_run g z.base d' q.phase (others_idle r i (Reach-owns r i _ e) j q ne at));
    at_rest = λ h.
        absurd
          (working-not-AtRest s.clients i (record { phase = works c l'; calls = cs }) e refl h);
  }

  Step-Serialised :
      {s t : System Data Call Local}
      → Reach g d programs s
      → Step g s t
      → Serialised g d s.clients s.shared s.done
      → Serialised g d t.clients t.shared t.done
  Step-Serialised r (locks i c cs e f) z =
      idle-Serialised i (record { phase = wants c; calls = cs }) e refl refl z
  Step-Serialised r (waits st h) z = z
  Step-Serialised {s} r (enters i c cs e f) z =
      let k : Client Call Local = record { phase = works c (g.begin c); calls = cs } in
      let others = others_idle r i f in
      let rest : AtRest s.clients =
        All-unset (λ j q. is_working q.phase ≡ false) s.clients i
          (record { phase = outside; calls = cs }) e refl
          (All-set (λ j q. is_working q.phase ≡ false) s.clients i
            (record { phase = outside; calls = cs }) e refl others) in
      record {
        base = z.base;
        serial = z.serial;
        running =
            All-set (λ j q. RunOf g z.base s.shared q.phase) s.clients i k e
              (subst (λ b. Ran g c z.base (some (g.begin c)) b) (sym (z.at_rest rest)) Ran.begun)
              (λ j q ne at. z.running j q at);
        at_rest = λ h. absurd (working-not-AtRest s.clients i k e refl h);
      }
  Step-Serialised {s} r (advances i c l cs e) z =
      advanced r i c l cs e z (g.advance l s.shared).0 (g.advance l s.shared).1
        (Ran.then (z.running i (record { phase = works c l; calls = cs }) e))
  Step-Serialised r (unlocks i cs e f) z =
      idle-Serialised i (record { phase = outside; calls = cs }) e refl refl z

  Reach-Serialised :
      {s : System Data Call Local} → Reach g d programs s → Serialised g d s.clients s.shared s.done
  Reach-Serialised start = record {
    base = d;
    serial = Serial.none_made;
    running = λ i k e.
        let (cs, at, same) =
          get_elem?_of_map (λ cs. record { phase = outside; calls = cs }) programs i e in
        subst (λ q. RunOf g d d q.phase) same tt;
    at_rest = λ h. refl;
  }
  Reach-Serialised (later r st) = Step-Serialised r st (Reach-Serialised r)

phase_cases {ℓ} :
    {Call Local : Type ℓ} (f : Phase Call Local)
    → ((c : Call) × (l : Local) × (f ≡ works c l)) ⊎ (is_working f ≡ false)
phase_cases outside = inr refl
phase_cases (wants c) = inr refl
phase_cases (works c l) = inl (c, l, refl)
phase_cases leaves = inr refl

-- A client that works, or none.
find_working {ℓ} :
    {Call Local : Type ℓ} (ks : List (Client Call Local))
    → ((i : ℕ) × (c : Call) × (l : Local) × (cs : List Call) × (get_elem? ks i
          ≡ some (record { phase = works c l; calls = cs })))
      ⊎ AtRest ks
find_working [] = inr (All-nil (λ i q. is_working q.phase ≡ false))
find_working (k ∷ ks) = elim (phase_cases k.phase) [
  | inl (c, l, e) ↦ inl (0, c, l, k.calls, ap (λ f. some (record { phase = f; calls = k.calls })) e)
  | inr idle ↦ elim (find_working ks) [
    | inl (i, c, l, cs, e) ↦ inl (suc i, c, l, cs, e)
    | inr rest ↦ inr (All-cons (λ i q. is_working q.phase ≡ false) k ks idle rest)
  ]
]

module _ {ℓ} {Data Call Local : Type ℓ} (g : Guarded Data Call Local) where
  -- What the shared data is, where `base` is what the calls that are over leave: `base` while no
  -- client works, and otherwise what the one call that is under way has made of it so far.
  pub data Shows (ks : List (Client Call Local)) (base : Data) : Data → Type ℓ where
    settled : AtRest ks → Shows ks base base
    under_way :
        {shared : Data} (i : ℕ) (c : Call) (l : Local) (cs : List Call)
        → get_elem? ks i ≡ some (record { phase = works c l; calls = cs })
        → Ran g c base (some l) shared
        → Shows ks base shared

module _ {ℓ} {Data Call Local : Type ℓ} {g : Guarded Data Call Local} {d : Data}
    {programs : List (List Call)} where
  -- Whatever the calls do between `lock` and `unlock`, and however the threads are interleaved: in
  -- every reachable state the data is what the calls that are over make of it one after the other, in
  -- the order of their last accesses, and then the call under way, if there is one, by its accesses
  -- so far.
  pub calls_serialise :
      {s : System Data Call Local}
      → Reach g d programs s
      → (base : Data) × Serial g d s.done base × Shows g s.clients base s.shared
  calls_serialise {s} r =
      let z = Reach-Serialised r in
      (
        z.base,
        z.serial,
        elim (find_working s.clients) [
          | inl found ↦
              Shows.under_way found.0 found.1 found.2 found.3 found.4 (z.running found.0 _ found.4)
          | inr rest ↦ subst (Shows g s.clients z.base) (sym (z.at_rest rest)) (Shows.settled rest)
        ],
      )

-- While no client works, the data is what the calls that are over leave.
pub settled-base {ℓ} :
    {Data Call Local : Type ℓ} {g : Guarded Data Call Local} (ks : List (Client Call Local))
    {base shared : Data}
    → Shows g ks base shared
    → AtRest ks
    → shared ≡ base
settled-base ks (Shows.settled rest) h = refl
settled-base ks (Shows.under_way i c l cs e run) h = cc (h i _ e)
