-- ===== src/Mutex/Invariant.antt =====
-- The mutex is taken exactly while one thread owns it, and no sleeper is forgotten.
use sync_tools.Prelude.{
  ℕ, ◌+◌, ◌≤◌, ◌<◌, ◌≡◌, ◌≢◌, refl, sym, ap, ◌⊎◌, inl, inr, some, arith, get_elem?, set, dec_lt,
  subst, ◌∙◌, get_elem?-set_self, get_elem?-set_other,
}
use sync_tools.Mutex.{
  MutexState, unlocked, contended, Place, idle, fast_path, trying, swapping, waiting, asleep,
  critical, waking, access,
}
use sync_tools.Mutex.Tally.{tally, tally-set, le-tally, tally-pos, tally-replicate}
use sync_tools.Mutex.Threads.{
  System, Step, call_lock, call_try_lock, make_access, interrupt_wait, interrupt_sleep, wake_one,
  wake_none, init, Reach, start, later,
}

abbrev pub taken : MutexState → ℕ
taken unlocked = 0
taken _ = 1

abbrev pub owns : Place → ℕ
owns critical = 1
owns _ = 0

abbrev pub sleeps : Place → ℕ
sleeps asleep = 1
sleeps _ = 0

-- A thread that is about to mark the mutex contended, or to wake a sleeper.
abbrev pub stirs : Place → ℕ
stirs swapping = 1
stirs waking = 1
stirs _ = 0

sleeper : (p : Place) → 0 < sleeps p → p ≡ asleep
sleeper asleep h = refl
sleeper _ h = absurd (omega arith)

pub record Inv (s : System) : Type 0 where
  pub owned : tally owns s.threads ≡ taken s.state
  pub minded : (tally sleeps s.threads ≡ 0) ⊎ ((s.state ≡ contended) ⊎ (0 < tally stirs s.threads))

-- What one access does to the counts.
record Accessed (w : MutexState) (p : Place) (w' : MutexState) (p' : Place) : Type 0 where
  ownership : taken w' + owns p ≡ taken w + owns p'
  effect :
      (w' ≡ contended)
      ⊎ ((0 < stirs p') ⊎ ((sleeps p' ≤ sleeps p) × (stirs p ≤ stirs p') × (w ≢ contended)))

access_counts :
    (w : MutexState) (p : Place) → owns p ≤ taken w → Accessed w p (access w p).0 (access w p).1
unfolding access
access_counts unlocked idle h = record { ownership = refl; effect = ground arith }
access_counts w p h = record { ownership = ground arith; effect = ground arith }

waking-ne-asleep : ¬ (some waking ≡ some asleep)
waking-ne-asleep h = cc

module _ {s : System} (inv : Inv s) where
  -- A thread that owns the mutex after a move if it did before, that does not fall asleep and does
  -- not stop to stir, keeps the invariant.
  calm :
      (i : ℕ) (p p' : Place)
      → get_elem? s.threads i ≡ some p
      → owns p ≡ owns p'
      → sleeps p' ≤ sleeps p
      → stirs p ≤ stirs p'
      → Inv (record s { threads = set s.threads i p' })
  calm i p p' e o l m = record {
    owned = omega (arith, inv.owned, tally-set owns s.threads i p p' e);
    minded = ground (
      arith,
      inv.minded,
      tally-set sleeps s.threads i p p' e,
      tally-set stirs s.threads i p p' e,
    );
  }

  access-Inv :
      (i : ℕ) (p : Place)
      → get_elem? s.threads i ≡ some p
      → Inv
          (record { state = (access s.state p).0; threads = set s.threads i (access s.state p).1 })
  access-Inv i p e =
      let c = access_counts s.state p (omega (arith, inv.owned, le-tally owns s.threads i p e)) in
      let p' : Place = (access s.state p).1 in
      record {
        owned = omega (arith, c.ownership, inv.owned, tally-set owns s.threads i p p' e);
        minded = elim c.effect [
          | inl marked ↦ inr (inl marked)
          | inr rest ↦ elim rest [
            | inl stirring ↦ inr (
                inr (
                  omega (
                    arith,
                    le-tally stirs (set s.threads i p') i p'
                        (get_elem?-set_self s.threads i {a = p} p' e),
                  )))
            | inr quiet ↦ ground (
              arith,
              inv.minded,
              quiet,
              tally-set sleeps s.threads i p p' e,
              tally-set stirs s.threads i p p' e,
            )
          ]
        ];
      }

  wake_one-Inv :
      (i j : ℕ)
      → get_elem? s.threads i ≡ some waking
      → get_elem? s.threads j ≡ some asleep
      → Inv (record s { threads = set (set s.threads i idle) j swapping })
  wake_one-Inv i j e k =
      let ne : i ≢ j = λ eq. waking-ne-asleep (sym e ∙ ap (λ m. get_elem? s.threads m) eq ∙ k) in
      let k' : get_elem? (set s.threads i idle) j ≡ some asleep =
        get_elem?-set_other s.threads i j idle ne ∙ k in
      record {
        owned = omega (
          arith,
          inv.owned,
          tally-set owns s.threads i waking idle e,
          tally-set owns (set s.threads i idle) j asleep swapping k',
        );
        minded = inr (
            inr (
              omega (
                arith,
                tally-set stirs s.threads i waking idle e,
                tally-set stirs (set s.threads i idle) j asleep swapping k',
              )));
      }

  wake_none-Inv :
      (i : ℕ)
      → get_elem? s.threads i ≡ some waking
      → ((j : ℕ) → get_elem? s.threads j ≢ some asleep)
      → Inv (record s { threads = set s.threads i idle })
  wake_none-Inv i e none_asleep = record {
    owned = omega (arith, inv.owned, tally-set owns s.threads i waking idle e);
    minded = inl (omega (arith, tally-set sleeps s.threads i waking idle e, no_sleeper));
  }
    where
      no_sleeper : tally sleeps s.threads ≡ 0
      no_sleeper = elim (dec_lt 0 (tally sleeps s.threads)) [
        | yes l ↦
            let (j, p, k, w) = tally-pos sleeps s.threads l in
            absurd (none_asleep j (subst (λ q. get_elem? s.threads j ≡ some q) (sleeper p w) k))
        | no l ↦ omega arith
      ]

init-Inv : (n : ℕ) → Inv (init n)
init-Inv n = record {
  owned = tally-replicate owns n idle refl;
  minded = inl (tally-replicate sleeps n idle refl);
}

Step-Inv : {s t : System} → Step s t → Inv s → Inv t
Step-Inv (call_lock i e) inv = calm inv i idle fast_path e refl (omega arith) (omega arith)
Step-Inv (call_try_lock i e) inv = calm inv i idle trying e refl (omega arith) (omega arith)
Step-Inv (make_access i p e) inv = access-Inv inv i p e
Step-Inv (interrupt_wait i e) inv = calm inv i waiting swapping e refl (omega arith) (omega arith)
Step-Inv (interrupt_sleep i e) inv = calm inv i asleep swapping e refl (omega arith) (omega arith)
Step-Inv (wake_one i j e k) inv = wake_one-Inv inv i j e k
Step-Inv (wake_none i e k) inv = wake_none-Inv inv i e k

pub Reach-Inv : {n : ℕ} {s : System} → Reach n s → Inv s
Reach-Inv {n} start = init-Inv n
Reach-Inv (later r st) = Step-Inv st (Reach-Inv r)
