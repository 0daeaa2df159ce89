-- ===== src/Mutex/Safety.antt =====
-- What the mutex guarantees to any number of threads.
use sync_tools.Prelude.{
  ℕ, ◌≤◌, ◌<◌, ◌≡◌, ◌≢◌, refl, ap, ◌⊎◌, inl, inr, some, arith, get_elem?, ℕ_discrete, subst,
}
use sync_tools.Mutex.{
  MutexState, unlocked, locked, contended, Place, swapping, asleep, critical, waking,
}
use sync_tools.Mutex.Tally.{tally, le-tally, two-le-tally, tally-pos}
use sync_tools.Mutex.Threads.{System, Reach}
use sync_tools.Mutex.Invariant.{Reach-Inv, taken, owns, sleeps, stirs}

owner : (p : Place) → 0 < owns p → p ≡ critical
owner critical h = refl
owner _ h = absurd (omega arith)

stirrer : (p : Place) → 0 < stirs p → (p ≡ swapping) ⊎ (p ≡ waking)
stirrer swapping h = inl refl
stirrer waking h = inr refl
stirrer _ h = absurd (omega arith)

-- In every reachable state two threads that own the mutex are one thread.
pub mutual_exclusion :
    {n : ℕ} {s : System}
    → Reach n s
    → (i j : ℕ) → get_elem? s.threads i ≡ some critical
    → get_elem? s.threads j ≡ some critical
    → i ≡ j
mutual_exclusion {s = s} r i j e k = elim (ℕ_discrete i j) [
  | yes same ↦ same
  | no ne ↦ absurd (
      excluded s.state (Reach-Inv r).owned
        (two-le-tally owns s.threads i j critical critical ne e k))
]
  where
    excluded : (w : MutexState) → tally owns s.threads ≡ taken w → 2 ≤ tally owns s.threads → ⊥
    excluded unlocked e l = omega arith
    excluded locked e l = omega arith
    excluded contended e l = omega arith

-- In every reachable state the state is `Free` exactly if no thread owns the mutex: a thread owns
-- it, or the state is `Free` and no thread does.
pub free_iff_unowned :
    {n : ℕ} {s : System}
    → Reach n s
    → ((i : ℕ) × (get_elem? s.threads i ≡ some critical) × (s.state ≢ unlocked))
      ⊎ ((s.state ≡ unlocked) × ((i : ℕ) → get_elem? s.threads i ≢ some critical))
free_iff_unowned {s = s} r = go s.state refl
  where
    held :
        0 < tally owns s.threads
        → s.state ≢ unlocked
        → (i : ℕ) × (get_elem? s.threads i ≡ some critical) × (s.state ≢ unlocked)
    held l ne =
        let (i, p, e, w) = tally-pos owns s.threads l in
        (i, subst (λ q. get_elem? s.threads i ≡ some q) (owner p w) e, ne)

    go :
        (w : MutexState)
        → s.state ≡ w
        → ((i : ℕ) × (get_elem? s.threads i ≡ some critical) × (s.state ≢ unlocked))
          ⊎ ((s.state ≡ unlocked) × ((i : ℕ) → get_elem? s.threads i ≢ some critical))
    go unlocked e = inr (
      e,
      λ i k. omega (arith, (Reach-Inv r).owned, ap taken e, le-tally owns s.threads i critical k),
    )
    go locked e = inl (held (omega (arith, (Reach-Inv r).owned, ap taken e)) (λ f. cc (e, f)))
    go contended e = inl (held (omega (arith, (Reach-Inv r).owned, ap taken e)) (λ f. cc (e, f)))

-- No wake-up is lost: in every reachable state with a thread asleep on the futex, a thread owns the
-- mutex with the state `Contended`, so that its `unlock` will wake one, or a thread is about to
-- make the exchange with `Contended` or the wake-up call.
pub no_lost_wakeup :
    {n : ℕ} {s : System}
    → Reach n s
    → (j : ℕ) → get_elem? s.threads j ≡ some asleep
    → (i : ℕ) × (((get_elem? s.threads i ≡ some critical) × (s.state ≡ contended))
        ⊎ ((get_elem? s.threads i ≡ some swapping) ⊎ (get_elem? s.threads i ≡ some waking)))
no_lost_wakeup {s = s} r j k = elim (Reach-Inv r).minded [
  | inl none_sleeps ↦ absurd (omega (arith, le-tally sleeps s.threads j asleep k))
  | inr rest ↦ elim rest [
    | inl marked ↦
        let (i, p, e, w) =
          tally-pos owns s.threads (omega (arith, (Reach-Inv r).owned, ap taken marked)) in
        (i, inl (subst (λ q. get_elem? s.threads i ≡ some q) (owner p w) e, marked))
    | inr stirring ↦
        let (i, p, e, w) = tally-pos stirs s.threads stirring in
        elim (stirrer p w) [
          | inl q ↦ (i, inr (inl (subst (λ q. get_elem? s.threads i ≡ some q) q e)))
          | inr q ↦ (i, inr (inr (subst (λ q. get_elem? s.threads i ≡ some q) q e)))
        ]
  ]
]
