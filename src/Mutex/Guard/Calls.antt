-- ===== src/Mutex/Guard/Calls.antt =====
-- Each call of each thread is made once: the calls that are over, under way and still to be made are
-- those of the programs, whatever they are weighed by.
use sync_tools.Prelude.{ℕ, ◌+◌, ◌≡◌, refl, Option, none, some, List, arith}
use sync_tools.Mutex.Tally.{tally, tally-set, tally-append, tally-map}
use sync_tools.Mutex.Guard.{
  Guarded, Phase, outside, wants, works, Client, System, Step, locks, waits, next_phase, over,
  enters, advances, unlocks, Reach, start, later,
}

module _ {ℓ} {Call Local : Type ℓ} (w : Call → ℕ) where
  -- The call that a client has begun and that is not over.
  abbrev pub in_flight : Phase Call Local → ℕ
  in_flight (wants c) = w c
  in_flight (works c l) = w c
  in_flight _ = 0

  abbrev pub pending : Client Call Local → ℕ
  pending k = in_flight k.phase + tally w k.calls

  abbrev balance : {Data : Type ℓ} → System Data Call Local → ℕ
  balance s = tally w s.done + tally pending s.clients

  over-balance :
      (c : Call) (o : Option Local) → tally w (over c o) + in_flight (next_phase c o) ≡ w c
  unfolding tally
  over-balance c none = omega arith
  over-balance c (some l) = omega arith

module _ {ℓ} {Data Call Local : Type ℓ} {g : Guarded Data Call Local} (w : Call → ℕ) where
  Step-balance : {s t : System Data Call Local} → Step g s t → balance w t ≡ balance w s
  unfolding tally
  Step-balance {s} (locks i c cs e f) =
      omega (arith, tally-set (pending w) s.clients i _ (record { phase = wants c; calls = cs }) e)
  Step-balance (waits st h) = refl
  Step-balance {s} (enters i c cs e f) = omega (
    arith,
    tally-set (pending w) s.clients i _ (record { phase = works c (g.begin c); calls = cs }) e,
  )
  Step-balance {s} (advances i c l cs e) =
      let o = (g.advance l s.shared).0 in
      omega (
        arith,
        tally-set (pending w) s.clients i _ (record { phase = next_phase c o; calls = cs }) e,
        tally-append w s.done (over c o),
        over-balance w c o,
      )
  Step-balance {s} (unlocks i cs e f) =
      omega (arith, tally-set (pending w) s.clients i _ (record { phase = outside; calls = cs }) e)

  pub Reach-balance :
      {d : Data} {programs : List (List Call)} {s : System Data Call Local}
      → Reach g d programs s
      → tally w s.done + tally (pending w) s.clients ≡ tally (tally w) programs
  unfolding tally
  Reach-balance {programs = programs} start = omega (
    arith,
    tally-map (tally w) (pending {Local = Local} w) (λ cs. record { phase = outside; calls = cs })
        (λ cs. omega arith) programs,
  )
  Reach-balance (later r st) = omega (arith, Step-balance st, Reach-balance r)
