-- ===== src/Mpsc/Threads/Reachable.antt =====
-- What holds in every state that the threads can reach, while positions do not wrap.
use sync_tools.Prelude.{
  ℕ, ◌+◌, ◌^◌, ◌%◌, ◌≤◌, ◌<◌, ◌≡◌, refl, ◌∙◌, ap, none, some, [], arith, length, length-append,
  get_elem?,
}
use sync_tools.Prelude.Words.{IsPow2}
use sync_tools.Mpsc.Queue.{new_queue}
use sync_tools.Mpsc.Holds.{new_queue-Holds, cell_at}
use sync_tools.Mpsc.Threads.{System, Step, produce, consume, set_status, Reach, start, later, init}
use sync_tools.Mpsc.Threads.Invariant.{Inv}
use sync_tools.Mpsc.Threads.Produce.{ProducerMove-Inv}
use sync_tools.Mpsc.Threads.Consume.{ConsumerMove-Inv}

module _ {ℓ} {A : Type ℓ} where
  -- The invariant, at a system.
  abbrev pub SystemInv : ℕ → System A → Type ℓ
  SystemInv size s =
      (h : ℕ) × (r : ℕ) × Inv size h r s.queue s.producers s.consumer s.claimed s.popped

  fresh_cell : (j : ℕ) → cell_at {A = A} 0 [] j ≡ record { seq = j; storage = none }
  fresh_cell j = ground arith

module _ {ℓ} {A : Type ℓ} {size : ℕ} (pow : IsPow2 size) (two : 2 ≤ size) where
  init-Inv : SystemInv size (init A size)
  unfolding init new_queue
  init-Inv =
      let h = new_queue-Holds {A = A} pow in
      (
        0,
        0,
        record {
          long = h.long;
          claims = refl;
          pops = refl;
          head_at = refl;
          tail_at = refl;
          behind = omega arith;
          room = omega arith;
          order = λ n l. absurd (omega arith);
          free = λ n a l.
              ap (λ j. get_elem? (new_queue A size).cells (j % size)) (omega arith)
              ∙ h.at n (omega arith)
              ∙ ap some (fresh_cell n);
          filled = λ n a l. absurd (omega arith);
          producers_know = λ i. tt;
          distinct = λ i j n e f. absurd (cc e);
          consumer_knows = tt;
        },
      )

  Step-Inv :
      {s t : System A}
      → Step size s t
      → length s.claimed + size < 2 ^ 63
      → SystemInv size s
      → SystemInv size t
  Step-Inv (produce i e move) b (h, r, inv) =
      let (h', inv') = ProducerMove-Inv pow two (omega (arith, inv.claims)) inv i e move in
      (h', r, inv')
  Step-Inv (consume move) b (h, r, inv) =
      let (r', inv') = ConsumerMove-Inv pow two (omega (arith, inv.claims)) inv move in
      (h, r', inv')
  Step-Inv (set_status t) b (h, r, inv) = (
    h,
    r,
    record {
      long = inv.long;
      claims = inv.claims;
      pops = inv.pops;
      head_at = inv.head_at;
      tail_at = inv.tail_at;
      behind = inv.behind;
      room = inv.room;
      order = inv.order;
      free = inv.free;
      filled = inv.filled;
      producers_know = inv.producers_know;
      distinct = inv.distinct;
      consumer_knows = inv.consumer_knows;
    },
  )

  pub claimed_grows : {s t : System A} → Step size s t → length s.claimed ≤ length t.claimed
  claimed_grows {s = s} (produce i {out = out} e move) = omega (arith, length-append s.claimed out)
  claimed_grows (consume move) = omega arith
  claimed_grows (set_status t) = omega arith

  pub Reach-Inv :
      {s : System A} → Reach size s → length s.claimed + size < 2 ^ 63 → SystemInv size s
  Reach-Inv start b = init-Inv
  Reach-Inv (later {s} {t} reach step) b =
      let small : length s.claimed + size < 2 ^ 63 = omega (arith, claimed_grows step) in
      Step-Inv step small (Reach-Inv reach small)
