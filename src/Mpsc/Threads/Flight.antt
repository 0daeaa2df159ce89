-- ===== src/Mpsc/Threads/Flight.antt =====
-- A producer moves on without writing to a cell, or claims the next one.
use sync_tools.Prelude.{
  ℕ, suc, ◌+◌, ◌^◌, ◌<◌, ◌≡◌, ◌≢◌, refl, sym, ◌∙◌, ap, none, some, some-injective, List, [], ◌∷◌,
  ◌++◌, ◌⊎◌, inl, inr, arith, length, length-snoc, get_elem?-snoc, get_elem?-append_left, dec_lt,
  ==_iff,
}
use sync_tools.Prelude.Words.{add_size}
use sync_tools.Prelude.Family.{update, update_self, update_other, update_all}
use sync_tools.Spsc.Threads.{Mode}
use sync_tools.Mpsc.Queue.{Queue}
use sync_tools.Mpsc.Threads.{Producer, Consumer}
use sync_tools.Mpsc.Threads.Invariant.{in_flight, taken, ProducerKnows, Inv}
use sync_tools.Mpsc.Threads.Knows.{
  flight_owns, Published-claimed, ProducerKnows-claimed, ConsumerKnows-claimed,
}
use sync_tools.Mpsc.Threads.Facts.{taken-le}

-- A producer that stays with its cell, or without one.
pub same_flight {ℓ} :
    {A : Type ℓ} (ps : ℕ → Producer A) (i : ℕ) (p : Producer A)
    → in_flight p ≡ in_flight (ps i)
    → (j : ℕ) → in_flight (update ps i p j) ≡ in_flight (ps j)
same_flight ps i p e = update_all ps i p (λ j p'. in_flight p' ≡ in_flight (ps j)) e (λ j ne. refl)

-- A producer that is flying after another's change.
flying {ℓ} :
    {A : Type ℓ} (ps : ℕ → Producer A) (i : ℕ) (p : Producer A) (pos j : ℕ)
    → in_flight (update ps i p j) ≡ some pos
    → ((i ≡ j) × (in_flight p ≡ some pos)) ⊎ ((i ≢ j) × (in_flight (ps j) ≡ some pos))
flying ps i p pos =
    update_all ps i p
      (λ j p'.
        in_flight p' ≡ some pos
        → ((i ≡ j) × (in_flight p ≡ some pos)) ⊎ ((i ≢ j) × (in_flight (ps j) ≡ some pos)))
      (λ e. inl (refl, e)) (λ j ne e. inr (ne, e))

-- No two producers fly at one position, where producer `i` starts to fly at most at a new one.
pub distinct-update {ℓ} :
    {A : Type ℓ} (ps : ℕ → Producer A) (i : ℕ) (p : Producer A)
    → ((j j' pos : ℕ) → in_flight (ps j) ≡ some pos → in_flight (ps j') ≡ some pos → j ≡ j')
    → ((j pos : ℕ) → i ≢ j → in_flight (ps j) ≡ some pos → in_flight p ≢ some pos)
    → (j j' pos : ℕ) → in_flight (update ps i p j) ≡ some pos
    → in_flight (update ps i p j') ≡ some pos
    → j ≡ j'
distinct-update ps i p old apart j j' pos a b = elim (flying ps i p pos j a) [
  | inl f ↦ elim (flying ps i p pos j' b) [
    | inl g ↦ sym f.0 ∙ g.0
    | inr g ↦ absurd (apart j' pos g.0 g.1 f.1)
  ]
  | inr f ↦ elim (flying ps i p pos j' b) [
    | inl g ↦ absurd (apart j pos f.0 f.1 g.1)
    | inr g ↦ old j j' pos f.1 g.1
  ]
]

module _ {ℓ} {A : Type ℓ} {size h r : ℕ} {q : Queue A} {ps : ℕ → Producer A} {k : Consumer A}
    {claimed popped : List A} (inv : Inv size h r q ps k claimed popped) (i : ℕ) where
  -- Producer `i` moves on and changes nothing that others see.
  pub Inv-local :
      (p : Producer A)
      → in_flight p ≡ in_flight (ps i)
      → ProducerKnows size h r q.cells claimed (taken k r) p
      → Inv size h r q (update ps i p) k claimed popped
  Inv-local p e knows = record {
    long = inv.long;
    claims = inv.claims;
    pops = inv.pops;
    head_at = inv.head_at;
    tail_at = inv.tail_at;
    behind = inv.behind;
    room = inv.room;
    order = inv.order;
    free = inv.free;
    filled = λ pos a b. elim (inv.filled pos a b) [
      | inl o ↦ inl o
      | inr f ↦ inr (f.0, same_flight ps i p e f.0 ∙ f.1)
    ];
    producers_know =
        update_all ps i p (λ j p'. ProducerKnows size h r q.cells claimed (taken k r) p') knows
          (λ j ne. inv.producers_know j);
    distinct = λ j j' pos a b.
        inv.distinct j j' pos (sym (same_flight ps i p e j) ∙ a)
          (sym (same_flight ps i p e j') ∙ b);
    consumer_knows = inv.consumer_knows;
  }

  -- A compare-exchange that succeeds: the cell at `h` is the producer's.
  pub Inv-claim :
      (m : Mode) (v : A)
      → in_flight (ps i) ≡ none
      → h < r + size
      → h + size < 2 ^ 63
      → Inv size
          (suc h)
          r
          (record q { head = add_size h 1 })
          (update ps i (Producer.construct m v h))
          k
          (claimed ++ (v ∷ []))
          popped
  Inv-claim m v none_yet room b = record {
    long = inv.long;
    claims = omega (arith, length-snoc claimed v, inv.claims);
    pops = inv.pops;
    head_at = omega arith;
    tail_at = inv.tail_at;
    behind = omega (arith, inv.behind);
    room = omega arith;
    order = λ pos l.
        inv.order pos l
        ∙ sym (get_elem?-append_left claimed (v ∷ []) pos (omega (arith, inv.claims, inv.behind)));
    free = λ pos a l. inv.free pos (omega arith) l;
    filled = λ pos a l. elim (dec_lt pos h) [
      | yes old ↦ elim (inv.filled pos a old) [
        | inl o ↦ inl (Published-claimed size h r (taken k r) q.cells claimed v inv.claims old o)
        | inr f ↦
            inr (f.0, ap in_flight (update_other ps i p f.0 (λ e. grounded f.0 pos e f.1)) ∙ f.1)
      ]
      | no new ↦ inr (i, ap in_flight (update_self ps i p) ∙ ap some (omega arith))
    ];
    producers_know =
        update_all ps i p (λ j p'. ProducerKnows size (suc h) r q.cells claimed' (taken k r) p')
          (record {
            from = taken-le size h r q.cells claimed k inv.consumer_knows inv.behind;
            below = omega arith;
            claimed_for =
                get_elem?-snoc claimed v h ∙ rw ((==_iff (length claimed) h).1 inv.claims);
            there = inv.free h (omega arith) room;
          })
          (λ j ne.
            ProducerKnows-claimed size h r (taken k r) q.cells claimed v inv.claims (ps j)
              (inv.producers_know j));
    distinct = distinct-update ps i p inv.distinct (λ j pos ne f f'.
        let (w, x, o) =
          flight_owns size h r (taken k r) q.cells claimed (ps j) (inv.producers_know j) f in
        omega (arith, o.below, some-injective _ _ f'));
    consumer_knows =
        ConsumerKnows-claimed size h r (taken k r) q.cells claimed v inv.claims k
          inv.consumer_knows;
  }
    where
      p : Producer A
      p = Producer.construct m v h

      claimed' : List A
      claimed' = claimed ++ (v ∷ [])

      grounded : (j pos : ℕ) → i ≡ j → in_flight (ps j) ≡ some pos → ⊥
      grounded j pos e f = cc (none_yet, ap (λ n. in_flight (ps n)) e, f)
