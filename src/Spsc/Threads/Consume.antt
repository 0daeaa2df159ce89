-- ===== src/Spsc/Threads/Consume.antt =====
-- Each access by the consumer keeps the invariant.
use sync_tools.Prelude.{
  ℕ, suc, ◌+◌, ◌%◌, ◌<◌, ◌≤◌, ◌≡◌, ◌≢◌, refl, sym, ◌∙◌, ap, Option, none, some, List, [], ◌∷◌, ◌++◌,
  arith, length, set, get_elem?, append-nil, append_assoc, get_elem?_of_ge, length-append,
  suc-==-zero, ==_comm, subst,
}
use native.Mathlib.Nat.{mod-lt, mod-eq_of_lt, add-zero}
use sync_tools.Prelude.Words.{IsPow2, IsPow2-pos}
use sync_tools.Prelude.Modular.{mod_shift}
use sync_tools.Storage.{slot, take_at, take_at-ok}
use sync_tools.Ring.{Slots-ext, Slots-shift, Slots-first, Slots-clear, view_of}
use sync_tools.Spsc.Queue.{Queue, next_index}
use sync_tools.Spsc.Holds.{next_index_lem}
use sync_tools.Spsc.Threads.{
  Producer, Consumer, Mode, non_blocking, blocking, ConsumerMove, call, loads_tail, sees_empty,
  sees_object, takes, releases, first_stopped, first_running, second_stopped, second_running,
  pop_failed,
}
use sync_tools.Spsc.Threads.Invariant.{staged, erase, ProducerKnows, ConsumerKnows, Inv}

-- A consumer that has taken nothing out sees every object.
abbrev IsClear {ℓ} : {A : Type ℓ} → Consumer A → Type 0
IsClear (Consumer.store_tail m t v) = ⊥
IsClear _ = Unit

erase-clear {ℓ} :
    {A : Type ℓ} (k : Consumer A) → IsClear k → (f : ℕ → Option A) (j : ℕ) → erase k f j ≡ f j
erase-clear (Consumer.store_tail m t v) h f j = absurd h
erase-clear _ h f j = refl

failed-IsClear {ℓ} : (A : Type ℓ) (m : Mode) → IsClear (pop_failed {A = A} m)
failed-IsClear A non_blocking = tt
failed-IsClear A blocking = tt

module _ {ℓ} {A : Type ℓ} {size : ℕ} (pow : IsPow2 size) where
  module _ {q : Queue A} {p : Producer A} {k : Consumer A} {pushed popped c : List A}
      (inv : Inv size q p k pushed popped c) where
    Inv-local :
        (k' : Consumer A)
        → IsClear k
        → IsClear k'
        → ConsumerKnows q.tail c k'
        → Inv size q p k' pushed (popped ++ []) c
    Inv-local k' clear clear' knows = record {
      slots = Slots-ext inv.slots (λ j l.
          erase-clear k clear (view_of (c ++ staged p)) j
          ∙ sym (erase-clear k' clear' (view_of (c ++ staged p)) j));
      tail_in = inv.tail_in;
      room = inv.room;
      head_at = inv.head_at;
      producer_knows = inv.producer_knows;
      consumer_knows = knows;
      order = ap (λ l. l ++ c) (append-nil popped) ∙ inv.order;
    }

    -- A successful test for an element means that there is one.
    object_of_test : {t : ℕ} → t ≡ q.tail → t ≢ q.head → (v : A) × (rest : List A) × (c ≡ v ∷ rest)
    object_of_test {t} e ne = go c inv.head_at
      where
        go :
            (l : List A)
            → q.head ≡ (q.tail + length l) % size
            → (v : A) × (rest : List A) × (l ≡ v ∷ rest)
        go [] h = absurd (ne (e ∙ sym (h ∙ rw add-zero (mod-eq_of_lt inv.tail_in))))
        go (x ∷ l) h = (x, l, refl)

    -- What is staged fits behind the elements.
    staged_fits : length c + length (staged p) < size
    staged_fits = go p inv.producer_knows
      where
        go :
            (p : Producer A)
            → ProducerKnows size q.head (length c) p
            → length c + length (staged p) < size
        go (Producer.store_head m v h) knows = omega (arith, knows.1)
        go _ knows = omega (arith, inv.room)

  Inv-take :
      {q : Queue A} {p : Producer A} {pushed popped c : List A} {m : Mode} {t : ℕ} {v : A}
      {b : List (Option A)}
      → take_at q.buffer t ≡ some (v, b)
      → Inv size q p (Consumer.take_object m t) pushed popped c
      → Inv size (record q { buffer = b }) p (Consumer.store_tail m t v) pushed (popped ++ []) c
  Inv-take {q} {p} {pushed} {popped} {c} {m} {t} {v} {b} e inv = record {
    slots = rw (sym written) (Slots-clear inv.slots inv.tail_in);
    tail_in = inv.tail_in;
    room = inv.room;
    head_at = inv.head_at;
    producer_knows = inv.producer_knows;
    consumer_knows = (knows.0, knows.2, knows.3 ∙ ap (λ (y : A). y ∷ knows.2) same);
    order = ap (λ l. l ++ c) (append-nil popped) ∙ inv.order;
  }
    where
      knows : (t ≡ q.tail) × (x : A) × (rest : List A) × (c ≡ x ∷ rest)
      knows = inv.consumer_knows

      found : slot q.buffer q.tail ≡ some knows.1
      found = Slots-first inv.slots inv.tail_in ∙ ap (λ l. get_elem? (l ++ staged p) 0) knows.3

      taken : take_at q.buffer t ≡ some (knows.1, set q.buffer q.tail none)
      taken = rw knows.0 (take_at-ok q.buffer q.tail knows.1 found)

      same : knows.1 ≡ v
      same = cc taken

      written : set q.buffer q.tail none ≡ b
      written = cc taken

  -- Fewer elements leave more room.
  knows_fewer :
      (p : Producer A) (h n n' : ℕ) → n' ≤ n → ProducerKnows size h n p → ProducerKnows size h n' p
  knows_fewer (Producer.construct m v h') h n n' l k = (k.0, omega (arith, k.1))
  knows_fewer (Producer.store_head m v h') h n n' l k = (k.0, omega (arith, k.1))
  knows_fewer (Producer.load_tail m v h') h n n' l k = k
  knows_fewer Producer.idle h n n' l k = tt
  knows_fewer (Producer.load_status m v) h n n' l k = tt
  knows_fewer (Producer.load_head m v) h n n' l k = tt
  knows_fewer (Producer.check_relaxed v) h n n' l k = tt
  knows_fewer (Producer.check_acquire v) h n n' l k = tt

  Inv-release :
      {q : Queue A} {p : Producer A} {pushed popped : List A} {m : Mode} {t : ℕ} {v : A}
      (rest : List A)
      → t ≡ q.tail
      → Inv size q p (Consumer.store_tail m t v) pushed popped (v ∷ rest)
      → Inv size
          (record q { tail = next_index size t })
          p
          Consumer.idle
          pushed
          (popped ++ (v ∷ []))
          rest
  Inv-release {q} {p} {pushed} {popped} {m} {t} {v} rest e inv = record {
    slots = rw moved (
        Slots-shift inv.slots (view_of (rest ++ staged p))
          (λ j l. rw (==_comm 0 (suc j), suc-==-zero j))
          (λ j l. sym (
            get_elem?_of_ge (rest ++ staged p) j
              (omega (arith, length-append rest (staged p), staged_fits inv))))
          inv.tail_in);
    tail_in = rw moved (mod-lt (q.tail + 1) (IsPow2-pos pow));
    room = omega (arith, inv.room);
    head_at = inv.head_at ∙ rw moved (sym (mod_shift size q.tail (length rest)));
    producer_knows =
        knows_fewer p q.head (suc (length rest)) (length rest) (omega arith) inv.producer_knows;
    consumer_knows = tt;
    order = append_assoc popped (v ∷ []) rest ∙ inv.order;
  }
    where
      moved : next_index size t ≡ (q.tail + 1) % size
      moved = ap (next_index size) e ∙ next_index_lem pow q.tail inv.tail_in

  failed-knows : (m : Mode) (t : ℕ) (c : List A) → ConsumerKnows t c (pop_failed m)
  failed-knows non_blocking t c = tt
  failed-knows blocking t c = tt

  -- Each access by the consumer keeps the invariant, for some elements.
  pub ConsumerMove-Inv :
      {q q' : Queue A} {p : Producer A} {k k' : Consumer A} {out pushed popped c : List A}
      → ConsumerMove size q k q' k' out
      → Inv size q p k pushed popped c
      → (c' : List A) × Inv size q' p k' pushed (popped ++ out) c'
  ConsumerMove-Inv {c} (call m) inv = (c, Inv-local inv (Consumer.load_tail m) tt tt tt)
  ConsumerMove-Inv {c} loads_tail inv = (c, Inv-local inv _ tt tt (refl, tt))
  ConsumerMove-Inv {q} {c = c} (sees_empty {m = m} e) inv =
      (c, Inv-local inv (pop_failed m) tt (failed-IsClear A m) (failed-knows m q.tail c))
  ConsumerMove-Inv {c} (sees_object ne) inv =
      let e = inv.consumer_knows.0 in
      let (v, rest, eq) = object_of_test inv e ne in (c, Inv-local inv _ tt tt (e, v, rest, eq))
  ConsumerMove-Inv {c} (takes e) inv = (c, Inv-take e inv)
  ConsumerMove-Inv {q} {p = p} {pushed = pushed} {popped = popped} {c = c}
        (releases {m = m} {t = t} {v = v}) inv =
      let (e, rest, eq) = inv.consumer_knows in
      (
        rest,
        Inv-release rest e
            (subst (λ l. Inv size q p (Consumer.store_tail m t v) pushed popped l) eq inv),
      )
  ConsumerMove-Inv {c} (first_stopped e) inv = (c, Inv-local inv _ tt tt tt)
  ConsumerMove-Inv {c} (first_running e) inv = (c, Inv-local inv _ tt tt tt)
  ConsumerMove-Inv {c} (second_stopped e) inv = (c, Inv-local inv _ tt tt tt)
  ConsumerMove-Inv {c} (second_running e) inv = (c, Inv-local inv _ tt tt tt)
