-- ===== src/Mpsc/Threads/Safety.antt =====
-- What holds of the values and the cells in every state that any number of producers and one
-- consumer can reach.
use sync_tools.Prelude.{
  ℕ, suc, ◌+◌, ◌%◌, ◌^◌, ◌≤◌, ◌<◌, ◌≡◌, ◌≢◌, refl, sym, ◌∙◌, ap, Option, none, some, List, ◌++◌,
  arith, length, get_elem?, length-append, first_part,
}
use sync_tools.Prelude.Words.{IsPow2, mask, mask-eq-mod}
use sync_tools.Spsc.Threads.{Mode}
use sync_tools.Mpsc.Queue.{Cell}
use sync_tools.Mpsc.Threads.{Producer, Consumer, System, Reach}
use sync_tools.Mpsc.Threads.Invariant.{in_flight}
use sync_tools.Mpsc.Threads.Cells.{window_injective, not_owned}
use sync_tools.Mpsc.Threads.Facts.{taken_range}
use sync_tools.Mpsc.Threads.Write.{producer_knows}
use sync_tools.Mpsc.Threads.Take.{ConsumerKnows-at}
use sync_tools.Mpsc.Threads.Reachable.{Reach-Inv}

module _ {ℓ} {A : Type ℓ} (size : ℕ) where
  -- A thread, a producer by its number or the consumer as `none`, is about to construct an object in
  -- the storage of the cell of index `n`, or to move one out of it and destroy it.
  pub data Access (s : System A) : Option ℕ → (n : ℕ) → Type ℓ where
    constructing :
        {i n : ℕ} {m : Mode} {v : A} {pos : ℕ}
        → s.producers i ≡ Producer.construct m v pos
        → mask size pos ≡ n
        → Access s (some i) n
    taking :
        {n : ℕ} {m : Mode} {pos : ℕ}
        → s.consumer ≡ Consumer.take_object m pos
        → mask size pos ≡ n
        → Access s none n

-- The storage that an access needs: none yet to construct in, an object to take out.
abbrev pub Fits {ℓ} : {A : Type ℓ} → Option ℕ → Option A → Type ℓ
Fits (some i) x = x ≡ none
Fits {A = A} none x = (v : A) × (x ≡ some v)

module _ {ℓ} {A : Type ℓ} {size : ℕ} (pow : IsPow2 size) (two : 2 ≤ size) {s : System A}
    (reach : Reach size s) (b : length s.claimed + size < 2 ^ 63) where
  -- For a `size` that is a power of two from 2 on, while positions stay below `2 ^ 63`: in every
  -- reachable state the values popped, followed by at most `size` further values, are the values
  -- that cells were claimed for, in the order of the claims. None is lost, none comes twice.
  pub claimed_in_order : (rest : List A) × (length rest ≤ size) × (s.popped ++ rest ≡ s.claimed)
  claimed_in_order =
      let (h, r, inv) = Reach-Inv pow two reach b in
      let (rest, e) =
        first_part s.popped s.claimed (omega (arith, inv.claims, inv.pops, inv.behind))
          (λ j l. inv.order j (omega (arith, inv.pops))) in
      (
        rest,
        omega (arith, length-append s.popped rest, ap length e, inv.claims, inv.pops, inv.room),
        e,
      )

  same_place : (n pos pos' : ℕ) → mask size pos ≡ n → mask size pos' ≡ n → pos % size ≡ pos' % size
  same_place n pos pos' e f = sym (mask-eq-mod pow pos) ∙ e ∙ sym f ∙ mask-eq-mod pow pos'

  apart :
      {i n : ℕ} {m m' : Mode} {v : A} {pos pos' : ℕ}
      → s.producers i ≡ Producer.construct m v pos
      → mask size pos ≡ n
      → s.consumer ≡ Consumer.take_object m' pos'
      → mask size pos' ≢ n
  apart {i} {n} {pos = pos} {pos' = pos'} e f e' f' =
      let (h, r, inv) = Reach-Inv pow two reach b in
      let own = producer_knows inv i e in
      let (at, below, there) = ConsumerKnows-at inv e' in
      let place : pos ≡ pos' =
        window_injective size r {pos = pos} {pos' = pos'}
          (omega (arith, own.from, taken_range s.consumer r)) (omega (arith, own.below, inv.room))
          (omega arith) (omega (arith, inv.room)) (same_place n pos pos' f f') in
      not_owned size r pos s.queue.cells none (some there.value) own.there there.there (place ∙ at)

  one_producer :
      {i i' n : ℕ} {m m' : Mode} {v v' : A} {pos pos' : ℕ}
      → s.producers i ≡ Producer.construct m v pos
      → mask size pos ≡ n
      → s.producers i' ≡ Producer.construct m' v' pos'
      → mask size pos' ≡ n
      → i ≡ i'
  one_producer {i} {i'} {n} {pos = pos} {pos' = pos'} e f e' f' =
      let (h, r, inv) = Reach-Inv pow two reach b in
      let own = producer_knows inv i e in
      let own' = producer_knows inv i' e' in
      let place : pos' ≡ pos =
        window_injective size r {pos = pos'} {pos' = pos}
          (omega (arith, own'.from, taken_range s.consumer r)) (omega (arith, own'.below, inv.room))
          (omega (arith, own.from, taken_range s.consumer r)) (omega (arith, own.below, inv.room))
          (same_place n pos' pos f' f) in
      inv.distinct i i' pos (ap in_flight e) (ap in_flight e' ∙ ap some place)

  -- For a `size` that is a power of two from 2 on, while positions stay below `2 ^ 63`: in every
  -- reachable state, two accesses that are about to be made to the storage of one cell are by one
  -- thread.
  pub accesses_are_exclusive :
      {t t' : Option ℕ} {n : ℕ} → Access size s t n → Access size s t' n → t ≡ t'
  accesses_are_exclusive {n = n} (constructing e f) (constructing e' f') =
      ap some (one_producer e f e' f')
  accesses_are_exclusive (constructing e f) (taking e' f') = absurd (apart e f e' f')
  accesses_are_exclusive (taking e f) (constructing e' f') = absurd (apart e' f' e f)
  accesses_are_exclusive (taking e f) (taking e' f') = refl

  -- For a `size` that is a power of two from 2 on, while positions stay below `2 ^ 63`: in every
  -- reachable state, an access that is about to be made is to a cell of the queue; it constructs
  -- where there is no object, and takes where there is one.
  pub Access-is_safe :
      {t : Option ℕ} {n : ℕ}
      → Access size s t n
      → (c : Cell A) × (get_elem? s.queue.cells n ≡ some c) × Fits t c.storage
  Access-is_safe (constructing {i} {n} {m} {v} {pos} e f) =
      let (h, r, inv) = Reach-Inv pow two reach b in
      (
        record { seq = pos; storage = none },
        ap (λ j. get_elem? s.queue.cells j) (sym f ∙ mask-eq-mod pow pos)
            ∙ (producer_knows inv i e).there,
        refl,
      )
  Access-is_safe (taking {n} {m} {pos} e f) =
      let (h, r, inv) = Reach-Inv pow two reach b in
      let (at, below, there) = ConsumerKnows-at inv e in
      (
        record { seq = suc r; storage = some there.value },
        ap (λ j. get_elem? s.queue.cells j) (sym f ∙ mask-eq-mod pow pos ∙ ap (λ j. j % size) at)
            ∙ there.there,
        (there.value, refl),
      )
