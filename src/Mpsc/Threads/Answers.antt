-- ===== src/Mpsc/Threads/Answers.antt =====
-- What the numbers that threads read tell them of the queue.
use sync_tools.Prelude.{
  ℕ, ◌+◌, ◌^◌, ◌≤◌, ◌<◌, ◌≡◌, ◌≢◌, sym, ◌∙◌, ap, subst, some, none, some-injective, List, inl, inr,
  arith, length, get_elem?, dec_lt,
}
use sync_tools.Prelude.Words.{IsPow2, add_size, mask-eq-mod}
use sync_tools.Spsc.Threads.{Mode}
use sync_tools.Mpsc.Queue.{Cell, Queue, diff, sign_of, Sign, same, negative, positive}
use sync_tools.Mpsc.Holds.{diff_lem}
use sync_tools.Mpsc.Threads.{Producer, Consumer, System, Reach, CellOf}
use sync_tools.Mpsc.Threads.Invariant.{in_flight, taken, Inv}
use sync_tools.Mpsc.Threads.Cells.{window_injective, diff_positive_inv}
use sync_tools.Mpsc.Threads.Facts.{
  cell_known, cell_seq, same_free, same_claimed, negative_full, same-Published, read_seq, read_cell,
}
use sync_tools.Mpsc.Threads.Write.{producer_knows}
use sync_tools.Mpsc.Threads.Take.{ConsumerKnows-at}
use sync_tools.Mpsc.Threads.Reachable.{Reach-Inv}

module _ {ℓ} {A : Type ℓ} (size : ℕ) (s : System A) where
  -- What `diff` tells a producer that has loaded `pos` from `_head`, and now reads the cell `c`.
  pub data PushMeans (c : Cell A) (pos : ℕ) : Sign → Type ℓ where
    cell_free :
        pos ≡ length s.claimed
        → pos < length s.popped + size
        → c.storage ≡ none
        → PushMeans c pos same
    just_claimed : (j : ℕ) → in_flight (s.producers j) ≡ some pos → PushMeans c pos same
    all_claimed : length s.claimed ≡ length s.popped + size → PushMeans c pos negative
    claimed_since : pos < length s.claimed → PushMeans c pos positive

  -- What `diff` tells the consumer of the oldest value not popped yet, where it reads the cell `c`.
  pub data PopMeans (c : Cell A) : Sign → Type ℓ where
    object_there :
        (v : A)
        → c.storage ≡ some v
        → get_elem? s.claimed (length s.popped) ≡ some v
        → PopMeans c same
    none_claimed :
        {sign : Sign} → sign ≢ same → length s.claimed ≡ length s.popped → PopMeans c sign
    not_published :
        {sign : Sign} (i : ℕ)
        → sign ≢ same
        → in_flight (s.producers i) ≡ some (length s.popped)
        → PopMeans c sign

diff_of_eq : {a b : ℕ} → a ≡ b → b < 2 ^ 63 → diff a b ≡ some same
diff_of_eq {a} {b} e l =
    let z : sign_of a b ≡ same = ground arith in diff_lem a b (omega arith) l ∙ ap some z

module _ {ℓ} {A : Type ℓ} {size h r : ℕ} (pow : IsPow2 size) {q : Queue A} {ps : ℕ → Producer A}
    {k : Consumer A} {claimed popped : List A} (inv : Inv size h r q ps k claimed popped)
    (b : h + size < 2 ^ 63) where
  -- A read of a cell, and the difference, are defined.
  pub reads :
      (pos n : ℕ)
      → n < 2 ^ 63
      → (c : Cell A) × CellOf size q pos c × (sign : Sign) × (diff c.seq n ≡ some sign)
  reads pos n l =
      let (p, place, cell) = cell_known pow inv pos in
      let c : Cell A = record { seq = cell.seq; storage = cell.storage } in
      (
        c,
        ap (λ j. get_elem? q.cells j) (mask-eq-mod pow pos ∙ sym place) ∙ cell.there,
        sign_of cell.seq n,
        diff_lem cell.seq n (omega (arith, cell.most, cell.below, inv.behind)) l,
      )

  -- A cell that is ahead of a position that `_head` has had shows that another claimed it.
  pub positive_claimed :
      {pos : ℕ} {c : Cell A}
      → pos ≤ h
      → CellOf size q pos c
      → diff c.seq pos ≡ some positive
      → pos < h
  positive_claimed {pos} {c} l e d =
      let (p, place, n) = cell_known pow inv pos in
      let z : c.seq ≡ n.seq = cell_seq pow inv pos p e place n in
      let up : pos < c.seq =
        diff_positive_inv c.seq pos (omega (arith, z, n.most, n.below, inv.behind)) (omega arith)
          d in
      elim (dec_lt pos h) [
        | yes g ↦ g
        | no g ↦
            let at : p ≡ pos =
              window_injective size r {pos = p} {pos' = pos} n.from n.below
                (omega (arith, inv.behind)) (omega (arith, z, n.most, n.below)) place in
            absurd (
              omega (
                arith,
                at,
                read_seq pow inv pos e (inv.free pos (omega arith) (omega (arith, at, n.below))),
              ))
      ]

module _ {ℓ} {A : Type ℓ} {size : ℕ} (pow : IsPow2 size) (two : 2 ≤ size) {s : System A}
    (reach : Reach size s) (b : length s.claimed + size < 2 ^ 63) where
  push_means :
      {h r : ℕ} (inv : Inv size h r s.queue s.producers s.consumer s.claimed s.popped) {pos : ℕ}
      {c : Cell A}
      → pos ≤ h
      → CellOf size s.queue pos c
      → (sign : Sign) → diff c.seq pos ≡ some sign
      → PushMeans size s c pos sign
  push_means {h} {r} inv {pos} {c} l here same d =
      let below : pos < r + size = same_free pow inv two (omega (arith, inv.claims)) l here d in
      elim (dec_lt pos h) [
        | yes g ↦
            let (j, f) = same_claimed pow inv two (omega (arith, inv.claims)) g here d in
            just_claimed j f
        | no g ↦
            cell_free (omega (arith, inv.claims)) (omega (arith, inv.pops))
              (ap (λ x. x.storage) (read_cell pow inv pos here (inv.free pos (omega arith) below)))
      ]
  push_means {h} {r} inv {pos} l here negative d = all_claimed (
      omega (
        arith,
        inv.claims,
        inv.pops,
        negative_full pow inv two (omega (arith, inv.claims)) l here d,
      ))
  push_means {h} {r} inv {pos} l here positive d =
      claimed_since
        (omega (arith, inv.claims, positive_claimed pow inv (omega (arith, inv.claims)) l here d))

  -- For a `size` that is a power of two from 2 on, while positions stay below `2 ^ 63`: in every
  -- reachable state, the read of a producer at the head of the loop in `try_push` is inside the
  -- buffer and its `diff` is defined. Where it is 0, the position is the next to claim and its cell
  -- is given back and holds no object, or some producer has claimed the position and not yet
  -- published; where it is negative, all cells are claimed and not given back; where it is positive,
  -- the position has been claimed.
  pub push_reads :
      (i : ℕ) {m : Mode} {v : A} {pos : ℕ}
      → s.producers i ≡ Producer.load_seq m v pos
      → (c : Cell A) × (sign : Sign) × CellOf size s.queue pos c
        × (diff c.seq pos ≡ some sign)
        × PushMeans size s c pos sign
  push_reads i {pos = pos} e =
      let (h, r, inv) = Reach-Inv pow two reach b in
      let l : pos ≤ h = (producer_knows inv i e).below in
      let (c, here, sign, d) =
        reads pow inv (omega (arith, inv.claims)) pos pos (omega (arith, inv.claims)) in
      (c, sign, here, d, push_means inv l here sign d)

  pop_none :
      {h r : ℕ} (inv : Inv size h r s.queue s.producers s.consumer s.claimed s.popped) {m : Mode}
      {pos : ℕ} {c : Cell A} {sign : Sign}
      → s.consumer ≡ Consumer.load_seq m pos
      → CellOf size s.queue r c
      → diff c.seq (add_size r 1) ≡ some sign
      → sign ≢ same
      → PopMeans size s c sign
  pop_none {h} {r} inv {c = c} {sign = sign} e here d ne = elim (dec_lt r h) [
    | no l ↦ none_claimed ne (omega (arith, inv.claims, inv.pops, inv.behind))
    | yes l ↦
        let t : taken s.consumer r ≡ r = ap (λ k. taken k r) e in
        elim (inv.filled r (omega arith) l) [
          | inl o ↦
              let n : c.seq ≡ add_size r 1 =
                read_seq pow inv r here o.there ∙ omega (arith, inv.claims) in
              absurd (ne (some-injective _ _ (sym d ∙ diff_of_eq n (omega (arith, inv.claims)))))
          | inr f ↦ not_published f.0 ne (f.1 ∙ ap some (sym inv.pops))
        ]
  ]

  pop_means :
      {h r : ℕ} (inv : Inv size h r s.queue s.producers s.consumer s.claimed s.popped) {m : Mode}
      {pos : ℕ} {c : Cell A}
      → s.consumer ≡ Consumer.load_seq m pos
      → CellOf size s.queue r c
      → (sign : Sign) → diff c.seq (add_size r 1) ≡ some sign
      → PopMeans size s c sign
  pop_means {h} {r} inv {c = c} e here same d =
      let t : taken s.consumer r ≡ r = ap (λ k. taken k r) e in
      let (l, there) = same-Published pow inv two (omega (arith, inv.claims)) t here d in
      let z : c.storage ≡ some there.value =
        ap (λ x. x.storage) (read_cell pow inv r here there.there) in
      object_there there.value z (ap (λ n. get_elem? s.claimed n) inv.pops ∙ there.claimed_for)
  pop_means inv e here negative d = pop_none inv e here d (λ z. cc z)
  pop_means inv e here positive d = pop_none inv e here d (λ z. cc z)

  -- For a `size` that is a power of two from 2 on, while positions stay below `2 ^ 63`: in every
  -- reachable state, the read of the consumer in `try_pop` is inside the buffer and its `diff` is
  -- defined. It is 0 with the object of the first claim not yet popped in the cell; otherwise there
  -- is no such claim, or the producer that made it has not yet published.
  pub pop_reads :
      {m : Mode} {pos : ℕ}
      → s.consumer ≡ Consumer.load_seq m pos
      → (c : Cell A) × (sign : Sign) × CellOf size s.queue pos c
        × (diff c.seq (add_size pos 1) ≡ some sign)
        × PopMeans size s c sign
  pop_reads {pos = pos} e =
      let (h, r, inv) = Reach-Inv pow two reach b in
      let at : pos ≡ r = (ConsumerKnows-at inv e).here in
      let (c, here, sign, d) =
        reads pow inv (omega (arith, inv.claims)) pos (add_size pos 1)
          (omega (arith, inv.claims, inv.behind)) in
      (
        c,
        sign,
        here,
        d,
        pop_means inv e (subst (λ n. CellOf size s.queue n c) at here) sign
            (subst (λ n. diff c.seq (add_size n 1) ≡ some sign) at d),
      )
