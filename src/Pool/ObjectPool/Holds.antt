-- ===== src/Pool/ObjectPool/Holds.antt =====
-- The free pointers that a pool holds, as a FIFO, and what each member function does to them.
use sync_tools.Prelude.{
  ℕ, ◌+◌, ◌-◌, ◌%◌, ◌≤◌, ◌<◌, ◌≡◌, sym, ◌∙◌, ap, some, List, ◌++◌, leb, arith, length, take, drop,
  dec_lt, take-append, drop-append, length-append, length-take, length-drop, take-append-drop,
  append_assoc, true, false, subst,
}
use native.Mathlib.Nat.{mod-lt, mod-eq_of_lt, mod-add-mod, mod_self}
use sync_tools.Prelude.Words.{add_size, sub_size, mask, IsPow2, IsPow2-pos, IsPow2-le, mask-eq-mod}
use sync_tools.Pool.Blocks.{write_block, Window, Window-drop, read_block_lem, write_block_lem}
use sync_tools.Pool.ObjectPool.{ObjectPool, tail_index, copy_out, copy_in}

-- The pool's free pointers are `free`, the next to hand out first.
pub record Holds (p : ObjectPool) (free : List ℕ) : Type 0 where
  pub pow : IsPow2 p.pool_size
  pub window : Window p.pool_size p.available p.head_index free
  pub head_in : p.head_index < p.pool_size
  pub counted : p.available_count ≡ length free
  pub fits : length free ≤ p.pool_size

-- Where `k` pointers have been handed out.
abbrev pub advanced : ObjectPool → ℕ → ObjectPool
advanced p k = record p {
  head_index = mask p.pool_size (add_size p.head_index k);
  available_count = sub_size p.available_count k;
}

-- `memcpy` puts `items` behind the free pointers.
abbrev pub CopiedIn : ObjectPool → List ℕ → List ℕ → Type 0
CopiedIn p free items =
    (cells : List ℕ) × (copy_in p items ≡ some cells)
    × Window p.pool_size cells p.head_index (free ++ items)

module _ {p : ObjectPool} where
  pub advance-eq-mod :
      {free : List ℕ}
      → Holds p free
      → (k : ℕ) → k ≤ p.pool_size
      → mask p.pool_size (add_size p.head_index k) ≡ (p.head_index + k) % p.pool_size
  advance-eq-mod h k l =
      let e : add_size p.head_index k ≡ p.head_index + k =
        omega (arith, IsPow2-le h.pow, h.head_in) in
      mask-eq-mod h.pow (add_size p.head_index k) ∙ ap (λ i. i % p.pool_size) e

  pub Holds-advanced :
      (xs rest : List ℕ) → Holds p (xs ++ rest) → Holds (advanced p (length xs)) rest
  Holds-advanced xs rest h = record {
    pow = h.pow;
    window = rw e (Window-drop xs rest (IsPow2-pos h.pow) h.head_in h.window);
    head_in = rw e (mod-lt (p.head_index + length xs) (IsPow2-pos h.pow));
    counted = omega (arith, n, h.counted, h.fits, IsPow2-le h.pow);
    fits = omega (arith, n, h.fits);
  }
    where
      n : length (xs ++ rest) ≡ length xs + length rest
      n = length-append xs rest

      e :
          mask p.pool_size (add_size p.head_index (length xs))
          ≡ (p.head_index + length xs) % p.pool_size
      e = advance-eq-mod h (length xs) (omega (arith, n, h.fits))

  pub tail-eq-mod :
      {free : List ℕ} → Holds p free → tail_index p ≡ (p.head_index + length free) % p.pool_size
  tail-eq-mod {free} h =
      advance-eq-mod h p.available_count (omega (arith, h.counted, h.fits))
      ∙ ap (λ k. (p.head_index + k) % p.pool_size) h.counted

  pub tail_in : {free : List ℕ} → Holds p free → tail_index p < p.pool_size
  tail_in {free} h = rw (tail-eq-mod h) (mod-lt (p.head_index + length free) (IsPow2-pos h.pow))

  -- Where `cells` hold the free pointers and `items` behind them.
  pub Holds-returned :
      (free items cells : List ℕ)
      → Holds p free
      → length free + length items ≤ p.pool_size
      → Window p.pool_size cells p.head_index (free ++ items)
      → Holds
          (record p {
            available = cells;
            available_count = add_size p.available_count (length items);
          })
          (free ++ items)
  Holds-returned free items cells h l w = record {
    pow = h.pow;
    window = w;
    head_in = h.head_in;
    counted = omega (arith, length-append free items, h.counted, IsPow2-le h.pow);
    fits = omega (arith, length-append free items);
  }

  -- Where the block goes round the end, the first part fills the buffer up to it.
  copy_out_round :
      (a b rest : List ℕ)
      → Holds p ((a ++ b) ++ rest)
      → p.head_index + length a ≡ p.pool_size
      → 0 < length b
      → copy_out p (length (a ++ b)) ≡ some (a ++ b)
  unfolding copy_out
  copy_out_round a b rest h e pos =
      let n = length-append a b in
      let m = length-append (a ++ b) rest in
      let w : Window p.pool_size p.available p.head_index (a ++ (b ++ rest)) =
        rw (sym (append_assoc a b rest)) h.window in
      let over : leb (add_size p.head_index (length (a ++ b))) p.pool_size ≡ false =
        ground (arith, n, m, h.fits, h.head_in, IsPow2-le h.pow) in
      let first : sub_size p.pool_size p.head_index ≡ length a =
        omega (arith, IsPow2-le h.pow, h.head_in) in
      let second : sub_size (length (a ++ b)) (length a) ≡ length b =
        omega (arith, n, m, h.fits, IsPow2-le h.pow) in
      let start : (p.head_index + length a) % p.pool_size ≡ 0 = rw e (mod_self p.pool_size) in
      let w' : Window p.pool_size p.available 0 (b ++ rest) =
        rw start at (Window-drop a (b ++ rest) (IsPow2-pos h.pow) h.head_in w) in
      rw (
        over,
        first,
        second,
        read_block_lem p.head_index a (b ++ rest) h.head_in (mod-eq_of_lt h.head_in) (omega arith)
            w,
        read_block_lem 0 b rest (IsPow2-pos h.pow) (mod-eq_of_lt (IsPow2-pos h.pow))
            (omega (arith, n, m, h.fits)) w',
      )

  -- A batch copies the first free pointers, in order.
  pub copy_out_lem : (xs rest : List ℕ) → Holds p (xs ++ rest) → copy_out p (length xs) ≡ some xs
  unfolding copy_out
  copy_out_lem xs rest h =
      let m = length-append xs rest in
      elim (dec_lt p.pool_size (p.head_index + length xs)) [
        | yes round ↦
            let f : ℕ = p.pool_size - p.head_index in
            let cut : take f xs ++ drop f xs ≡ xs = take-append-drop f xs in
            let la : length (take f xs) ≡ f = length-take f xs (omega (arith, h.head_in)) in
            subst (λ l. copy_out p (length l) ≡ some l) cut
              (copy_out_round (take f xs) (drop f xs) rest
                (subst (λ l. Holds p (l ++ rest)) (sym cut) h) (omega (arith, la, h.head_in))
                (omega (arith, length-drop f xs, h.head_in)))
        | no short ↦
            let inside : leb (add_size p.head_index (length xs)) p.pool_size ≡ true =
              ground (arith, m, h.fits, h.head_in, IsPow2-le h.pow) in
            rw inside (
              read_block_lem p.head_index xs rest h.head_in (mod-eq_of_lt h.head_in) (omega arith)
                h.window)
      ]

  -- The two calls of `memcpy`, where the block goes round.
  copy_in_both :
      (free a b cells cells' : List ℕ)
      → Holds p free
      → length free + length (a ++ b) ≤ p.pool_size
      → tail_index p + length a ≡ p.pool_size
      → 0 < length b
      → write_block p.available (tail_index p) a ≡ some cells
      → write_block cells 0 b ≡ some cells'
      → copy_in p (a ++ b) ≡ some cells'
  unfolding copy_in
  copy_in_both free a b cells cells' h l e pos eq eq' =
      let over : leb (add_size (tail_index p) (length (a ++ b))) p.pool_size ≡ false =
        ground (arith, length-append a b, tail_in h, IsPow2-le h.pow) in
      let first : sub_size p.pool_size (tail_index p) ≡ length a =
        omega (arith, IsPow2-le h.pow, tail_in h) in
      rw (over, first, take-append a b, drop-append a b, eq, eq')

  copy_in_round :
      (free a b : List ℕ)
      → Holds p free
      → length free + length (a ++ b) ≤ p.pool_size
      → tail_index p + length a ≡ p.pool_size
      → 0 < length b
      → CopiedIn p free (a ++ b)
  copy_in_round free a b h l e pos =
      let n = length-append a b in
      let n' = length-append free a in
      let t : tail_index p % p.pool_size ≡ (p.head_index + length free) % p.pool_size =
        mod-eq_of_lt (tail_in h) ∙ tail-eq-mod h in
      let (cells, eq, w) =
        write_block_lem (tail_index p) a free h.head_in t (omega arith) (omega (arith, n))
          h.window in
      let start : 0 % p.pool_size ≡ (p.head_index + length (free ++ a)) % p.pool_size =
        mod-eq_of_lt (IsPow2-pos h.pow)
        ∙ sym (mod_self p.pool_size)
        ∙ ap (λ k. k % p.pool_size) (sym e)
        ∙ ap (λ k. (k + length a) % p.pool_size) (tail-eq-mod h)
        ∙ mod-add-mod (p.head_index + length free) p.pool_size (length a)
        ∙ ap (λ k. k % p.pool_size) (omega (arith, n')) in
      let (cells', eq', w') =
        write_block_lem 0 b (free ++ a) h.head_in start (omega (arith, n)) (omega (arith, n, n'))
          w in
      (
        cells',
        copy_in_both free a b cells cells' h l e pos eq eq',
        rw (sym (append_assoc free a b)) w',
      )

  pub copy_in_lem :
      (free items : List ℕ)
      → Holds p free
      → length free + length items ≤ p.pool_size
      → CopiedIn p free items
  unfolding copy_in
  copy_in_lem free items h l = elim (dec_lt p.pool_size (tail_index p + length items)) [
    | yes round ↦
        let f : ℕ = p.pool_size - tail_index p in
        let cut : take f items ++ drop f items ≡ items = take-append-drop f items in
        let la : length (take f items) ≡ f = length-take f items (omega (arith, tail_in h)) in
        subst (λ xs. CopiedIn p free xs) cut
          (copy_in_round free (take f items) (drop f items) h (rw cut l)
            (omega (arith, la, tail_in h)) (omega (arith, length-drop f items, tail_in h)))
    | no short ↦
        let inside : leb (add_size (tail_index p) (length items)) p.pool_size ≡ true =
          ground (arith, tail_in h, IsPow2-le h.pow) in
        let t : tail_index p % p.pool_size ≡ (p.head_index + length free) % p.pool_size =
          mod-eq_of_lt (tail_in h) ∙ tail-eq-mod h in
        let (cells, eq, w) =
          write_block_lem (tail_index p) items free h.head_in t (omega arith) l h.window in
        (cells, rw (inside, eq), w)
  ]
