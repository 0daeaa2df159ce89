-- ===== src/Pool/Cached/Holds.antt =====
-- The pointers in a thread's cache, a stack in an array.
use sync_tools.Prelude.{
  ℕ, ◌+◌, ◌%◌, ◌^◌, ◌≤◌, ◌<◌, ◌≡◌, refl, sym, ◌∙◌, ap, some, List, [], ◌∷◌, ◌++◌, arith, length,
  get_elem?, set, length-append, get_elem?-append_left, length-snoc, append-nil, lt→ltb, subst,
  length-replicate,
}
use native.Mathlib.Nat.{mod-eq_of_lt, mod-lt}
use sync_tools.Prelude.Words.{add_size}
use sync_tools.Pool.Blocks.{
  Window, Window-head, Window-drop, Window-snoc, write_at, read_block, write_block, read_block_lem,
  write_block_lem,
}
use sync_tools.Pool.Cached.{ThreadCache, new_cache}

-- The cache, an array of `threshold` pointers, holds `l`, the newest last.
pub record CacheHolds (threshold : ℕ) (c : ThreadCache) (l : List ℕ) : Type 0 where
  pub window : Window threshold c.cache 0 l
  pub sized : c.cache_size ≡ length l
  pub fits : length l ≤ threshold
  pub positive : 0 < threshold
  pub word : threshold < 2 ^ 64

pub new_cache-CacheHolds :
    (threshold : ℕ)
    → 0 < threshold
    → threshold < 2 ^ 64
    → CacheHolds threshold (new_cache threshold) []
unfolding new_cache
new_cache-CacheHolds threshold p w = record {
  window = record { long = length-replicate threshold 0; at = λ j h. elim h [ ] };
  sized = refl;
  fits = omega arith;
  positive = p;
  word = w;
}

module _ {threshold : ℕ} {c : ThreadCache} where
  -- A shorter stack is the start of a longer one.
  pub CacheHolds-prefix :
      (l m : List ℕ)
      → CacheHolds threshold c (l ++ m)
      → CacheHolds threshold (record c { cache_size = length l }) l
  CacheHolds-prefix l m h = record {
    window = record {
      long = h.window.long;
      at = λ j i. h.window.at j (omega (arith, length-append l m)) ∙ get_elem?-append_left l m j i;
    };
    sized = refl;
    fits = omega (arith, length-append l m, h.fits);
    positive = h.positive;
    word = h.word;
  }

  -- A block of the stack, copied out.
  pub read_part :
      (l m : List ℕ)
      → CacheHolds threshold c (l ++ m)
      → read_block c.cache (length l) (length m) ≡ some m
  read_part l m h =
      read_block_lem (length l) m [] (mod-lt (0 + length l) h.positive)
        (ap (λ k. k % threshold) (omega arith)) (omega (arith, length-append l m, h.fits))
        (rw append-nil (Window-drop l m h.positive h.positive h.window))

  pub newest :
      (l : List ℕ) (x : ℕ)
      → CacheHolds threshold c (l ++ (x ∷ []))
      → get_elem? c.cache (length l) ≡ some x
  newest l x h =
      let at_end : (0 + length l) % threshold ≡ length l =
        mod-eq_of_lt {n = 0 + length l} {m = threshold} (omega (arith, length-snoc l x, h.fits))
        ∙ omega arith in
      ap (λ k. get_elem? c.cache k) (sym at_end)
      ∙ Window-head x [] (mod-lt (0 + length l) h.positive)
          (Window-drop l (x ∷ []) h.positive h.positive h.window)

  -- A pointer written behind the stack.
  pub write_newest :
      (l : List ℕ) (x : ℕ)
      → CacheHolds threshold c l
      → length l < threshold
      → let cells = set c.cache (length l) x in
        (write_at c.cache c.cache_size x ≡ some cells)
        × CacheHolds threshold
            (record { cache = cells; cache_size = add_size c.cache_size 1 })
            (l ++ (x ∷ []))
  unfolding write_at
  write_newest l x h room =
      let at_end : (0 + length l) % threshold ≡ length l =
        mod-eq_of_lt {n = 0 + length l} {m = threshold} (omega arith) ∙ omega arith in
      (
        rw (h.sized, lt→ltb (length l) (length c.cache) (rw h.window.long room)),
        record {
          window =
              subst (λ k. Window threshold (set c.cache k x) 0 (l ++ (x ∷ []))) at_end
                (Window-snoc l x h.positive room h.window);
          sized = omega (arith, h.sized, h.word, length-snoc l x);
          fits = omega (arith, length-snoc l x);
          positive = h.positive;
          word = h.word;
        },
      )

  -- A batch written to an empty cache.
  pub write_batch :
      (items : List ℕ)
      → CacheHolds threshold c []
      → length items ≤ threshold
      → (cells : List ℕ) × (write_block c.cache 0 items ≡ some cells)
        × CacheHolds threshold (record { cache = cells; cache_size = length items }) items
  write_batch items h l =
      let (cells, e, w) =
        write_block_lem 0 items [] h.positive refl (omega arith) (omega arith) h.window in
      (
        cells,
        e,
        record { window = w; sized = refl; fits = l; positive = h.positive; word = h.word },
      )
