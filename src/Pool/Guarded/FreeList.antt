-- ===== src/Pool/Guarded/FreeList.antt =====
-- What a pool promises: its free pointers are a queue, of at most as many as the pool has, that is
-- served from the front and filled at the back.
use sync_tools.Prelude.{
  ℕ, zero, suc, ◌+◌, min, ◌≡◌, refl, Option, none, some, List, [], ◌∷◌, ◌++◌, arith, length, take,
  drop, ltb, leb, if◌then◌else◌,
}
use sync_tools.Storage.{◌>>=◌}
use sync_tools.Pool.Guarded.{
  Call, acquire, release, acquire_batch, release_batch, Reply, pointer, batch, given_back,
}

-- One call: its reply and the free pointers after it. `none` where clients give back more pointers
-- than there is room for.
unfoldable pub answer : (size : ℕ) → Call → List ℕ → Option (Reply × List ℕ)
answer size acquire [] = some (pointer none, [])
answer size acquire (x ∷ free) = some (pointer (some x), free)
answer size (release obj) free =
    if ltb (length free) size then some (given_back, free ++ (obj ∷ [])) else none
answer size (acquire_batch max_count) free = some (batch (take max_count free), drop max_count free)
answer size (release_batch items) free =
    if leb (length free + length items) size then some (given_back, free ++ items) else none

-- Calls one after the other, and all replies, behind those in `rs`.
unfoldable pub answers : (size : ℕ) → List Reply → List ℕ → List Call → Option (List Reply × List ℕ)
answers size rs free [] = some (rs, free)
answers size rs free (c ∷ cs) = answer size c free >>= λ a. answers size (rs ++ (a.0 ∷ [])) a.1 cs

abbrev pub and_then :
    (size : ℕ) → Call → Option (List Reply × List ℕ) → Option (List Reply × List ℕ)
and_then size c b = b >>= λ b. answer size c b.1 >>= λ a. some (b.0 ++ (a.0 ∷ []), a.1)

pub answers-snoc :
    (size : ℕ) (rs : List Reply) (free : List ℕ) (cs : List Call) (c : Call)
    → answers size rs free (cs ++ (c ∷ [])) ≡ and_then size c (answers size rs free cs)
unfolding answers
answers-snoc size rs free [] c = refl
answers-snoc size rs free (d ∷ cs) c =
    go (answer size d free) (λ a. answers-snoc size (rs ++ (a.0 ∷ [])) a.1 cs c)
  where
    go :
        (o : Option (Reply × List ℕ))
        → ((a : Reply × List ℕ)
            → answers size (rs ++ (a.0 ∷ [])) a.1 (cs ++ (c ∷ []))
              ≡ and_then size c (answers size (rs ++ (a.0 ∷ [])) a.1 cs))
        → (o >>= λ a. answers size (rs ++ (a.0 ∷ [])) a.1 (cs ++ (c ∷ [])))
          ≡ and_then size c (o >>= λ a. answers size (rs ++ (a.0 ∷ [])) a.1 cs)
    go none rest = refl
    go (some a) rest = rest a

pub length-take-min : (n : ℕ) (xs : List ℕ) → length (take n xs) ≡ min n (length xs)
length-take-min zero xs = omega arith
length-take-min (suc n) [] = omega arith
length-take-min (suc n) (x ∷ xs) = omega (arith, length-take-min n xs)
