-- ===== src/Pool/ObjectPool/Ownership.antt =====
-- Who owns which pointer, and what each call of `ObjectPool` does to that: each address of the
-- storage is free or held, once, and has an object exactly while it is held.
use sync_tools.Prelude.{
  ℕ, ◌+◌, ◌≤◌, min, ◌≡◌, sym, none, some, List, [], ◌∷◌, ◌++◌, arith, length, length-append, take,
  drop, take-append-drop, length-take,
}
use sync_tools.Prelude.Count.{count, count-append, count_self}
use sync_tools.Pool.Memory.{Memory, construct, construct_all, destroy_all, update}
use sync_tools.Pool.Live.{
  live, live-le, live-some, live-construct, live-destroyed, live-construct_all, live-destroy_all,
}
use sync_tools.Pool.ObjectPool.{ObjectPool, acquire, release, acquire_batch, release_batch}
use sync_tools.Pool.ObjectPool.Holds.{Holds}
use sync_tools.Pool.ObjectPool.Calls.{
  acquire-some, release_lem, acquire_batch_lem, release_batch_lem,
}

-- `held` is `items` and `kept`, in some order.
pub record Parts (held items kept : List ℕ) : Type 0 where
  pub counts : (x : ℕ) → count x held ≡ count x items + count x kept
  pub lengths : length held ≡ length items + length kept

module _ {ℓ} {A : Type ℓ} where
  -- Of the addresses `all`, the pool has `free` and its clients have `held`.
  pub record Owned (all : List ℕ) (p : ObjectPool) (h : Memory A) (free held : List ℕ)
      : Type 0 where
    pub holds : Holds p free
    pub distinct : (x : ℕ) → count x all ≤ 1
    pub once : (x : ℕ) → count x free + count x held ≡ count x all
    pub total : length free + length held ≡ p.pool_size
    pub alive : (x : ℕ) → count x all ≡ 1 → live h x ≡ count x held

module _ {ℓ} {A : Type ℓ} {all : List ℕ} {p : ObjectPool} {h : Memory A} where
  -- A free address holds no object.
  Owned-room :
      {free held : List ℕ} → Owned all p h free held → (x : ℕ) → count x free + live h x ≤ 1
  Owned-room o x = ground (arith, o.once x, o.distinct x, o.alive x, live-le h x)

  -- `acquire`, where addresses are free, is defined: it hands out the one that has been free the
  -- longest, which nobody holds, constructs the object there, and leaves all else owned as it was.
  pub acquire-Owned :
      (a : A) (x : ℕ) (rest held : List ℕ)
      → Owned all p h (x ∷ rest) held
      → (p' : ObjectPool) × (acquire a p h ≡ some (some x, p', construct x a h))
        × Owned all p' (construct x a h) rest (x ∷ held)
        × (count x held ≡ 0)
  acquire-Owned a x rest held o =
      let (e, holds) = acquire-some a h x rest o.holds in
      (
        _,
        e,
        record {
          holds = holds;
          distinct = o.distinct;
          once = λ y. omega (arith, o.once y);
          total = omega (arith, o.total);
          alive = λ y l. ground (
            arith,
            o.once y,
            o.alive y l,
            live-construct h x a y,
            Owned-room o y,
            count_self x rest,
          );
        },
        omega (arith, o.once x, o.distinct x, count_self x rest),
      )

  -- `release` of a pointer that clients hold is defined: it destroys the object there, and the
  -- address becomes free, behind those that are, while all else is owned as it was.
  pub release-Owned :
      (x : ℕ) (free held kept : List ℕ)
      → Owned all p h free held
      → Parts held (x ∷ []) kept
      → (p' : ObjectPool) × (release x p h ≡ some (p', update h x none))
        × Owned all p' (update h x none) (free ++ (x ∷ [])) kept
  release-Owned x free held kept o parts =
      let in_all : count x all ≡ 1 =
        omega (arith, parts.counts x, count_self x [], o.once x, o.distinct x) in
      let (v, there) =
        live-some h x
          (omega (arith, o.alive x in_all, parts.counts x, count_self x [], live-le h x)) in
      let (e, holds) =
        release_lem x v h free o.holds there (omega (arith, o.total, parts.lengths)) in
      (
        _,
        e,
        record {
          holds = holds;
          distinct = o.distinct;
          once = λ y. omega (arith, o.once y, parts.counts y, count-append y free (x ∷ []));
          total = omega (arith, o.total, parts.lengths, length-append free (x ∷ []));
          alive = λ y l.
              ground
                (arith, o.once y, o.distinct y, o.alive y l, live-destroyed h x y, parts.counts y);
        },
      )

  acquire_taken-Owned :
      (max_count : ℕ) (make : ℕ → A) (xs rest held : List ℕ)
      → Owned all p h (xs ++ rest) held
      → length xs ≡ min max_count (length (xs ++ rest))
      → (p' : ObjectPool) × (acquire_batch max_count make p h
          ≡ some (length xs, xs, p', construct_all make 0 xs h))
        × Owned all p' (construct_all make 0 xs h) rest (xs ++ held)
  acquire_taken-Owned max_count make xs rest held o l =
      let (p', e, holds, same) = acquire_batch_lem max_count make h xs rest o.holds l in
      let made =
        live-construct_all make 0 xs h
          (λ y. omega (arith, Owned-room o y, count-append y xs rest)) in
      (
        p',
        e,
        record {
          holds = holds;
          distinct = o.distinct;
          once = λ y. omega (arith, o.once y, count-append y xs rest, count-append y xs held);
          total = omega (arith, o.total, length-append xs rest, length-append xs held, same);
          alive = λ y m. omega (arith, made y, o.alive y m, count-append y xs held);
        },
      )

  -- `acquire_batch` is defined and takes as many addresses as are asked for or free, whichever is
  -- less: the first of the free ones, in order, each with its object constructed by the call.
  pub acquire_batch-Owned :
      (max_count : ℕ) (make : ℕ → A) (free held : List ℕ)
      → Owned all p h free held
      → (out rest : List ℕ) × (p' : ObjectPool) × (free ≡ out ++ rest)
        × (length out ≡ min max_count (length free))
        × (acquire_batch max_count make p h
            ≡ some (length out, out, p', construct_all make 0 out h))
        × Owned all p' (construct_all make 0 out h) rest (out ++ held)
  acquire_batch-Owned max_count make free held o =
      let n : ℕ = min max_count (length free) in
      let cut : take n free ++ drop n free ≡ free = take-append-drop n free in
      let l : length (take n free) ≡ n = length-take n free (omega arith) in
      let (p', e, o') =
        acquire_taken-Owned max_count make (take n free) (drop n free) held (rw cut o) (rw cut l) in
      (take n free, drop n free, p', sym cut, l, e, o')

  -- `release_batch` of pointers that clients hold, with what becomes of the memory.
  pub release_batch_destroys :
      (items free held kept : List ℕ)
      → Owned all p h free held
      → Parts held items kept
      → (p' : ObjectPool) × (h' : Memory A) × (release_batch items p h ≡ some (p', h'))
        × Owned all p' h' (free ++ items) kept
        × (destroy_all items h ≡ some h')
  release_batch_destroys items free held kept o parts =
      let (h', gone, f) =
        live-destroy_all items h
          (λ x. ground (arith, parts.counts x, o.once x, o.distinct x, o.alive x)) in
      let (p', e, holds, same) =
        release_batch_lem items free h h' o.holds (omega (arith, o.total, parts.lengths)) gone in
      (
        p',
        h',
        e,
        record {
          holds = holds;
          distinct = o.distinct;
          once = λ y. omega (arith, o.once y, parts.counts y, count-append y free items);
          total = omega (arith, o.total, parts.lengths, length-append free items, same);
          alive = λ y l. omega (arith, o.alive y l, f y, parts.counts y);
        },
        gone,
      )

  -- `release_batch` of pointers that clients hold is defined: it destroys the objects, and the
  -- addresses become free, in order, behind those that are.
  pub release_batch-Owned :
      (items free held kept : List ℕ)
      → Owned all p h free held
      → Parts held items kept
      → (p' : ObjectPool) × (h' : Memory A) × (release_batch items p h ≡ some (p', h'))
        × Owned all p' h' (free ++ items) kept
  release_batch-Owned items free held kept o parts =
      let (p', h', e, o', gone) = release_batch_destroys items free held kept o parts in
      (p', h', e, o')
