-- ===== src/Pool/ObjectPool.antt =====
-- `ObjectPool<T>`. Each member function takes the pool and the memory to their new states beside
-- what it returns; the outer `none` is undefined behaviour. A call makes its accesses to the
-- pool under `_mutex`, so no other call on the pool comes between them; the destructors of `release`
-- and `release_batch` run before the lock, on objects that only the caller holds.
pub mod Holds
pub mod Calls
pub mod Ownership
pub mod Batches
pub mod RoundTrip
use sync_tools.Prelude.{
  ℕ, suc, ◌+◌, ◌-◌, min, Option, none, some, List, [], ◌∷◌, ◌++◌, ◌==◌, leb, if◌then◌else◌, length,
  get_elem?, take, drop,
}
use sync_tools.Prelude.Words.{add_size, sub_size, mask}
use sync_tools.Storage.{◌>>=◌}
use sync_tools.Pool.Size.{round_up_pow2}
use sync_tools.Pool.Blocks.{write_at, read_block, write_block}
use sync_tools.Pool.Memory.{Memory, construct, destroy, construct_all, destroy_all, addresses}

pub record ObjectPool : Type 0 where
  pub pool_size : ℕ
  pub available : List ℕ  -- `_available_objects`
  pub head_index : ℕ
  pub available_count : ℕ

-- `ObjectPool(size)`, with its nodes at `base`.
unfoldable pub new_pool : (ℕ → ℕ) → (base size : ℕ) → Option ObjectPool
new_pool clz base size = round_up_pow2 clz size >>= λ n.
    some
      (record { pool_size = n; available = addresses base n; head_index = 0; available_count = n })

unfoldable pub size_of : ObjectPool → ℕ
size_of p = p.pool_size

-- The slot behind the available pointers.
abbrev pub tail_index : ObjectPool → ℕ
tail_index p = mask p.pool_size (add_size p.head_index p.available_count)

-- `memcpy` out of the circular buffer, in one block or two.
unfoldable pub copy_out : ObjectPool → ℕ → Option (List ℕ)
copy_out p num =
    if leb (add_size p.head_index num) p.pool_size
    then read_block p.available p.head_index num
    else do
      let first_part = sub_size p.pool_size p.head_index
      front ← read_block p.available p.head_index first_part
      back ← read_block p.available 0 (sub_size num first_part)
      some (front ++ back)

-- `memcpy` into it of `items`, cut in two by `split` where it goes round.
unfoldable pub copy_in : ObjectPool → List ℕ → Option (List ℕ)
copy_in p items =
    if leb (add_size (tail_index p) (length items)) p.pool_size
    then write_block p.available (tail_index p) items
    else do
      let first_part = sub_size p.pool_size (tail_index p)
      cells ← write_block p.available (tail_index p) (take first_part items)
      write_block cells 0 (drop first_part items)

module _ {ℓ} {A : Type ℓ} where
  -- `acquire(args...)`, where `a` is what `T(args...)` constructs
  unfoldable pub acquire : A → ObjectPool → Memory A → Option (Option ℕ × ObjectPool × Memory A)
  acquire a p h = if p.available_count == 0 then some (none, p, h) else do
    obj ← get_elem? p.available p.head_index
    some (
      some obj,
      record p {
        head_index = mask p.pool_size (add_size p.head_index 1);
        available_count = sub_size p.available_count 1;
      },
      construct obj a h,
    )

  unfoldable pub release : ℕ → ObjectPool → Memory A → Option (ObjectPool × Memory A)
  release obj p h = do
    h' ← destroy obj h
    cells ← write_at p.available (tail_index p) obj
    some (record p { available = cells; available_count = add_size p.available_count 1 }, h')

  -- The number returned, and what is written to `out`.
  unfoldable pub acquire_batch :
      ℕ → (ℕ → A) → ObjectPool → Memory A → Option (ℕ × List ℕ × ObjectPool × Memory A)
  unfolding copy_out
  acquire_batch max_count make p h =
      let num = min max_count p.available_count in
      if num == 0 then some (0, [], p, h) else do
        out ← copy_out p num
        some (
          num,
          out,
          record p {
            head_index = mask p.pool_size (add_size p.head_index num);
            available_count = sub_size p.available_count num;
          },
          construct_all make 0 out h,
        )

  unfoldable pub release_batch : List ℕ → ObjectPool → Memory A → Option (ObjectPool × Memory A)
  unfolding copy_in
  release_batch items p h = if length items == 0 then some (p, h) else do
    h' ← destroy_all items h
    cells ← copy_in p items
    some (
      record p { available = cells; available_count = add_size p.available_count (length items) },
      h',
    )
