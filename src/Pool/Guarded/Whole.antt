-- ===== src/Pool/Guarded/Whole.antt =====
-- The accesses of a call under the mutex, run to its end, beside the member functions of
-- Pool/ObjectPool, which take a call whole.
use sync_tools.Prelude.{
  ℕ, min, ◌≡◌, refl, Option, none, some, List, [], ◌∷◌, ◌++◌, ◌==◌, true, false, Bool,
  if◌then◌else◌, get_elem?,
}
use sync_tools.Mutex.Guard.Whole.{finish}
use sync_tools.Prelude.Words.{add_size, sub_size, mask}
use sync_tools.Storage.{◌>>=◌}
use sync_tools.Pool.Blocks.{write_at}
use sync_tools.Pool.Memory.{Memory, destroy, construct, construct_all}
use sync_tools.Pool.ObjectPool
use sync_tools.Pool.ObjectPool.{ObjectPool, tail_index, copy_out, copy_in}
use sync_tools.Pool.Guarded.{
  Call, acquire, release, acquire_batch, Reply, pointer, batch, given_back, Place, Members,
  under_mutex, begin_at, loads, loads_batch, stores, steps_to, replies,
}

abbrev pub alone : ObjectPool → List Reply → Call → Members
alone p log c = finish under_mutex 4 (some (begin_at c)) (some (p, log))

module _ {ℓ} {A : Type ℓ} (p : ObjectPool) (log : List Reply) where
  -- What the result of a whole call says of the members.
  abbrev pub after_acquire : Option (Option ℕ × ObjectPool × Memory A) → Members
  after_acquire none = none
  after_acquire (some r) = some (r.1, log ++ (pointer r.0 ∷ []))

  abbrev pub after_return : Option (ObjectPool × Memory A) → Members
  after_return none = none
  after_return (some r) = some (r.0, log ++ (given_back ∷ []))

  abbrev pub after_acquire_batch : Option (ℕ × List ℕ × ObjectPool × Memory A) → Members
  after_acquire_batch none = none
  after_acquire_batch (some r) = some (r.2, log ++ (batch r.1 ∷ []))

  -- The rest of each whole call, from its first test or access of an array.
  abbrev rest_of_acquire : A → Memory A → Option ℕ → Option (Option ℕ × ObjectPool × Memory A)
  rest_of_acquire a h o = o >>= λ obj. some (
    some obj,
    record p {
      head_index = mask p.pool_size (add_size p.head_index 1);
      available_count = sub_size p.available_count 1;
    },
    construct obj a h,
  )

  abbrev pub rest_of_return : ℕ → Memory A → Option (List ℕ) → Option (ObjectPool × Memory A)
  rest_of_return num h o = o >>= λ cells.
      some (record p { available = cells; available_count = add_size p.available_count num }, h)

  abbrev rest_of_batch :
      (ℕ → A) → Memory A → ℕ → Option (List ℕ) → Option (ℕ × List ℕ × ObjectPool × Memory A)
  rest_of_batch make h num o = o >>= λ out. some (
    num,
    out,
    record p {
      head_index = mask p.pool_size (add_size p.head_index num);
      available_count = sub_size p.available_count num;
    },
    construct_all make 0 out h,
  )

  acquire_loaded :
      (a : A) (h : Memory A) (o : Option ℕ)
      → finish under_mutex 2 (loads o p log).0 (loads o p log).1
        ≡ after_acquire (rest_of_acquire a h o)
  unfolding finish
  acquire_loaded a h none = refl
  acquire_loaded a h (some obj) = refl

  acquire_tested :
      (a : A) (h : Memory A) (b : Bool)
      → let step = if b then replies (pointer none) p log else steps_to Place.load_pointer p log in
        finish under_mutex 3 step.0 step.1
        ≡ after_acquire (
            if b
            then some (none, p, h)
            else rest_of_acquire a h (get_elem? p.available p.head_index))
  unfolding finish
  acquire_tested a h true = refl
  acquire_tested a h false = acquire_loaded a h (get_elem? p.available p.head_index)

  release_stored :
      (h : Memory A) (o : Option (List ℕ))
      → finish under_mutex 2 (stores Place.count_up o p log).0 (stores Place.count_up o p log).1
        ≡ after_return (rest_of_return 1 h o)
  unfolding finish
  release_stored h none = refl
  release_stored h (some cells) = refl

  release_destroyed :
      (obj : ℕ) (o : Option (Memory A)) {r : ObjectPool × Memory A}
      → (o >>= λ h. rest_of_return 1 h (write_at p.available (tail_index p) obj)) ≡ some r
      → alone p log (release obj)
        ≡ after_return (o >>= λ h. rest_of_return 1 h (write_at p.available (tail_index p) obj))
  unfolding finish
  release_destroyed obj none e = cc e
  release_destroyed obj (some h) e = release_stored h (write_at p.available (tail_index p) obj)

  batch_copied :
      (make : ℕ → A) (h : Memory A) (num : ℕ) (o : Option (List ℕ))
      → finish under_mutex 2 (loads_batch num o p log).0 (loads_batch num o p log).1
        ≡ after_acquire_batch (rest_of_batch make h num o)
  unfolding finish
  batch_copied make h num none = refl
  batch_copied make h num (some out) = refl

  batch_tested :
      (make : ℕ → A) (h : Memory A) (num : ℕ) (b : Bool)
      → let step =
          if b then replies (batch []) p log else steps_to (Place.copy_pointers num) p log in
        finish under_mutex 3 step.0 step.1
        ≡ after_acquire_batch
            (if b then some (0, [], p, h) else rest_of_batch make h num (copy_out p num))
  unfolding finish
  batch_tested make h num true = refl
  batch_tested make h num false = batch_copied make h num (copy_out p num)

  pub batch_stored :
      (h : Memory A) (num : ℕ) (o : Option (List ℕ))
      → let step = stores (Place.count_up_by num) o p log in
        finish under_mutex 3 step.0 step.1 ≡ after_return (rest_of_return num h o)
  unfolding finish
  batch_stored h num none = refl
  batch_stored h num (some cells) = refl

  pub acquire-alone :
      (a : A) (h : Memory A) → alone p log acquire ≡ after_acquire (ObjectPool.acquire a p h)
  unfolding finish ObjectPool.acquire
  acquire-alone a h = acquire_tested a h (p.available_count == 0)

  pub release-alone :
      (obj : ℕ) (h : Memory A) {r : ObjectPool × Memory A}
      → ObjectPool.release obj p h ≡ some r
      → alone p log (release obj) ≡ after_return (ObjectPool.release obj p h)
  unfolding ObjectPool.release
  release-alone obj h e = release_destroyed obj (destroy obj h) e

  pub acquire_batch-alone :
      (max_count : ℕ) (make : ℕ → A) (h : Memory A)
      → alone p log (acquire_batch max_count)
        ≡ after_acquire_batch (ObjectPool.acquire_batch max_count make p h)
  unfolding finish ObjectPool.acquire_batch
  acquire_batch-alone max_count make h =
      batch_tested make h (min max_count p.available_count) (min max_count p.available_count == 0)
