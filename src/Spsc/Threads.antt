-- ===== src/Spsc/Threads.antt =====
-- One producer thread and one consumer thread on a `BoundedSPSCQueue`, interleaved at each access
-- to a shared variable, while any thread may call `run()` and `stop()`. The atomics are taken as
-- sequentially consistent. A `blocking_` call is the same loop body again and again; the branches
-- for `const T&` and `T&&` make the same accesses.
mod Invariant
mod Produce
mod Consume
pub mod Calls
pub mod Alone
pub mod Missed
pub mod Safety
pub mod Progress
use sync_tools.Prelude.{ℕ, ◌≡◌, ◌≢◌, some, List, [], ◌∷◌, ◌++◌, Option}
use sync_tools.Storage.{construct_at, take_at}
use sync_tools.Fifo.{QueueStatus, running, stopped}
use sync_tools.Spsc.Queue.{Queue, new_queue, next_index}

pub data Mode : Type 0 where
  non_blocking blocking : Mode

-- Where the producer stands: what it does next, with its live local variables.
pub data Producer {ℓ} (A : Type ℓ) : Type ℓ where
  idle : Producer A
  load_status : Mode → A → Producer A  -- first test of `try_push`
  load_head : Mode → A → Producer A
  load_tail : Mode → A → (head : ℕ) → Producer A  -- and compare it with `next`
  construct : Mode → A → (head : ℕ) → Producer A  -- the placement `new`
  store_head : Mode → A → (head : ℕ) → Producer A
  check_relaxed : A → Producer A  -- `blocking_push`, after `try_push` failed
  check_acquire : A → Producer A

-- Where the consumer stands.
pub data Consumer {ℓ} (A : Type ℓ) : Type ℓ where
  idle : Consumer A
  load_tail : Mode → Consumer A  -- start of `try_pop`
  load_head : Mode → (tail : ℕ) → Consumer A  -- and compare it with `tail`
  take_object : Mode → (tail : ℕ) → Consumer A  -- move out of the slot and destroy the object
  store_tail : Mode → (tail : ℕ) → A → Consumer A
  check_relaxed : Consumer A  -- `blocking_pop`, after `try_pop` failed
  check_acquire : Consumer A

-- Where a `try_push` or `try_pop` that fails goes on.
abbrev pub push_failed {ℓ} : {A : Type ℓ} → Mode → A → Producer A
push_failed non_blocking v = Producer.idle
push_failed blocking v = Producer.check_relaxed v

abbrev pub pop_failed {ℓ} : {A : Type ℓ} → Mode → Consumer A
pop_failed non_blocking = Consumer.idle
pop_failed blocking = Consumer.check_relaxed

module _ {ℓ} {A : Type ℓ} (size : ℕ) where
  -- One access by the producer: the queue and the place after it, and what it published.
  pub data ProducerMove (q : Queue A) : Producer A → Queue A → Producer A → List A → Type ℓ where
    call : (m : Mode) (v : A) → ProducerMove q Producer.idle q (Producer.load_status m v) []
    sees_running :
        {m : Mode} {v : A}
        → q.status ≡ running
        → ProducerMove q (Producer.load_status m v) q (Producer.load_head m v) []
    sees_stopped :
        {m : Mode} {v : A}
        → q.status ≡ stopped
        → ProducerMove q (Producer.load_status m v) q (push_failed m v) []
    loads_head :
        {m : Mode} {v : A}
        → ProducerMove q (Producer.load_head m v) q (Producer.load_tail m v q.head) []
    sees_full :
        {m : Mode} {v : A} {h : ℕ}
        → next_index size h ≡ q.tail
        → ProducerMove q (Producer.load_tail m v h) q (push_failed m v) []
    sees_room :
        {m : Mode} {v : A} {h : ℕ}
        → next_index size h ≢ q.tail
        → ProducerMove q (Producer.load_tail m v h) q (Producer.construct m v h) []
    constructs :
        {m : Mode} {v : A} {h : ℕ} {b : List (Option A)}
        → construct_at q.buffer h v ≡ some b
        → ProducerMove q
            (Producer.construct m v h)
            (record q { buffer = b })
            (Producer.store_head m v h)
            []
    publishes :
        {m : Mode} {v : A} {h : ℕ}
        → ProducerMove q
            (Producer.store_head m v h)
            (record q { head = next_index size h })
            Producer.idle
            (v ∷ [])
    first_stopped :
        {v : A}
        → q.status ≡ stopped
        → ProducerMove q (Producer.check_relaxed v) q (Producer.check_acquire v) []
    first_running :
        {v : A}
        → q.status ≡ running
        → ProducerMove q (Producer.check_relaxed v) q (Producer.load_status blocking v) []
    second_stopped :
        {v : A} → q.status ≡ stopped → ProducerMove q (Producer.check_acquire v) q Producer.idle []
    second_running :
        {v : A}
        → q.status ≡ running
        → ProducerMove q (Producer.check_acquire v) q (Producer.load_status blocking v) []

  -- One access by the consumer, and what it took out.
  pub data ConsumerMove (q : Queue A) : Consumer A → Queue A → Consumer A → List A → Type ℓ where
    call : (m : Mode) → ConsumerMove q Consumer.idle q (Consumer.load_tail m) []
    loads_tail :
        {m : Mode} → ConsumerMove q (Consumer.load_tail m) q (Consumer.load_head m q.tail) []
    sees_empty :
        {m : Mode} {t : ℕ}
        → t ≡ q.head
        → ConsumerMove q (Consumer.load_head m t) q (pop_failed m) []
    sees_object :
        {m : Mode} {t : ℕ}
        → t ≢ q.head
        → ConsumerMove q (Consumer.load_head m t) q (Consumer.take_object m t) []
    takes :
        {m : Mode} {t : ℕ} {v : A} {b : List (Option A)}
        → take_at q.buffer t ≡ some (v, b)
        → ConsumerMove q
            (Consumer.take_object m t)
            (record q { buffer = b })
            (Consumer.store_tail m t v)
            []
    releases :
        {m : Mode} {t : ℕ} {v : A}
        → ConsumerMove q
            (Consumer.store_tail m t v)
            (record q { tail = next_index size t })
            Consumer.idle
            (v ∷ [])
    first_stopped :
        q.status ≡ stopped → ConsumerMove q Consumer.check_relaxed q Consumer.check_acquire []
    first_running :
        q.status ≡ running
        → ConsumerMove q Consumer.check_relaxed q (Consumer.load_tail blocking) []
    second_stopped : q.status ≡ stopped → ConsumerMove q Consumer.check_acquire q Consumer.idle []
    second_running :
        q.status ≡ running
        → ConsumerMove q Consumer.check_acquire q (Consumer.load_tail blocking) []

-- The queue, the two threads, and all that was pushed and popped so far, in order.
pub record System {ℓ} (A : Type ℓ) : Type ℓ where
  pub queue : Queue A
  pub producer : Producer A
  pub consumer : Consumer A
  pub pushed : List A
  pub popped : List A

unfoldable pub init {ℓ} : (A : Type ℓ) → ℕ → System A
unfolding new_queue
init A size = record {
  queue = new_queue A size;
  producer = Producer.idle;
  consumer = Consumer.idle;
  pushed = [];
  popped = [];
}

module _ {ℓ} {A : Type ℓ} (size : ℕ) where
  pub data Step (s : System A) : System A → Type ℓ where
    produce :
        {q : Queue A} {p : Producer A} {out : List A}
        → ProducerMove size s.queue s.producer q p out
        → Step s (record s { queue = q; producer = p; pushed = s.pushed ++ out })
    consume :
        {q : Queue A} {c : Consumer A} {out : List A}
        → ConsumerMove size s.queue s.consumer q c out
        → Step s (record s { queue = q; consumer = c; popped = s.popped ++ out })
    set_status : (t : QueueStatus) → Step s (record s { queue = record s.queue { status = t } })

  pub data Reach : System A → Type ℓ where
    start : Reach (init A size)
    later : {s t : System A} → Reach s → Step s t → Reach t
