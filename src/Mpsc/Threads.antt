-- ===== src/Mpsc/Threads.antt =====
-- Any number of producer threads and one consumer thread on a `BoundedMPSCQueue`, interleaved at
-- each access to a shared variable, while any thread may call `run()` and `stop()`. The atomics are
-- taken as sequentially consistent. A `blocking_` call is the same loop body again and again; the
-- branches for `const T&` and `T&&` make the same accesses.
mod Invariant
mod Cells
mod Knows
mod Facts
mod Flight
mod Write
mod Produce
mod Take
mod Consume
mod Reachable
mod Safety
mod Answers
mod PushProgress
mod PopProgress
mod Size
mod Tests
use sync_tools.Prelude.{ℕ, ◌≡◌, ◌≢◌, some, none, List, [], ◌∷◌, ◌++◌, get_elem?, set}
use sync_tools.Prelude.Words.{add_size, mask}
use sync_tools.Prelude.Family.{update}
use sync_tools.Fifo.{QueueStatus, running, stopped}
use sync_tools.Spsc.Threads.{Mode, non_blocking, blocking}
use sync_tools.Mpsc.Queue.{Cell, Queue, new_queue, diff, Sign, same, negative, positive}

-- Where a producer stands: what it does next, with its live local variables.
pub data Producer {ℓ} (A : Type ℓ) : Type ℓ where
  idle : Producer A
  check_relaxed : A → Producer A  -- head of the loop in `blocking_push`
  check_acquire : A → Producer A
  load_status : Mode → A → Producer A  -- first test of `try_push`
  load_head : Mode → A → Producer A
  load_seq : Mode → A → (pos : ℕ) → Producer A  -- head of the loop in `try_push`, and `diff`
  claim : Mode → A → (pos : ℕ) → Producer A  -- the compare-exchange on `_head`
  construct : Mode → A → (pos : ℕ) → Producer A  -- the placement `new`
  store_seq : Mode → A → (pos : ℕ) → Producer A

-- Where the consumer stands.
pub data Consumer {ℓ} (A : Type ℓ) : Type ℓ where
  idle : Consumer A
  load_tail : Mode → Consumer A  -- start of `try_pop`
  load_seq : Mode → (pos : ℕ) → Consumer A  -- and `diff`
  store_tail : Mode → (pos : ℕ) → Consumer A
  take_object : Mode → (pos : ℕ) → Consumer A  -- move out of the cell and destroy the object
  store_seq : Mode → (pos : ℕ) → A → Consumer A
  check_relaxed : Consumer A  -- `blocking_pop`, after `try_pop` failed
  check_acquire : Consumer A

-- Where a call begins, and where one whose `try_push` or `try_pop` fails goes on.
abbrev pub push_begun {ℓ} : {A : Type ℓ} → Mode → A → Producer A
push_begun non_blocking v = Producer.load_status non_blocking v
push_begun blocking v = Producer.check_relaxed v

abbrev pub push_failed {ℓ} : {A : Type ℓ} → Mode → A → Producer A
push_failed non_blocking v = Producer.idle
push_failed blocking v = Producer.check_relaxed v

abbrev pub pop_failed {ℓ} : {A : Type ℓ} → Mode → Consumer A
pop_failed non_blocking = Consumer.idle
pop_failed blocking = Consumer.check_relaxed

module _ {ℓ} {A : Type ℓ} (size : ℕ) where
  abbrev pub CellOf : Queue A → (pos : ℕ) → Cell A → Type ℓ
  CellOf q pos c = get_elem? q.cells (mask size pos) ≡ some c

  abbrev pub put_cell : Queue A → (pos : ℕ) → Cell A → Queue A
  put_cell q pos c = record q { cells = set q.cells (mask size pos) c }

  -- One access by a producer: the queue and the place after it, and what it claimed a cell for. A
  -- compare-exchange may fail spuriously, and hands back the value of `_head` when it fails.
  pub data ProducerMove (q : Queue A) : Producer A → Queue A → Producer A → List A → Type ℓ where
    call : (m : Mode) (v : A) → ProducerMove q Producer.idle q (push_begun m v) []
    first_running :
        {v : A}
        → q.status ≡ running
        → ProducerMove q (Producer.check_relaxed v) q (Producer.load_status blocking v) []
    first_stopped :
        {v : A}
        → q.status ≡ stopped
        → ProducerMove q (Producer.check_relaxed v) q (Producer.check_acquire v) []
    second_running :
        {v : A}
        → q.status ≡ running
        → ProducerMove q (Producer.check_acquire v) q (Producer.load_status blocking v) []
    second_stopped :
        {v : A} → q.status ≡ stopped → ProducerMove q (Producer.check_acquire v) q Producer.idle []
    sees_running :
        {m : Mode} {v : A}
        → q.status ≡ running
        → ProducerMove q (Producer.load_status m v) q (Producer.load_head m v) []
    sees_stopped :
        {m : Mode} {v : A}
        → q.status ≡ stopped
        → ProducerMove q (Producer.load_status m v) q (push_failed m v) []
    loads_head :
        {m : Mode} {v : A}
        → ProducerMove q (Producer.load_head m v) q (Producer.load_seq m v q.head) []
    sees_free :
        {m : Mode} {v : A} {pos : ℕ} {c : Cell A}
        → CellOf q pos c
        → diff c.seq pos ≡ some same
        → ProducerMove q (Producer.load_seq m v pos) q (Producer.claim m v pos) []
    sees_full :
        {m : Mode} {v : A} {pos : ℕ} {c : Cell A}
        → CellOf q pos c
        → diff c.seq pos ≡ some negative
        → ProducerMove q (Producer.load_seq m v pos) q (push_failed m v) []
    sees_claimed :
        {m : Mode} {v : A} {pos : ℕ} {c : Cell A}
        → CellOf q pos c
        → diff c.seq pos ≡ some positive
        → ProducerMove q (Producer.load_seq m v pos) q (Producer.load_head m v) []
    claims :
        {m : Mode} {v : A} {pos : ℕ}
        → q.head ≡ pos
        → ProducerMove q
            (Producer.claim m v pos)
            (record q { head = add_size pos 1 })
            (Producer.construct m v pos)
            (v ∷ [])
    claim_fails :
        {m : Mode} {v : A} {pos : ℕ}
        → ProducerMove q (Producer.claim m v pos) q (Producer.load_seq m v q.head) []
    constructs :
        {m : Mode} {v : A} {pos : ℕ} {c : Cell A}
        → CellOf q pos c
        → ProducerMove q
            (Producer.construct m v pos)
            (put_cell q pos (record c { storage = some v }))
            (Producer.store_seq m v pos)
            []
    publishes :
        {m : Mode} {v : A} {pos : ℕ} {c : Cell A}
        → CellOf q pos c
        → ProducerMove q
            (Producer.store_seq m v pos)
            (put_cell q pos (record c { seq = add_size pos 1 }))
            Producer.idle
            []

  -- One access by the consumer, and what it gave back a cell of.
  pub data ConsumerMove (q : Queue A) : Consumer A → Queue A → Consumer A → List A → Type ℓ where
    call : (m : Mode) → ConsumerMove q Consumer.idle q (Consumer.load_tail m) []
    loads_tail :
        {m : Mode} → ConsumerMove q (Consumer.load_tail m) q (Consumer.load_seq m q.tail) []
    sees_object :
        {m : Mode} {pos : ℕ} {c : Cell A}
        → CellOf q pos c
        → diff c.seq (add_size pos 1) ≡ some same
        → ConsumerMove q (Consumer.load_seq m pos) q (Consumer.store_tail m pos) []
    sees_none :
        {m : Mode} {pos : ℕ} {c : Cell A} {s : Sign}
        → CellOf q pos c
        → diff c.seq (add_size pos 1) ≡ some s
        → s ≢ same
        → ConsumerMove q (Consumer.load_seq m pos) q (pop_failed m) []
    stores_tail :
        {m : Mode} {pos : ℕ}
        → ConsumerMove q
            (Consumer.store_tail m pos)
            (record q { tail = add_size pos 1 })
            (Consumer.take_object m pos)
            []
    takes :
        {m : Mode} {pos : ℕ} {c : Cell A} {v : A}
        → CellOf q pos c
        → c.storage ≡ some v
        → ConsumerMove q
            (Consumer.take_object m pos)
            (put_cell q pos (record c { storage = none }))
            (Consumer.store_seq m pos v)
            []
    releases :
        {m : Mode} {pos : ℕ} {c : Cell A} {v : A}
        → CellOf q pos c
        → ConsumerMove q
            (Consumer.store_seq m pos v)
            (put_cell q pos (record c { seq = add_size pos size }))
            Consumer.idle
            (v ∷ [])
    first_stopped :
        q.status ≡ stopped → ConsumerMove q Consumer.check_relaxed q Consumer.check_acquire []
    first_running :
        q.status ≡ running
        → ConsumerMove q Consumer.check_relaxed q (Consumer.load_tail blocking) []
    second_stopped : q.status ≡ stopped → ConsumerMove q Consumer.check_acquire q Consumer.idle []
    second_running :
        q.status ≡ running
        → ConsumerMove q Consumer.check_acquire q (Consumer.load_tail blocking) []

-- The queue, the threads, the values for which cells were claimed, in the order of their positions,
-- and those popped so far, in order. Only so many producers as have called are ever not idle.
pub record System {ℓ} (A : Type ℓ) : Type ℓ where
  pub queue : Queue A
  pub producers : ℕ → Producer A
  pub consumer : Consumer A
  pub claimed : List A
  pub popped : List A

unfoldable pub init {ℓ} : (A : Type ℓ) → ℕ → System A
unfolding new_queue
init A size = record {
  queue = new_queue A size;
  producers = λ i. Producer.idle;
  consumer = Consumer.idle;
  claimed = [];
  popped = [];
}

module _ {ℓ} {A : Type ℓ} (size : ℕ) where
  pub data Step (s : System A) : System A → Type ℓ where
    produce :
        (i : ℕ) {p p' : Producer A} {q : Queue A} {out : List A}
        → s.producers i ≡ p
        → ProducerMove size s.queue p q p' out
        → Step s (record s {
          queue = q;
          producers = update s.producers i p';
          claimed = s.claimed ++ out;
        })
    consume :
        {q : Queue A} {k : Consumer A} {out : List A}
        → ConsumerMove size s.queue s.consumer q k out
        → Step s (record s { queue = q; consumer = k; popped = s.popped ++ out })
    set_status : (t : QueueStatus) → Step s (record s { queue = record s.queue { status = t } })

  pub data Reach : System A → Type ℓ where
    start : Reach (init A size)
    later : {s t : System A} → Reach s → Step s t → Reach t
