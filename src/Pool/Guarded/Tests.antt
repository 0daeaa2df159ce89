-- ===== src/Pool/Guarded/Tests.antt =====
-- A pool of two pointers and two threads.
use sync_tools.Prelude.{
  ℕ, zero, suc, ◌+◌, ◌%◌, ◌<◌, ◌≡◌, get_elem?, refl, sym, subst, some, List, [], ◌∷◌, ◌++◌, arith,
  All-cons, All-nil, false,
}
use sync_tools.Prelude.Words.{mask}
use sync_tools.Mutex.Guard.{outside, Client}
use sync_tools.Mutex.Guard.Schedule.{Run, run}
use sync_tools.Mutex.Guard.Serial.{is_working, AtRest}
use sync_tools.Pool.Blocks.{write_at, read_block}
use sync_tools.Pool.ObjectPool.{ObjectPool, copy_out}
use sync_tools.Pool.ObjectPool.Holds.{Holds}
use sync_tools.Pool.Guarded.{
  Call, acquire, release, acquire_batch, pointer, batch, given_back, Place, under_mutex,
}
use sync_tools.Pool.Guarded.FreeList.{answer, answers}
use sync_tools.Pool.Guarded.Fifo.{Leaves, pool_serves_fifo}

abbrev pair : ObjectPool
pair = record { pool_size = 2; available = 100 ∷ 101 ∷ []; head_index = 1; available_count = 2 }

pair-Holds : Holds pair (101 ∷ 100 ∷ [])
pair-Holds = record {
  fits = omega arith;
  counted = refl;
  head_in = omega arith;
  window = record { long = refl; at = at };
  pow = record { exponent = 1; is_pow = refl; fits = omega arith };
}
  where
    at :
        (j : ℕ)
        → j < 2
        → get_elem? pair.available ((pair.head_index + j) % 2) ≡ get_elem? (101 ∷ 100 ∷ []) j
    at zero h = refl
    at (suc zero) h = refl
    at (suc (suc j)) h = absurd (omega arith)

-- Thread 0 takes one pointer and gives it back, thread 1 takes what is left in between.
abbrev two_threads : List (List Call)
two_threads = (acquire ∷ release 101 ∷ []) ∷ (acquire_batch 3 ∷ []) ∷ []

abbrev round_of : ℕ → List ℕ
round_of i = i ∷ i ∷ i ∷ i ∷ i ∷ i ∷ i ∷ i ∷ []

abbrev ended : Run under_mutex (some (pair, [])) two_threads
ended = run under_mutex (some (pair, [])) two_threads (round_of 0 ++ round_of 1 ++ round_of 0)

abbrev out : Client Call Place
out = record { phase = outside; calls = [] }

ended_result : ended.last.clients ≡ out ∷ out ∷ []
unfolding run write_at mask copy_out read_block
ended_result = refl

at_rest : AtRest ended.last.clients
at_rest = subst AtRest (sym ended_result) (
    All-cons (λ i k. is_working k.phase ≡ false) out (out ∷ []) refl
      (All-cons (λ i k. is_working k.phase ≡ false) out [] refl
        (All-nil (λ i k. is_working k.phase ≡ false))))

ended_served :
    answers 2 [] (101 ∷ 100 ∷ []) ended.last.done
    ≡ some (pointer (some 101) ∷ batch (100 ∷ []) ∷ given_back ∷ [], 101 ∷ [])
unfolding run write_at mask copy_out read_block answer answers
ended_served = refl

pool_serves_fifo_example :
    Leaves 2 (pointer (some 101) ∷ batch (100 ∷ []) ∷ given_back ∷ []) (101 ∷ []) ended.last.shared
pool_serves_fifo_example = pool_serves_fifo pair-Holds ended.reach at_rest ended_served
