-- ===== src/Mutex/Guard/Tests.antt =====
-- The workers of examples/mutex.cpp on schedules that run.
use sync_tools.Prelude.{
  ℕ, ◌*◌, ◌≡◌, refl, Option, some, List, [], ◌∷◌, ◌++◌, arith, All-cons, All-nil, subst, sym,
}
use sync_tools.Mutex.Guard.{outside, wants, works, Client}
use sync_tools.Mutex.Guard.Schedule.{Run, run}
use sync_tools.Mutex.Guard.Serial.{Serial, Shows, calls_serialise}
use sync_tools.Mutex.Guard.Counter.{
  Round, add_one, Place, store_shared, worker, programs, AllJoined, no_update_lost,
}

-- Two threads of two rounds each.
abbrev take_turns : List ℕ → Run worker (some 0) (programs 2 2)
take_turns is = run worker (some 0) (programs 2 2) is

-- Thread 0 has loaded `shared` and not stored it; thread 1 spins. The last turn stands first.
abbrev half_way_turns : List ℕ
half_way_turns = 1 ∷ 1 ∷ 1 ∷ 0 ∷ 0 ∷ 0 ∷ 0 ∷ []

abbrev half_way : Run worker (some 0) (programs 2 2)
half_way = take_turns half_way_turns

half_way_result :
    half_way.last.clients
    ≡ record { phase = works add_one (store_shared 0); calls = add_one ∷ [] }
      ∷ record { phase = wants add_one; calls = add_one ∷ [] }
      ∷ []
unfolding run
half_way_result = refl

abbrev round_of : ℕ → List ℕ
round_of i = i ∷ i ∷ i ∷ i ∷ i ∷ i ∷ []

-- Both threads go on to the end.
abbrev joined : Run worker (some 0) (programs 2 2)
joined = take_turns (round_of 0 ++ round_of 1 ++ (1 ∷ 1 ∷ 1 ∷ 1 ∷ 1 ∷ 0 ∷ 0 ∷ half_way_turns))

abbrev out : Client Round Place
out = record { phase = outside; calls = [] }

joined_result : joined.last.clients ≡ out ∷ out ∷ []
unfolding run
joined_result = refl

both_out : AllJoined (out ∷ out ∷ [])
both_out =
    All-cons (λ i k. k ≡ out) out (out ∷ []) refl
      (All-cons (λ i k. k ≡ out) out [] refl (All-nil (λ i k. k ≡ out)))

all_joined : AllJoined joined.last.clients
all_joined = subst AllJoined (sym joined_result) both_out

calls_serialise_example :
    (base : Option ℕ) × Serial worker (some 0) half_way.last.done base
    × Shows worker half_way.last.clients base half_way.last.shared
calls_serialise_example = calls_serialise half_way.reach

no_update_lost_example : joined.last.shared ≡ some (2 * 2)
no_update_lost_example = no_update_lost 2 2 (omega arith) joined.reach all_joined
