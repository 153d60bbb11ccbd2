-- ===== src/Futures/Examples.antt =====
-- futures.hpp at three futures.
use cplease.Base.{ℕ, ◌≡◌, refl, List, [], ◌∷◌, some, arith}
use cplease.Future.Monad.{thrown, State, World, new_state, called, call_void}
use cplease.Future.{
  Callbacks, returns, throws, exception, settle, settle_locked, on_ready, run_handlers,
  invoke_success,
}
use cplease.Futures.{
  ResultVariant, value, failed, new_futures, deliver, handle_future_ready, set_outcome, number_from,
  fulfil_aggregate, aggregate_outcome, first_exception, accumulate,
}
use cplease.Base.{◌==◌, true}
use cplease.Futures.{get_future, get_future_by_index}
use cplease.Futures.Lookup.{make_futures, get_future_at}
use cplease.Futures.Lookup.Keys.{at_place, get_future-make_futures}
use cplease.Futures.Counted.{events}
use cplease.Futures.Order.{Told, after_return, deliver-new_futures}

abbrev three : List (ℕ × ℕ)
three = (10, 0) ∷ (11, 1) ∷ (12, 2) ∷ []

abbrev two_fail : List (ResultVariant ℕ ℕ)
two_fail = value 5 ∷ failed (thrown 6) ∷ failed (thrown 7) ∷ []

abbrev summing : Callbacks (List ℕ) ℕ
summing = record {
  on_void = λ f vs. returns tt;
  on_value = λ f vs. returns vs;
  on_future = λ f vs. throws 0;
  on_error = λ f e. returns tt;
  is_a = λ ty e. true;
}

-- The aggregate promise, with a continuation, the function 5.
abbrev aggregate_state : State (List ℕ) ℕ
aggregate_state = record (new_state []) { success_handlers = call_void 5 ∷ [] }

abbrev aggregate_world : World (List ℕ) ℕ
aggregate_world = record { states = aggregate_state ∷ []; log = [] }

deliver-new_futures_example :
    Told 0 true (exception (thrown 6)) aggregate_world (
      deliver summing 50 2 0 (events two_fail (2 ∷ 0 ∷ 1 ∷ [])) (new_futures three) aggregate_world)
unfolding new_futures number_from
deliver-new_futures_example =
    deliver-new_futures summing 50 1 0 aggregate_world
      (record {
        state = aggregate_state;
        found = refl;
        free = refl;
        waits = refl;
        fresh = refl;
        enough = omega arith;
      })
      three two_fail (2 ∷ 0 ∷ 1 ∷ []) (omega arith) refl tt (refl, (refl, (refl, tt)))

-- The values come in the order of the futures, and the continuation is called with them.
in_order :
    after_return {V = ℕ} {X = ℕ} (
      deliver {K = ℕ} summing 50 2 0
        ((2, value 7) ∷ (0, value 5) ∷ (1, value 6) ∷ [])
        (new_futures three)
        aggregate_world)
    ≡ some (record {
      states = record aggregate_state { m_result = 5 ∷ 6 ∷ 7 ∷ []; is_ready = true } ∷ [];
      log = called 5 (5 ∷ 6 ∷ 7 ∷ []) ∷ [];
    })
unfolding new_futures number_from deliver handle_future_ready set_outcome fulfil_aggregate
    aggregate_outcome first_exception accumulate settle settle_locked on_ready run_handlers
    invoke_success
in_order = refl

-- The future 31 is the second of three, and there is no fourth.
get_future-make_futures_example :
    (get_future (λ k. k == 3) (make_futures {V = ℕ} {X = ℕ} (30 ∷ (31 ∷ (32 ∷ []))))
      ≡ at_place (30 ∷ (31 ∷ (32 ∷ []))) 3)
    × ((get_future_by_index 3 (make_futures {V = ℕ} {X = ℕ} (30 ∷ (31 ∷ (32 ∷ []))))
          ≡ at_place (30 ∷ (31 ∷ (32 ∷ []))) 3)
        × (get_future_at true (λ k. k == 3) 3 (make_futures {V = ℕ} {X = ℕ} (30 ∷ (31 ∷ (32 ∷ []))))
            ≡ at_place (30 ∷ (31 ∷ (32 ∷ []))) 3))
get_future-make_futures_example = get_future-make_futures ℕ ℕ (30 ∷ (31 ∷ (32 ∷ []))) 3 true
