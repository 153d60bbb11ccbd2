-- ===== src/Future/Examples.antt =====
-- future.hpp at a chain of three futures.
use cplease.Base.{
  some, none, arith, get_elem?, ◌==◌, ℕ, zero, suc, ◌+◌, ◌≡◌, refl, Bool, true, [], ◌∷◌,
}
use cplease.Future.Monad.{
  call_future, State, new_state, call_value, pass_on, Run, threw, stuck, fault, out_of_fuel, thrown,
  World, done, call_void, handle_any, handle_type, ◌>>=◌, ◌>>◌, called, handled,
}
use cplease.Future.{
  take, then_future, run_exceptions, Callbacks, result, Reply, returns, throws, then_void,
  then_value, make_promise, set_result, settle, settle_locked, on_ready, run_handlers,
  invoke_success, get,
}
use cplease.Future.Ends.{Ended}
use cplease.Future.Fuel.{settle_ends}
use cplease.Future.Preserves.{Holds}
use cplease.Future.Kept.{settle_fulfils}
use cplease.Future.Get.{get-settle, take-keeps_exception}
use cplease.Future.Then.{after_then, then_value-after_then}
use cplease.Future.Chain.{continuing, continued, then-propagates}
use cplease.Future.Handlers.{logging, run_handlers_order, run_exceptions_first}

-- The function f adds f to its argument, and throws 7 at 0; the void function 0 throws; every exception
-- is of the type 2; every function of a future returns the
-- future of state 3.
abbrev adders : Callbacks ℕ ℕ
adders = record {
  on_void = λ f v. noted f v;
  on_value = λ f v. add f v;
  on_future = λ f v. returns 3;
  on_error = λ f e. returns tt;
  is_a = λ ty e. is_two ty;
}
  where
    noted : ℕ → ℕ → Reply (Unit {0}) ℕ
    noted zero v = throws v
    noted (suc f) v = returns tt

    is_two : ℕ → Bool
    is_two n = n == 2

    add : ℕ → ℕ → Reply ℕ ℕ
    add f zero = throws 7
    add f (suc v) = returns (f + suc v)

abbrev no_states : World ℕ ℕ
no_states = record { states = []; log = [] }

abbrev world_after : {B : Type 0} → Run ℕ ℕ B → World ℕ ℕ
world_after (done b w) = w
world_after (threw e w) = w
world_after stuck = no_states
world_after fault = no_states
world_after out_of_fuel = no_states

-- State 1 continues 0 by adding 5, 2 continues 1 by adding 6; 3 is apart.
abbrev chain : World ℕ ℕ
chain = world_after (
    (make_promise 0 >>= λ p.
    then_value 0 p 5 >>= λ q. then_value 0 q 6 >>= λ r. then_void r (call_void 9) >> make_promise 0)
      no_states)

-- Its state 0.
abbrev first : State ℕ ℕ
first = record (new_state 0) {
  success_handlers = call_value 5 1 ∷ [];
  exceptions_handlers = pass_on 1 ∷ [];
}

-- A state that was given 8.
abbrev eight : World ℕ ℕ
eight = record { states = record (new_state 8) { is_ready = true } ∷ []; log = [] }

settle_ends_example : Ended 4 (settle adders 5 0 (result 2) chain)
unfolding make_promise then_value then_void
settle_ends_example = settle_ends adders 5 0 (result 2) chain (omega arith)

settle_fulfils_example :
    Holds
      (λ w'. get_elem? w'.states 0 ≡ some (record first { m_result = 2; is_ready = true }))
      Unit
      (settle adders 5 0 (result 2) chain)
    × Ended 4 (settle adders 5 0 (result 2) chain)
unfolding make_promise then_value then_void
settle_fulfils_example =
    settle_fulfils adders 4 0 (result 2) first chain refl refl refl (omega arith)

run_handlers_order_example :
    (run_handlers adders (settle adders 3) (call_void 1 ∷ call_void 2 ∷ []) 9 eight
      ≡ done tt (logging (called 1 9 ∷ called 2 9 ∷ []) eight))
    × (run_handlers adders
          (settle adders 3)
          (call_void 1 ∷ call_void 2 ∷ call_void 0 ∷ call_void 3 ∷ [])
          9
          eight
        ≡ threw (thrown 9) (logging (called 1 9 ∷ called 2 9 ∷ called 0 9 ∷ []) eight))
run_handlers_order_example =
    run_handlers_order adders (settle adders 3) (1 ∷ 2 ∷ []) 9 eight 0 9 (call_void 3 ∷ [])
      (refl, (refl, tt)) refl

run_exceptions_first_example :
    (run_exceptions adders
        (settle adders 3)
        (handle_type 7 1 ∷ handle_type 6 2 ∷ handle_any 5 ∷ [])
        (thrown 4)
        eight
      ≡ done tt (logging (handled 6 (thrown 4) ∷ []) eight))
    × (run_exceptions adders
          (settle adders 3)
          (handle_type 7 1 ∷ handle_any 6 ∷ handle_any 5 ∷ [])
          (thrown 4)
          eight
        ≡ done tt (logging (handled 6 (thrown 4) ∷ []) eight))
    × (run_exceptions adders (settle adders 3) (handle_type 7 1 ∷ []) (thrown 4) eight
        ≡ done tt eight)
run_exceptions_first_example =
    run_exceptions_first adders (settle adders 3) ((7, 1) ∷ []) (thrown 4) 6 2 (handle_any 5 ∷ [])
      eight (refl, tt) refl refl

chain_example :
    (set_result adders 5 0 2 >> get 2) chain ≡ done 13 (world_after (set_result adders 5 0 2 chain))
unfolding make_promise then_value then_void set_result settle settle_locked on_ready run_handlers
    invoke_success get
chain_example = refl

-- A state that was given an exception.
abbrev failed : World ℕ ℕ
failed = record {
  states = record (new_state 0) { is_ready = true; m_exception = some (thrown 4) } ∷ [];
  log = [];
}

then_value-after_then_example :
    (then_value 0 0 5 eight
      ≡ done 1 (after_then 0 0 (call_value 5 1) (record (new_state 8) { is_ready = true }) eight))
    × (then_future 0 0 5 eight
        ≡ done 1
            (after_then 0 0 (call_future 5 1) (record (new_state 8) { is_ready = true }) eight))
then_value-after_then_example =
    then_value-after_then 0 0 5 (record (new_state 8) { is_ready = true }) eight refl refl

then-propagates_example :
    Holds
      (λ w'.
        get_elem? w'.states 1
        ≡ some (record (continuing 0 6 2 none) { m_result = 7; is_ready = true }))
      Unit
      (settle adders 5 0 (result 2) chain)
unfolding make_promise then_value then_void continued
then-propagates_example =
    then-propagates adders 3 1 (continuing 0 6 2 none) 0 5 0 none (result 2) chain refl
      (λ e. absurd (omega arith)) refl refl refl

get-settle_example : Holds (λ w'. get 0 w' ≡ done 2 w') Unit (settle adders 5 0 (result 2) chain)
unfolding make_promise then_value then_void
get-settle_example = get-settle adders 4 0 (result 2) first chain refl refl refl refl

take-keeps_exception_example :
    (take (λ v. v) 0 failed
      ≡ done 0
          (record failed { states = record (new_state 0) { m_exception = some (thrown 4) } ∷ [] }))
    × Holds
        (λ w'. get 0 w' ≡ threw (thrown 4) w')
        Unit
        (settle adders 3 0
          (result 6)
          (record failed { states = record (new_state 0) { m_exception = some (thrown 4) } ∷ [] }))
take-keeps_exception_example =
    take-keeps_exception adders (λ v. v) 2 0 6 (thrown 4)
      (record (new_state 0) { is_ready = true; m_exception = some (thrown 4) }) failed refl refl
      refl refl
