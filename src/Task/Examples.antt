-- ===== src/Task/Examples.antt =====
-- packaged_task.hpp at a task that throws.
use cplease.Base.{ℕ, ◌+◌, ◌≡◌, refl, Bool, true, false, if◌then◌else◌, [], ◌∷◌, some}
use cplease.Future.Monad.{
  World, Run, done, threw, thrown, called, new_state, call_void, ◌>>=◌, ◌>>◌,
}
use cplease.Future.{
  Callbacks, Reply, returns, throws, result, get, make_promise, set_exception, settle,
  settle_locked, on_ready, run_handlers, run_exceptions,
}
use cplease.Future.Void.{VoidCallbacks, set_ready}
use cplease.Task.Stoppable.{new_packaged_task_st, call_st, get_future, get-call_st}
use cplease.Task.{call}
use cplease.Task.Ready.{get-call}
use cplease.Future.Chain.{continued}
use cplease.Future.Get.{answer_of}
use cplease.Future.Preserves.{Holds}

abbrev failing : Callbacks ℕ ℕ
failing = record {
  on_void = λ f v. returns tt;
  on_value = λ f v. throws (f + v);
  on_future = λ f v. returns 0;
  on_error = λ f e. returns tt;
  is_a = λ ty e. true;
}

-- A task of a new promise, with a continuation on its future.
abbrev new_task : World ℕ ℕ
new_task = record {
  states = record (new_state 0) { success_handlers = call_void 7 ∷ [] } ∷ [];
  log = [];
}

get-call_example :
    Holds
      (λ w'. get 0 w' ≡ answer_of (continued failing 2 (result 3)) w')
      Unit
      (call failing 5 (record { func = 2; arguments = 3; promise = 0 }) new_task)
get-call_example =
    get-call failing 4 (record { func = 2; arguments = 3; promise = 0 })
      (record (new_state 0) { success_handlers = call_void 7 ∷ [] }) new_task refl refl refl refl

-- A task that throws 5 if its token says that it is to stop.
abbrev stopping : ℕ → ℕ → Bool → Reply (Unit {0}) ℕ
stopping func arguments stop_requested = if stop_requested then throws 5 else returns tt

abbrev no_callbacks : VoidCallbacks ℕ
no_callbacks = record {
  on_void = λ f. returns tt;
  on_future = λ f. returns 0;
  on_error = λ f e. returns tt;
  is_a = λ ty e. true;
}

abbrev get_stopped : Bool → Run (Unit {0}) ℕ (Unit {0})
get_stopped stop_requested =
    (new_packaged_task_st 2 3 >>= λ task.
    call_st stopping no_callbacks 1 task stop_requested >> get (get_future task))
      (record { states = []; log = [] })

get_stopped_both :
    (get_stopped false
      ≡ done tt (record {
        states = record (new_state tt) { is_ready = true } ∷ [];
        log = called 2 tt ∷ [];
      }))
    × (get_stopped true
        ≡ threw (thrown 5) (record {
          states = record (new_state tt) { is_ready = true; m_exception = some (thrown 5) } ∷ [];
          log = called 2 tt ∷ [];
        }))
unfolding new_packaged_task_st make_promise call_st set_ready set_exception settle settle_locked
    on_ready run_handlers run_exceptions get
get_stopped_both = (refl, refl)

-- The same task, of a promise that was made, when its token says that it is to stop.
get-call_st_example :
    Holds
      (λ w'. get 0 w' ≡ threw (thrown 5) w')
      Unit
      (call_st stopping no_callbacks 1
        (record { func = 2; arguments = 3; promise = 0 })
        true
        (record { states = new_state tt ∷ []; log = [] }))
get-call_st_example =
    get-call_st stopping no_callbacks 0 (record { func = 2; arguments = 3; promise = 0 }) true
      (new_state tt) (record { states = new_state tt ∷ []; log = [] }) refl refl refl refl
