-- ===== src/Pool/Functions/Reports/Examples.antt =====
-- map of thread_pool.hpp on two values, at a pool of one thread, until the thread rests.
use cplease.Base.{
  take, drop, ℕ, zero, suc, ◌+◌, ◌≡◌, refl, true, false, if◌then◌else◌, ◌==◌, List, [], ◌∷◌, none,
  some, arith,
}
use cplease.Future.{
  Callbacks, exception, returns, throws, make_promise, set_result, set_exception, settle,
  settle_locked, on_ready, run_handlers, run_exceptions, invoke_success, invoke_handler, then_void,
  on_exception,
}
use cplease.Future.Monad.{State, World, called, handled, thrown, new_state, call_void, handle_any}
use cplease.Futures.{Futures, new_futures, deliver}
use cplease.Futures.Outcomes.{expected}
use cplease.Futures.Order.{IsWaiting, Told, after_return}
use cplease.Task.{PackagedTask, new_packaged_task, call}
use cplease.Pool.{
  Worker, looping, waiting, parked, holding, running, finished, new_pool, notify_one, thread_work,
  work, put_thread, pop_task, is_empty,
}
use cplease.Pool.Progress.{Quiet}
use cplease.Pool.Functions.{
  Values, Program, notifies_thread, moved, map_function, map_tasks, make_futures, observe,
  pool_task, step_thread, call_of_thread, call_of, steps_thread,
}
use cplease.Pool.Functions.Observed.{keyed}
use cplease.Pool.Functions.Reports.{reports, results_of, AllApart}
use cplease.Pool.Functions.Reports.Programs.{stays, goes_on, new_program}
use cplease.Pool.Functions.Reports.Aggregate.{LeavesThem, map-aggregate, map-not_yet}

-- The function adds its number, 2, and throws at 8; the lambdas are the functions from 100 on.
abbrev adding : Callbacks ℕ ℕ
adding = record {
  on_void = λ f v. returns tt;
  on_value = λ f v. if v == 8 then throws v else returns (f + v);
  on_future = λ f v. throws 0;
  on_error = λ f e. returns tt;
  is_a = λ ty e. true;
}

-- A move leaves the function 3 of the function 2.
abbrev numbers : Values ℕ
numbers = record { default_value = 0; moved_value = λ v. v; moved_functor = λ f. suc f }

abbrev two_values : List ℕ
two_values = 7 ∷ 8 ∷ []

abbrev before : Program ℕ ℕ
before = new_program 1

abbrev task_0 : PackagedTask ℕ
task_0 = record { func = 2; arguments = 7; promise = 0 }

abbrev task_1 : PackagedTask ℕ
task_1 = record { func = 3; arguments = 8; promise = 1 }

-- The state of a future that waits.
abbrev waits : ℕ → State ℕ ℕ
waits p = record (new_state 0) {
  success_handlers = call_void (100 + p) ∷ [];
  exceptions_handlers = handle_any (100 + p) ∷ [];
  pool = some 9;
}

abbrev world_0 : World ℕ ℕ
world_0 = record { states = waits 0 ∷ waits 1 ∷ []; log = [] }

-- The first task has returned, and both.
abbrev world_1 : World ℕ ℕ
world_1 = record {
  states = record (waits 0) { m_result = 9; is_ready = true } ∷ waits 1 ∷ [];
  log = called 2 7 ∷ called 100 9 ∷ [];
}

abbrev world_2 : World ℕ ℕ
world_2 = record {
  states =
      record (waits 0) { m_result = 9; is_ready = true }
      ∷ record (waits 1) { m_exception = some (thrown 8); is_ready = true }
      ∷ [];
  log = called 2 7 ∷ called 100 9 ∷ called 3 8 ∷ handled 101 (thrown 8) ∷ [];
}

-- The program where the first num_popped tasks are popped and the first num_completed have returned.
abbrev program : World ℕ ℕ → ℕ → Worker (PackagedTask ℕ) → ℕ → ℕ → Program ℕ ℕ
program world busy_count worker num_popped num_completed = record {
  pool = record {
    tasks = drop num_popped (task_0 ∷ task_1 ∷ []);
    busy_count = busy_count;
    stop = false;
    threads = worker ∷ [];
    notifications = 2;
    queued = task_0 ∷ task_1 ∷ [];
    popped = take num_popped (task_0 ∷ task_1 ∷ []);
    completed = take num_completed (task_0 ∷ task_1 ∷ []);
  };
  world = world;
}

abbrev made : Program ℕ ℕ
made = program world_0 0 looping 0 0

abbrev one_done : Program ℕ ℕ
one_done = program world_1 0 looping 1 1

-- Both have returned, and so many notifications are to be made.
abbrev told : ℕ → Worker (PackagedTask ℕ) → Program ℕ ℕ
told k worker =
    let last : Program ℕ ℕ = program world_2 0 worker 2 2 in
    record last { pool = record last.pool { notifications = k } }

abbrev both_done : Program ℕ ℕ
both_done = told 0 parked

abbrev of_two : Futures ℕ ℕ ℕ
of_two = new_futures (keyed numbers 0 two_values)

map_function-before : map_function 100 numbers 9 2 two_values before ≡ (made, some of_two)
unfolding map_function map_tasks make_futures observe pool_task new_packaged_task make_promise
    new_pool then_void on_exception
map_function-before = refl

abbrev Leaves : Program ℕ ℕ → Type 0
Leaves = LeavesThem adding numbers 9 1 100 two_values before made

next : (p q : Program ℕ ℕ) → step_thread adding 1 p 0 ≡ moved q → Leaves p → Leaves q
next p q e leads = goes_on p q leads (steps_thread 0 e) tt

notified :
    (k : ℕ) (w w' : Worker (PackagedTask ℕ))
    → notify_one (told (suc k) w).pool 0 ≡ some (told k w').pool
    → Leaves (told (suc k) w)
    → Leaves (told k w')
notified k w w' e leads =
    goes_on (told (suc k) w) (told k w') leads (notifies_thread 0 (told k w').pool e refl) tt

-- The thread comes to its wait, takes a task, calls it and comes back to its loop.
leads_one : Leaves one_done
unfolding step_thread call_of_thread call_of thread_work work put_thread pop_task is_empty call
    set_result set_exception settle settle_locked on_ready run_handlers invoke_success
leads_one = next (program world_1 1 finished 1 1) one_done refl (
    next (program world_0 1 (running task_0) 1 0) (program world_1 1 finished 1 1) refl (
      next (program world_0 0 (holding task_0) 1 0) (program world_0 1 (running task_0) 1 0) refl (
        next (program world_0 0 waiting 0 0) (program world_0 0 (holding task_0) 1 0) refl
          (next made (program world_0 0 waiting 0 0) refl stays))))

-- The same for the second task, and the thread sleeps.
leads_parked : Leaves (told 2 parked)
unfolding step_thread call_of_thread call_of thread_work work put_thread pop_task is_empty call
    set_result set_exception settle settle_locked on_ready run_exceptions invoke_handler
leads_parked = next (program world_2 0 waiting 2 2) (told 2 parked) refl (
    next (program world_2 0 looping 2 2) (program world_2 0 waiting 2 2) refl (
      next (program world_2 1 finished 2 2) (program world_2 0 looping 2 2) refl (
        next (program world_1 1 (running task_1) 2 1) (program world_2 1 finished 2 2) refl (
          next (program world_1 0 (holding task_1) 2 1) (program world_1 1 (running task_1) 2 1)
            refl
            (next (program world_1 0 waiting 1 1) (program world_1 0 (holding task_1) 2 1) refl
              (next one_done (program world_1 0 waiting 1 1) refl leads_one))))))

-- The first notification wakes it, the second finds no thread asleep, and it sleeps again.
leads_both : Leaves both_done
unfolding step_thread call_of_thread call_of thread_work work put_thread is_empty notify_one
leads_both =
    next (told 0 waiting) both_done refl
      (notified 0 waiting waiting refl (notified 1 parked waiting refl leads_parked))

still : (i : ℕ) → thread_work both_done.pool i ≡ none
unfolding thread_work work
still zero = refl
still (suc i) = refl

both_done-Quiet : Quiet both_done.pool
both_done-Quiet = record { at_rest = still; told = refl }

-- The first value has a result, 9, and the second an exception.
what_is_expected : expected (results_of numbers adding 2 two_values) ≡ exception (thrown 8)
what_is_expected = refl

-- The aggregate promise, with a continuation on its future, the function 5.
abbrev summing : Callbacks (List ℕ) ℕ
summing = record {
  on_void = λ f vs. returns tt;
  on_value = λ f vs. returns vs;
  on_future = λ f vs. throws 0;
  on_error = λ f e. returns tt;
  is_a = λ ty e. true;
}

abbrev aggregate_state : State (List ℕ) ℕ
aggregate_state = record (new_state []) { success_handlers = call_void 5 ∷ [] }

abbrev aggregate_world : World (List ℕ) ℕ
aggregate_world = record { states = aggregate_state ∷ []; log = [] }

aggregate_world-IsWaiting : IsWaiting 0 1 aggregate_world
aggregate_world-IsWaiting = record {
  state = aggregate_state;
  found = refl;
  free = refl;
  waits = refl;
  fresh = refl;
  enough = omega arith;
}

functors_apart : AllApart 100 0 2 numbers 2 two_values
functors_apart = (λ h. absurd (omega arith), (λ h. absurd (omega arith), tt))

map-aggregate_example :
    Told 0 true
      (expected (results_of numbers adding 2 two_values))
      aggregate_world
      (deliver summing 50 2 0 (reports 100 0 2 both_done.world.log) of_two aggregate_world)
map-aggregate_example =
    map-aggregate adding numbers 9 1 1 100 2 two_values summing 50 1 0 before made both_done of_two
      aggregate_world (omega arith) (omega arith) (omega arith) functors_apart stays
      map_function-before leads_both refl both_done-Quiet aggregate_world-IsWaiting

-- Once the first task has returned.
map-not_yet_example :
    after_return
      (deliver summing 50 2 0 (reports 100 0 2 one_done.world.log) of_two aggregate_world)
    ≡ some aggregate_world
map-not_yet_example =
    map-not_yet adding numbers 9 1 1 100 2 two_values summing 50 1 0 before made one_done of_two
      aggregate_world 1 (waits 1) (omega arith) functors_apart stays map_function-before leads_one
      (omega arith) refl refl aggregate_world-IsWaiting
