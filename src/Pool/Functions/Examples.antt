-- ===== src/Pool/Functions/Examples.antt =====
-- run of a function of thread_pool.hpp at a pool of one thread.
use cplease.Base.{ℕ, zero, suc, ◌+◌, ◌≡◌, refl, true, false, [], none, arith}
use mathlib.Core.List.{Mem, mem-cons}
use mathlib.Core.Logic.Or
use cplease.Future.{
  Callbacks, returns, throws, make_promise, set_result, settle, settle_locked, on_ready,
  run_handlers,
}
use cplease.Future.Ready.{IsReady, WasCalled}
use cplease.Future.Monad.{called}
use cplease.Task.{PackagedTask, new_packaged_task, call}
use cplease.Pool.{new_pool, run, thread_work, work, put_thread, pop_task, is_empty, notify_one}
use cplease.Pool.Progress.{Quiet}
use cplease.Pool.Functions.{
  Values, Program, Stepped, moved, blocked, terminated, hangs, run_function, pool_task, step_thread,
  call_of_thread, call_of, Comes, begins, continues, calls_run, notifies_thread, steps_thread,
}
use cplease.Pool.Functions.Ready.{queued-IsReady}

abbrev adding : Callbacks ℕ ℕ
adding = record {
  on_void = λ f v. returns tt;
  on_value = λ f v. returns (f + v);
  on_future = λ f v. throws 0;
  on_error = λ f e. returns tt;
  is_a = λ ty e. true;
}

abbrev at_start : Program ℕ ℕ
at_start = record { pool = new_pool 1; world = record { states = []; log = [] } }

-- run(2, 3): its future has the state 0.
abbrev one_task : PackagedTask ℕ
one_task = record { func = 2; arguments = 3; promise = 0 }

abbrev program_of : Stepped ℕ ℕ → Program ℕ ℕ
program_of (moved program) = program
program_of blocked = at_start
program_of terminated = at_start
program_of hangs = at_start

-- A move leaves values and functors as they are.
abbrev numbers : Values ℕ
numbers = record { default_value = 0; moved_value = λ v. v; moved_functor = λ f. f }

abbrev queued_program : Program ℕ ℕ
queued_program = (run_function numbers 9 2 3 at_start).0

-- After the notification, which finds no thread asleep.
abbrev told : Program ℕ ℕ → Program ℕ ℕ
told program = record program { pool = record program.pool { notifications = 0 } }

abbrev program_at : ℕ → Program ℕ ℕ
program_at zero = told queued_program
program_at (suc n) = program_of (step_thread adding 1 (program_at n) 0)

-- The thread comes to its wait, takes the task, calls it, comes back to its wait and sleeps.
program_at-Quiet :
    Comes adding numbers 9 1 1 (program_at 7)
    × (Quiet (program_at 7).pool
        × (((program_at 7).pool.stop ≡ false) × Mem one_task (program_at 7).pool.queued))
unfolding run_function pool_task new_packaged_task make_promise run new_pool step_thread
    call_of_thread call_of thread_work work put_thread pop_task is_empty notify_one call set_result
    settle settle_locked on_ready run_handlers
program_at-Quiet = (come, (quiet, (refl, mem-cons.1 (Or.inl refl))))
  where
    next :
        (n : ℕ)
        → step_thread adding 1 (program_at n) 0 ≡ moved (program_at (suc n))
        → Comes adding numbers 9 1 1 (program_at n)
        → Comes adding numbers 9 1 1 (program_at (suc n))
    next n e come = continues (program_at n) (program_at (suc n)) come (steps_thread 0 e)

    come : Comes adding numbers 9 1 1 (program_at 7)
    come = next 6 refl (
        next 5 refl (
          next 4 refl (
            next 3 refl (
              next 2 refl (
                next 1 refl (
                  next 0 refl (
                    continues queued_program (program_at 0)
                      (continues at_start queued_program (begins (record { states = []; log = [] }))
                        (calls_run 2 3 0 refl))
                      (notifies_thread 0 (program_at 0).pool refl refl))))))))

    still : (i : ℕ) → thread_work (program_at 7).pool i ≡ none
    still zero = refl
    still (suc i) = refl

    quiet : Quiet (program_at 7).pool
    quiet = record { at_rest = still; told = refl }

queued-IsReady_example :
    IsReady 0 (program_at 7).world × WasCalled (called 2 3) (program_at 7).world
queued-IsReady_example =
    queued-IsReady adding numbers 9 1 1 (program_at 7) one_task (omega arith) (omega arith)
      program_at-Quiet.0 program_at-Quiet.1.1.0 program_at-Quiet.1.0 program_at-Quiet.1.1.1
