-- ===== src/Pool/Examples.antt =====
-- thread_pool.hpp at a pool of one thread.
use cplease.Base.{zero, suc, ◌≤◌, ℕ, ◌≡◌, refl, true, false, [], ◌∷◌, none, some, arith}
use cplease.Pool.{
  running, finished, is_empty, pop_task, looping, waiting, parked, holding, exited, Pool, new_pool,
  run, work, put_thread, thread_work, is_idle, notify_one, runs, notifies, works, Reachable,
  started, steps,
}
use mathlib.Core.List.{Perm}
use cplease.Pool.Progress.{remaining, Works, rest, more, tell, Quiet, Quiet-is_idle}
use cplease.Pool.Heard.{Heard, Reachable-Heard}
use cplease.Pool.Steps.{WellFormed, Reachable-WellFormed}
use cplease.Pool.Gaps.{Stranded, Step-Stranded}

-- The pool has taken the task 5, is still to notify, and its thread is at the wait.
abbrev waiting_pool : Pool ℕ
waiting_pool = record {
  tasks = 5 ∷ [];
  busy_count = 0;
  stop = false;
  threads = waiting ∷ [];
  notifications = 1;
  queued = 5 ∷ [];
  popped = [];
  completed = [];
}

abbrev took_one : Pool ℕ
took_one = record waiting_pool { threads = looping ∷ [] }

waiting_pool-Reachable : Reachable 1 waiting_pool
unfolding new_pool run thread_work work put_thread
waiting_pool-Reachable =
    steps took_one waiting_pool
      (steps (new_pool 1) took_one started (runs (new_pool 1) took_one 5 refl))
      (works took_one waiting_pool 0 refl)

Reachable-WellFormed_example : WellFormed 1 waiting_pool
Reachable-WellFormed_example =
    Reachable-WellFormed 1 waiting_pool (omega arith) waiting_pool-Reachable

-- It was stopped before the thread came back to its loop.
abbrev stopped_pool : Pool ℕ
stopped_pool = record took_one { stop = true }

Step-Stranded_example : Stranded (5 ∷ []) (record stopped_pool { threads = exited ∷ [] })
unfolding thread_work work put_thread
Step-Stranded_example =
    Step-Stranded stopped_pool (record stopped_pool { threads = exited ∷ [] }) refl tt
      (works stopped_pool (record stopped_pool { threads = exited ∷ [] }) 0 refl)

-- The pool when the one task has been called.
abbrev done_pool : Pool ℕ
done_pool = record {
  tasks = [];
  busy_count = 0;
  stop = false;
  threads = parked ∷ [];
  notifications = 0;
  queued = 5 ∷ [];
  popped = 5 ∷ [];
  completed = 5 ∷ [];
}

abbrev holding_pool : Pool ℕ
holding_pool = record waiting_pool { tasks = []; threads = holding 5 ∷ []; popped = 5 ∷ [] }

abbrev running_pool : Pool ℕ
running_pool = record holding_pool { threads = running 5 ∷ []; busy_count = 1 }

abbrev finished_pool : Pool ℕ
finished_pool = record running_pool { threads = finished ∷ []; completed = 5 ∷ [] }

abbrev looping_pool : Pool ℕ
looping_pool = record finished_pool { threads = looping ∷ []; busy_count = 0 }

abbrev back_pool : Pool ℕ
back_pool = record looping_pool { threads = waiting ∷ [] }

abbrev parked_pool : Pool ℕ
parked_pool = record looping_pool { threads = parked ∷ [] }

-- The thread takes and calls the task before it is notified, sleeps, is notified, and sleeps again.
abbrev woken_pool : Pool ℕ
woken_pool = record done_pool { threads = waiting ∷ [] }

eight_steps : Works waiting_pool 8 done_pool
unfolding thread_work work put_thread pop_task is_empty notify_one
eight_steps = more waiting_pool holding_pool done_pool 0 7 refl (
    more holding_pool running_pool done_pool 0 6 refl (
      more running_pool finished_pool done_pool 0 5 refl (
        more finished_pool looping_pool done_pool 0 4 refl (
          more looping_pool back_pool done_pool 0 3 refl (
            more back_pool parked_pool done_pool 0 2 refl (
              tell parked_pool woken_pool done_pool 0 1 refl
                (more woken_pool done_pool done_pool 0 0 refl (rest done_pool))))))))

worked :
    (pool pool' : Pool ℕ) → thread_work pool 0 ≡ some pool' → Reachable 1 pool → Reachable 1 pool'
worked pool pool' e h = steps pool pool' h (works pool pool' 0 e)

done_pool-Reachable : Reachable 1 done_pool
unfolding thread_work work put_thread pop_task is_empty notify_one
done_pool-Reachable = worked woken_pool done_pool refl (
    steps parked_pool woken_pool
      (worked back_pool parked_pool refl (
        worked looping_pool back_pool refl (
          worked finished_pool looping_pool refl (
            worked running_pool finished_pool refl (
              worked holding_pool running_pool refl
                (worked waiting_pool holding_pool refl waiting_pool-Reachable))))))
      (notifies parked_pool woken_pool 0 refl))

still : (i : ℕ) → thread_work done_pool i ≡ none
unfolding thread_work work
still zero = refl
still (suc i) = refl

done_pool-Quiet : Quiet done_pool
done_pool-Quiet = record { at_rest = still; told = refl }

Quiet-is_idle_example :
    (8 ≤ remaining waiting_pool)
    × ((is_idle done_pool ≡ true)
        × ((done_pool.popped ≡ done_pool.queued) × Perm done_pool.completed done_pool.queued))
Quiet-is_idle_example =
    Quiet-is_idle 1 8 waiting_pool done_pool (omega arith) (omega arith) done_pool-Reachable refl
      eight_steps done_pool-Quiet

-- The queue has a task, and the notification of it is still to be made.
Reachable-Heard_example : Heard waiting_pool
Reachable-Heard_example =
    Reachable-Heard 1 waiting_pool (omega arith) (omega arith) waiting_pool-Reachable
