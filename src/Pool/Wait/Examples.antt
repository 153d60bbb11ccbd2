-- ===== src/Pool/Wait/Examples.antt =====
-- wait and wait_for of thread_pool.hpp at a pool of one thread.
use cplease.Base.{ℕ, suc, ◌≡◌, refl, true, false, [], ◌∷◌}
use cplease.Pool.{Pool, looping, finished, is_idle, thread_work, work, put_thread}
use cplease.Pool.Wait.{
  calling, falls_asleep, asleep, has_returned, caller_step, caller_steps, worker_step, takes_mutex,
  notify_idle, notify_all, none_more, one_more, calls,
}
use cplease.Pool.Wait.Rounds.{wait_for-is_idle}
use cplease.Pool.Wait.Misses.{wait-misses}

-- The thread has called the one task.
abbrev ending_pool : Pool ℕ
ending_pool = record {
  tasks = [];
  busy_count = 1;
  stop = false;
  threads = finished ∷ [];
  notifications = 0;
  queued = 5 ∷ [];
  popped = 5 ∷ [];
  completed = 5 ∷ [];
}

abbrev ended_pool : Pool ℕ
ended_pool = record ending_pool { busy_count = 0; threads = looping ∷ [] }

wait_for-is_idle_example :
    has_returned (caller_steps true (suc (suc (suc (suc 3)))) ending_pool calling)
    ≡ is_idle ending_pool
unfolding has_returned
wait_for-is_idle_example = wait_for-is_idle 3 ending_pool calling refl

wait-misses_example : (is_idle ended_pool ≡ true) × (has_returned asleep ≡ false)
unfolding worker_step takes_mutex notify_idle notify_all thread_work work put_thread caller_step
wait-misses_example =
    wait-misses (record { pool = ending_pool; caller = falls_asleep })
      (record { pool = ended_pool; caller = falls_asleep })
      (record { pool = ended_pool; caller = asleep }) 0 refl refl refl refl (tt, tt) refl
      (one_more (record { pool = ended_pool; caller = falls_asleep })
        (record { pool = ended_pool; caller = asleep })
        (record { pool = ended_pool; caller = asleep }) (calls asleep refl)
        (none_more (record { pool = ended_pool; caller = asleep })))
