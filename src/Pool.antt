-- ===== src/Pool.antt =====
-- include/plz/thread_pool.hpp: the queue of tasks, the workers that run thread_work, run and quit. A
-- step is what a thread does between two of its accesses to shared state, so that the threads
-- interleave as they may; a mutex is held within one step only. A task is a value of a type T.

mod Steps
mod Gaps
pub mod Moves
pub mod Stirs
mod Tasks
mod Alive
mod Heard
mod Progress
pub mod Functions
pub mod Wait
mod Global
mod Examples
use cplease.Base.{
  ℕ, zero, suc, ◌+◌, ◌-◌, ◌≡◌, refl, Bool, true, false, not, ◌&&◌, ◌||◌, if◌then◌else◌, ◌==◌, List,
  [], ◌∷◌, ◌++◌, replicate, ◌>>=◌, set, get_elem?, Option, none, some,
}
use cplease.Word.{add_size, sub_size}

-- Where a worker stands in thread_work.
pub data Worker {ℓ} (T : Type ℓ) : Type ℓ where
  -- before `while(!m_stop)`
  looping : Worker T
  -- at the predicate of the wait; its test, and what follows it, take m_mutex
  waiting : Worker T
  -- in the wait of m_workers_wait_condition, until it is notified
  parked : Worker T
  -- the task is popped and m_mutex is released
  holding : T → Worker T
  -- after `++m_busy_count`
  running : T → Worker T
  -- the task has returned
  finished : Worker T
  exited : Worker T

pub record Pool {ℓ} (T : Type ℓ) : Type ℓ where
  pub tasks : List T
  pub busy_count : ℕ
  pub stop : Bool
  pub threads : List (Worker T)
  -- The calls of m_workers_wait_condition.notify_one that run and map have still to make.
  pub notifications : ℕ
  -- History: the tasks that run has queued, those that workers have popped, and those whose call has
  -- returned, each in the order in which it happened.
  pub queued : List T
  pub popped : List T
  pub completed : List T

module _ {ℓ} {T : Type ℓ} where
  pub new_pool : ℕ → Pool T
  new_pool num_threads = record {
    tasks = [];
    busy_count = 0;
    stop = false;
    threads = replicate num_threads looping;
    notifications = 0;
    queued = [];
    popped = [];
    completed = [];
  }

  pub is_empty : List T → Bool
  is_empty [] = true
  is_empty (task ∷ tasks) = false

  pub is_idle : Pool T → Bool
  is_idle pool = is_empty pool.tasks && (pool.busy_count == 0)

  -- `m_tasks.push(std::move(task))`
  abbrev pub enqueue : Pool T → T → Pool T
  enqueue pool task = record pool {
    tasks = pool.tasks ++ (task ∷ []);
    queued = pool.queued ++ (task ∷ []);
  }

  -- So many calls of notify_one follow, after m_mutex is released.
  abbrev pub notifying : ℕ → Pool T → Pool T
  notifying n pool = record pool { notifications = pool.notifications + n }

  -- `run(task)`; none is the runtime_error of a stopped pool.
  pub run : Pool T → T → Option (Pool T)
  run pool task = if pool.stop then none else some (notifying 1 (enqueue pool task))

  abbrev pub is_asleep : Worker T → Bool
  is_asleep parked = true
  is_asleep _ = false

  abbrev pub any_asleep : List (Worker T) → Bool
  any_asleep [] = false
  any_asleep (worker ∷ workers) = is_asleep worker || any_asleep workers

  -- One of the calls of notify_one that are to be made. It wakes a worker that is asleep, i by the choice
  -- of the condition variable, or nobody if there is none; the result is none if i is not such a choice.
  pub notify_one : Pool T → ℕ → Option (Pool T)
  notify_one pool i =
      if pool.notifications == 0
      then none
      else (let pool' : Pool T = record pool { notifications = pool.notifications - 1 } in
          if any_asleep pool.threads
          then (do
            worker ← get_elem? pool.threads i
            if is_asleep worker
                then some (record pool' { threads = set pool.threads i waiting })
                else none)
          else some pool')

  -- A condition variable may wake a worker without a notification.
  pub wake_spuriously : Pool T → ℕ → Option (Pool T)
  wake_spuriously pool i = do
    worker ← get_elem? pool.threads i
    if is_asleep worker then some (record pool { threads = set pool.threads i waiting }) else none

  -- m_workers_wait_condition.notify_all()
  abbrev pub notify_all_workers : List (Worker T) → List (Worker T)
  notify_all_workers [] = []
  notify_all_workers (parked ∷ workers) = waiting ∷ notify_all_workers workers
  notify_all_workers (worker ∷ workers) = worker ∷ notify_all_workers workers

  -- quit, up to the joins, which show in the threads. No worker falls asleep between the two parts, since
  -- m_stop is set.
  pub quit : Pool T → Pool T
  quit pool =
      if pool.stop
      then pool
      else record pool { stop = true; threads = notify_all_workers pool.threads }

  -- The queue once a worker may go on: the worker exits or has a task.
  pub pop_task : Pool T → List T → Pool T × Worker T
  pop_task pool [] = (pool, exited)
  pop_task pool (task ∷ tasks) =
      (record pool { tasks = tasks; popped = pool.popped ++ (task ∷ []) }, holding task)

  -- A step of a worker; none is a wait that goes on, or no thread. The wait tests its predicate, and if
  -- that is false gives m_mutex back and sleeps, in one step.
  pub work : Pool T → Worker T → Option (Pool T × Worker T)
  work pool looping = some (pool, (if pool.stop then exited else waiting))
  work pool waiting =
      if pool.stop || not (is_empty pool.tasks)
      then some (pop_task pool pool.tasks)
      else some (pool, parked)
  work pool parked = none
  work pool (holding task) =
      some (record pool { busy_count = add_size pool.busy_count 1 }, running task)
  work pool (running task) =
      some (record pool { completed = pool.completed ++ (task ∷ []) }, finished)
  work pool finished = some (record pool { busy_count = sub_size pool.busy_count 1 }, looping)
  work pool exited = none

  pub put_thread : ℕ → Pool T × Worker T → Pool T
  put_thread i (pool, worker) = record pool { threads = set pool.threads i worker }

  pub thread_work : Pool T → ℕ → Option (Pool T)
  thread_work pool i = do
    worker ← get_elem? pool.threads i
    next ← work pool worker
    some (put_thread i next)

-- What may happen: a call of run, as far as it holds m_mutex, its notification, a call of quit, a step of
-- a thread, or a spurious wake-up.
pub data Step {ℓ} {T : Type ℓ} : Pool T → Pool T → Type ℓ where
  runs : (pool pool' : Pool T) (task : T) → run pool task ≡ some pool' → Step pool pool'
  quits : (pool : Pool T) → Step pool (quit pool)
  notifies : (pool pool' : Pool T) (i : ℕ) → notify_one pool i ≡ some pool' → Step pool pool'
  wakes : (pool pool' : Pool T) (i : ℕ) → wake_spuriously pool i ≡ some pool' → Step pool pool'
  works : (pool pool' : Pool T) (i : ℕ) → thread_work pool i ≡ some pool' → Step pool pool'

pub data Reachable {ℓ} {T : Type ℓ} (num_threads : ℕ) : Pool T → Type ℓ where
  started : Reachable num_threads (new_pool num_threads)
  steps :
      (pool pool' : Pool T)
      → Reachable num_threads pool
      → Step pool pool'
      → Reachable num_threads pool'
