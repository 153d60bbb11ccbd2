-- ===== src/Pool/Functions.antt =====
-- run and map of functions of thread_pool.hpp: packaged tasks in the queue, with their promises in the
-- states of future.hpp. A call of a task, with the continuations that it runs, is one step.

mod Sound
mod Chains
mod Steps
mod Observed
mod Ready
mod Maps
mod Later
mod Reports
mod Examples
use cplease.Base.{
  ℕ, zero, suc, ◌+◌, ◌≡◌, refl, Bool, true, false, if◌then◌else◌, List, [], ◌∷◌, ◌++◌, length,
  get_elem?, Option, none, some,
}
use cplease.Future.Monad.{
  State, World, M, Run, done, threw, stuck, fault, out_of_fuel, pure, ◌>>=◌, ◌>>◌, update_state,
  SuccessHandler, call_void, ExceptionHandler, handle_any,
}
use cplease.Future.{Callbacks, then_void, then_value, then_future, on_exception}
use cplease.Futures.{Futures, new_futures}
use cplease.Task.{PackagedTask, new_packaged_task, call}
use cplease.Pool.{
  Worker, running, Pool, new_pool, enqueue, notifying, notify_one, wake_spuriously, run, quit,
  thread_work,
}

pub record Program {ℓ κ} (V : Type ℓ) (X : Type κ) : Type (ℓ ⊔ κ) where
  pub pool : Pool (PackagedTask V)
  pub world : World V X

-- What the values and the functors of the program are like: the value that a promise has before it is
-- fulfilled, and what a move leaves of a value and of a functor, with its further arguments.
pub record Values {ℓ} (V : Type ℓ) : Type ℓ where
  pub default_value : V
  pub moved_value : V → V
  pub moved_functor : ℕ → ℕ

module _ {ℓ κ} {V : Type ℓ} {X : Type κ} where
  -- A task, and `task.m_promise.m_shared_state->m_pool = this` of the pool self.
  unfoldable pub pool_task : Values V → ℕ → ℕ → V → M V X (PackagedTask V)
  pool_task d self func arguments = new_packaged_task d.default_value func arguments >>= λ task.
      update_state task.promise (λ s. record s { pool = some self }) >> pure task

  -- The future is none if `run(task)` throws.
  unfoldable pub run_function : Values V → ℕ → ℕ → V → Program V X → Program V X × Option ℕ
  run_function d self func arguments program =
      elim (pool_task d self func arguments program.world) [
        | done task world ↦ elim (run program.pool task) [
          | none ↦ (record program { world = world }, none)
          | some pool ↦ (record { pool = pool; world = world }, some task.promise)
        ]
        | threw e world ↦ (record program { world = world }, none)
        | stuck ↦ (program, none)
        | fault ↦ (program, none)
        | out_of_fuel ↦ (program, none)
      ]

  -- The loop of map: m_tasks.emplace and futuresMap.push_back, for each value of the range. The functor
  -- and the value are forwarded to the task, so that the next task gets what the move has left of the
  -- functor, and the key is what it has left of the value.
  unfoldable pub map_tasks : Values V → ℕ → ℕ → List V → Program V X → Program V X × List (V × ℕ)
  map_tasks d self func [] program = (program, [])
  map_tasks d self func (v ∷ range) program = elim (pool_task d self func v program.world) [
    | done task world ↦
        let (last, futures) =
          map_tasks d self (d.moved_functor func) range
            (record { pool = enqueue program.pool task; world = world }) in
        (last, (d.moved_value v, task.promise) ∷ futures)
    | threw e world ↦ (program, [])
    | stuck ↦ (program, [])
    | fault ↦ (program, [])
    | out_of_fuel ↦ (program, [])
  ]

  -- The constructor of futures::state: a continuation and a handler on each future, the two lambdas
  -- that call handle_future_ready. Those on the future p are functions of the number base + p.
  unfoldable pub observe : ℕ → List (V × ℕ) → M V X (Unit {0})
  observe base [] = pure tt
  observe base ((key, future) ∷ futures) =
      then_void future (call_void (base + future))
      >> on_exception future (handle_any (base + future))
      >> observe base futures

  -- `make_futures` of the futures of the tasks.
  unfoldable pub make_futures :
      ℕ → Program V X × List (V × ℕ) → Program V X × Option (Futures V V X)
  make_futures base (program, futures) = elim (observe base futures program.world) [
    | done _ world ↦ (record program { world = world }, some (new_futures futures))
    | threw e world ↦ (record program { world = world }, none)
    | stuck ↦ (program, none)
    | fault ↦ (program, none)
    | out_of_fuel ↦ (program, none)
  ]

  -- The last loop of map: a call of notify_one for each value of the range, while m_mutex is held, so that
  -- a worker gets to the queue only after map.
  abbrev pub notify_mapped :
      ℕ → Program V X × Option (Futures V V X) → Program V X × Option (Futures V V X)
  notify_mapped size (program, none) = (program, none)
  notify_mapped size (program, some futures) =
      (record program { pool = notifying size program.pool }, some futures)

  -- None is the runtime_error of a stopped pool.
  unfoldable pub map_function :
      ℕ → Values V → ℕ → ℕ → List V → Program V X → Program V X × Option (Futures V V X)
  map_function base d self func range program =
      if program.pool.stop
      then (program, none)
      else notify_mapped (length range) (make_futures base (map_tasks d self func range program))

-- How a step of a worker ends: the thread sleeps, is gone or there is none (blocked), an exception leaves
-- thread_work, which ends the process (terminated), or the call of the task does not return (hangs).
pub data Stepped {ℓ κ} (V : Type ℓ) (X : Type κ) : Type (ℓ ⊔ κ) where
  moved : Program V X → Stepped V X
  blocked : Stepped V X
  terminated : Stepped V X
  hangs : Stepped V X

module _ {ℓ κ} {V : Type ℓ} {X : Type κ} (callbacks : Callbacks V X) where
  -- `std::get<task_type>(task)()`
  unfoldable pub call_of : ℕ → Worker (PackagedTask V) → M V X (Unit {0})
  call_of fuel (running task) w = call callbacks fuel task w
  call_of fuel _ w = done tt w

  unfoldable pub call_of_thread : ℕ → Program V X → ℕ → Run V X (Unit {0})
  call_of_thread fuel program i = elim (get_elem? program.pool.threads i) [
    | none ↦ done tt program.world
    | some worker ↦ call_of fuel worker program.world
  ]

  unfoldable pub step_thread : ℕ → Program V X → ℕ → Stepped V X
  step_thread fuel program i = elim (call_of_thread fuel program i) [
    | done _ world ↦ elim (thread_work program.pool i) [
      | none ↦ blocked
      | some pool ↦ moved (record { pool = pool; world = world })
    ]
    | threw e world ↦ terminated
    | stuck ↦ hangs
    | fault ↦ hangs
    | out_of_fuel ↦ hangs
  ]

  -- What may happen while the program runs: calls of run, map and quit, notifications, calls of then (of a void
  -- function, of a function of a value, and of one that returns a future, on a state whose mutex is
  -- free) and of on_exception, and steps of the workers that return.
  pub data Happens (d : Values V) (self fuel : ℕ) (before after : Program V X) : Type (ℓ ⊔ κ) where
    calls_run :
        (func : ℕ) (arguments : V) (future : ℕ)
        → run_function d self func arguments before ≡ (after, some future)
        → Happens d self fuel before after
    calls_map :
        (base func : ℕ) (range : List V) (futures : Futures V V X)
        → map_function base d self func range before ≡ (after, some futures)
        → Happens d self fuel before after
    -- A notification that run or map has still to make, and a spurious wake-up.
    notifies_thread :
        (i : ℕ) (pool : Pool (PackagedTask V))
        → notify_one before.pool i ≡ some pool
        → after ≡ record before { pool = pool }
        → Happens d self fuel before after
    wakes_thread :
        (i : ℕ) (pool : Pool (PackagedTask V))
        → wake_spuriously before.pool i ≡ some pool
        → after ≡ record before { pool = pool }
        → Happens d self fuel before after
    calls_quit :
        after ≡ record before { pool = quit before.pool } → Happens d self fuel before after
    adds_continuation :
        (future : ℕ) (callback : SuccessHandler) (world : World V X)
        → then_void future callback before.world ≡ done tt world
        → after ≡ record before { world = world }
        → Happens d self fuel before after
    adds_then :
        (future func next : ℕ) (s : State V X) (world : World V X)
        → get_elem? before.world.states future ≡ some s
        → s.locked ≡ false
        → then_value d.default_value future func before.world ≡ done next world
        → after ≡ record before { world = world }
        → Happens d self fuel before after
    adds_then_future :
        (future func next : ℕ) (s : State V X) (world : World V X)
        → get_elem? before.world.states future ≡ some s
        → s.locked ≡ false
        → then_future d.default_value future func before.world ≡ done next world
        → after ≡ record before { world = world }
        → Happens d self fuel before after
    adds_handler :
        (future : ℕ) (handler : ExceptionHandler) (world : World V X)
        → on_exception future handler before.world ≡ done tt world
        → after ≡ record before { world = world }
        → Happens d self fuel before after
    steps_thread :
        (i : ℕ) → step_thread fuel before i ≡ moved after → Happens d self fuel before after

  pub data Comes (d : Values V) (self fuel num_threads : ℕ) : Program V X → Type (ℓ ⊔ κ) where
    begins :
        (world : World V X)
        → Comes d self fuel num_threads (record { pool = new_pool num_threads; world = world })
    continues :
        (before after : Program V X)
        → Comes d self fuel num_threads before
        → Happens d self fuel before after
        → Comes d self fuel num_threads after
