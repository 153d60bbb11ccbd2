-- ===== src/Pool/Wait.antt =====
-- wait and wait_for of thread_pool.hpp: one caller beside the workers. The caller holds m_mutex while it
-- tests is_idle and until it sleeps; a worker changes m_busy_count without the mutex.
mod Beside
mod Misses
mod Rounds
mod Examples
use cplease.Base.{
  ℕ, zero, suc, ◌≡◌, Bool, true, false, not, ◌&&◌, if◌then◌else◌, ◌==◌, get_elem?, Option, none,
  some, ◌>>=◌,
}
use cplease.Pool.{
  Worker, looping, waiting, parked, holding, running, finished, exited, Pool, is_idle, notify_one,
  wake_spuriously, quit, thread_work,
}

pub data Caller : Type 0 where
  -- before it has the mutex
  calling : Caller
  -- at `while(!is_idle())`
  outer : Caller
  -- at the predicate of the condition variable
  inner : Caller
  -- the predicate was false; the wait has not begun
  falls_asleep : Caller
  asleep : Caller
  -- notified, before it has the mutex again
  woken : Caller
  returned : Caller

pub holds_mutex : Caller → Bool
holds_mutex calling = false
holds_mutex outer = true
holds_mutex inner = true
holds_mutex falls_asleep = true
holds_mutex asleep = false
holds_mutex woken = false
holds_mutex returned = false

pub has_returned : Caller → Bool
has_returned calling = false
has_returned outer = false
has_returned inner = false
has_returned falls_asleep = false
has_returned asleep = false
has_returned woken = false
has_returned returned = true

-- m_pool_wait_condition.notify_all()
pub notify_all : Caller → Caller
notify_all calling = calling
notify_all outer = outer
notify_all inner = inner
notify_all falls_asleep = falls_asleep
notify_all asleep = woken
notify_all woken = woken
notify_all returned = returned

-- A spurious wake-up of m_pool_wait_condition.
pub wake_caller : Caller → Option Caller
wake_caller calling = none
wake_caller outer = none
wake_caller inner = none
wake_caller falls_asleep = none
wake_caller asleep = some woken
wake_caller woken = none
wake_caller returned = none

pub record Waiting {ℓ} (T : Type ℓ) : Type ℓ where
  pub pool : Pool T
  pub caller : Caller

module _ {ℓ} {T : Type ℓ} where
  -- A step of the caller: of wait_for if it is timed, where the time may run out in any step, and of wait
  -- otherwise. A wait_for whose time ran out goes back to the head of its loop. A caller that is asleep
  -- may also wake spuriously, by wake_caller.
  pub caller_step : Bool → Pool T → Caller → Option Caller
  caller_step timed pool calling = some outer
  caller_step timed pool outer = some (if is_idle pool then returned else inner)
  caller_step timed pool inner = some (if is_idle pool then outer else falls_asleep)
  caller_step timed pool falls_asleep = some asleep
  caller_step timed pool asleep = if timed then some calling else none
  caller_step timed pool woken = some inner
  caller_step timed pool returned = none

  -- Only the wait for a task and what follows it take the mutex.
  pub takes_mutex : Worker T → Bool
  takes_mutex looping = false
  takes_mutex waiting = true
  takes_mutex parked = false
  takes_mutex (holding task) = false
  takes_mutex (running task) = false
  takes_mutex finished = false
  takes_mutex exited = false

  -- `if(m_busy_count == 0)` after the decrement, in one step with it.
  pub notify_idle : Worker T → Pool T → Caller → Caller
  notify_idle looping pool caller = caller
  notify_idle waiting pool caller = caller
  notify_idle parked pool caller = caller
  notify_idle (holding task) pool caller = caller
  notify_idle (running task) pool caller = caller
  notify_idle finished pool caller = if pool.busy_count == 0 then notify_all caller else caller
  notify_idle exited pool caller = caller

  -- A step of a worker beside the caller.
  pub worker_step : Waiting T → ℕ → Option (Waiting T)
  worker_step state i = do
    worker ← get_elem? state.pool.threads i
    if takes_mutex worker && holds_mutex state.caller then none else (do
      pool ← thread_work state.pool i
      some (record { pool = pool; caller = notify_idle worker pool state.caller }))

  -- The caller alone, on a pool that stays as it is.
  pub caller_steps : Bool → ℕ → Pool T → Caller → Caller
  caller_steps timed zero pool caller = caller
  caller_steps timed (suc n) pool caller = elim (caller_step timed pool caller) [
    | none ↦ caller
    | some next ↦ caller_steps timed n pool next
  ]

-- What may happen during a wait while no task is added: a step of the caller or of a worker, a
-- notification or a spurious wake-up of a worker, a quit, and, if it is spurious, a wake-up of the caller.
pub data WaitStep {ℓ} {T : Type ℓ} (spurious : Bool) (state : Waiting T) : Waiting T → Type ℓ where
  calls :
      (next : Caller)
      → caller_step false state.pool state.caller ≡ some next
      → WaitStep spurious state (record state { caller = next })
  wakes_caller :
      (next : Caller)
      → spurious ≡ true
      → wake_caller state.caller ≡ some next
      → WaitStep spurious state (record state { caller = next })
  notifies_beside :
      (pool : Pool T) (i : ℕ)
      → notify_one state.pool i ≡ some pool
      → WaitStep spurious state (record state { pool = pool })
  wakes_beside :
      (pool : Pool T) (i : ℕ)
      → wake_spuriously state.pool i ≡ some pool
      → WaitStep spurious state (record state { pool = pool })
  works_beside :
      (state' : Waiting T) (i : ℕ)
      → worker_step state i ≡ some state'
      → WaitStep spurious state state'
  quits_beside :
      holds_mutex state.caller ≡ false
      → WaitStep spurious state (record state { pool = quit state.pool })

pub data WaitSteps {ℓ} {T : Type ℓ} (spurious : Bool) : Waiting T → Waiting T → Type ℓ where
  none_more : (state : Waiting T) → WaitSteps spurious state state
  one_more :
      (state state' state'' : Waiting T)
      → WaitStep spurious state state'
      → WaitSteps spurious state' state''
      → WaitSteps spurious state state''
