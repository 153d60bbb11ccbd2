-- ===== src/Pool/Functions/Steps.antt =====
-- What a step of a thread of thread_pool.hpp consists of: the call of the task, if the thread runs one,
-- and the thread's own step.
use cplease.Base.{get_elem?, ℕ, ◌≡◌, refl, subst, Option, none, some}
use cplease.Future.Monad.{World, Run, done, threw, stuck, fault, out_of_fuel}
use cplease.Future.{Callbacks}
use cplease.Future.Preserves.{Holds}
use cplease.Task.{PackagedTask, call}
use cplease.Pool.{
  Worker, looping, waiting, parked, holding, running, finished, exited, Pool, thread_work,
}
use cplease.Pool.Functions.{
  Program, Stepped, moved, blocked, terminated, hangs, step_thread, call_of, call_of_thread,
}

module _ {ℓ κ} {V : Type ℓ} {X : Type κ} (callbacks : Callbacks V X) (fuel : ℕ)
    (program : Program V X) (i : ℕ) where
  abbrev Parts : Stepped V X → Type (ℓ ⊔ κ)
  Parts (moved after) =
      (call_of_thread callbacks fuel program i ≡ done tt after.world)
      × (thread_work program.pool i ≡ some after.pool)
  Parts blocked = Unit
  Parts terminated = Unit
  Parts hangs = Unit

  parts : Parts (step_thread callbacks fuel program i)
  unfolding step_thread
  parts = at_call (call_of_thread callbacks fuel program i) refl
    where
      at_moved :
          (w : World V X) (o : Option (Pool (PackagedTask V)))
          → call_of_thread callbacks fuel program i ≡ done tt w
          → thread_work program.pool i ≡ o
          → Parts (elim o as (λ _. Stepped V X) [
            | none ↦ blocked
            | some pool ↦ moved (record { pool = pool; world = w })
          ])
      at_moved w none returned e = tt
      at_moved w (some pool) returned e = (returned, e)

      at_call :
          (r : Run V X (Unit {0}))
          → call_of_thread callbacks fuel program i ≡ r
          → Parts (elim r as (λ _. Stepped V X) [
            | done _ world ↦ elim (thread_work program.pool i) as (λ _. Stepped V X) [
              | none ↦ blocked
              | some pool ↦ moved (record { pool = pool; world = world })
            ]
            | threw e world ↦ terminated
            | stuck ↦ hangs
            | fault ↦ hangs
            | out_of_fuel ↦ hangs
          ])
      at_call (done tt w) e = at_moved w (thread_work program.pool i) e refl
      at_call (threw x w) e = tt
      at_call stuck e = tt
      at_call fault e = tt
      at_call out_of_fuel e = tt

  pub step_thread-moved :
      (after : Program V X)
      → step_thread callbacks fuel program i ≡ moved after
      → (call_of_thread callbacks fuel program i ≡ done tt after.world)
        × (thread_work program.pool i ≡ some after.pool)
  step_thread-moved after e = subst Parts e parts

  -- What each call of a task keeps.
  pub call_of_thread-Holds {μ} :
      (P : World V X → Type μ)
      → ((task : PackagedTask V)
          → get_elem? program.pool.threads i ≡ some (running task)
          → Holds P Unit (call callbacks fuel task program.world))
      → P program.world
      → Holds P Unit (call_of_thread callbacks fuel program i)
  unfolding call_of_thread call_of
  call_of_thread-Holds P calls h = at_thread (get_elem? program.pool.threads i) refl
    where
      at_worker :
          (w : Worker (PackagedTask V))
          → get_elem? program.pool.threads i ≡ some w
          → Holds P Unit (call_of callbacks fuel w program.world)
      at_worker looping e = h
      at_worker waiting e = h
      at_worker parked e = h
      at_worker (holding task) e = h
      at_worker (running task) e = calls task e
      at_worker finished e = h
      at_worker exited e = h

      at_thread :
          (found : Option (Worker (PackagedTask V)))
          → get_elem? program.pool.threads i ≡ found
          → Holds P Unit (elim found as (λ _. Run V X (Unit {0})) [
            | none ↦ done tt program.world
            | some worker ↦ call_of callbacks fuel worker program.world
          ])
      at_thread none e = h
      at_thread (some w) e = at_worker w e
