-- ===== src/Pool/Functions/Sound.antt =====
-- What run and map of thread_pool.hpp make of the tasks that have returned.
use cplease.Base.{
  ℕ, zero, suc, ◌+◌, ◌≡◌, refl, sym, subst, Bool, true, false, if◌then◌else◌, List, [], ◌∷◌, ◌++◌,
  length, Option, none, some, arith,
}
use mathlib.Core.Bool.{true≢false}
use cplease.Future.Monad.{
  State, World, Run, done, threw, stuck, fault, out_of_fuel, new_state, call_void, handle_any,
}
use cplease.Future.{make_promise}
use cplease.Future.Ready.{ready_at}
use cplease.Task.Ready.{IsDone, IsDone-IsKept}
use cplease.Future.Preserves.{Holds, Preserves, Laws, >>-Preserves}
use cplease.Future.Stable.{stable-Laws}
use cplease.Future.Then.{get_elem?-append_last, set-append_last}
use cplease.Futures.{Futures, new_futures}
use cplease.Task.{PackagedTask, new_packaged_task}
use cplease.Pool.{enqueue, notifying, run, Reachable, steps, runs}
use cplease.Pool.Functions.{
  Values, Program, pool_task, run_function, map_tasks, observe, make_futures, notify_mapped,
  map_function,
}

module _ {ℓ κ} {V : Type ℓ} {X : Type κ} where
  -- The states with one more, of a task of the pool self.
  abbrev pub with_new : Values V → ℕ → World V X → World V X
  with_new d self w = record w {
    states = w.states ++ (record (new_state d.default_value) { pool = some self } ∷ []);
  }

  abbrev pub task_of : ℕ → V → World V X → PackagedTask V
  task_of func arguments w = record {
    func = func;
    arguments = arguments;
    promise = length w.states;
  }

  pub pool_task-done :
      (d : Values V) (self func : ℕ) (arguments : V) (w : World V X)
      → pool_task d self func arguments w ≡ done (task_of func arguments w) (with_new d self w)
  unfolding pool_task new_packaged_task make_promise
  pool_task-done d self func arguments w =
      rw
        (
          get_elem?-append_last w.states (new_state {X = X} d.default_value),
          set-append_last w.states (new_state {X = X} d.default_value)
              (record (new_state d.default_value) { pool = some self }),
        )
        refl

  pub run_function-run :
      (d : Values V) (self func : ℕ) (arguments : V) (program : Program V X)
      → run_function d self func arguments program ≡ (
          if program.pool.stop
          then (record program { world = with_new d self program.world }, none)
          else (
            record {
              pool = notifying 1 (enqueue program.pool (task_of func arguments program.world));
              world = with_new d self program.world;
            },
            some (length program.world.states),
          ))
  unfolding run run_function
  run_function-run d self func arguments program =
      rw (run_function, pool_task-done d self func arguments program.world)
        (at_stop program.pool.stop)
    where
      at_stop :
          (b : Bool)
          → (elim (if b
                then none
                else some
                    (notifying 1 (enqueue program.pool (task_of func arguments program.world))))
              as (λ _. Program V X × Option ℕ) [
                | none ↦ (record program { world = with_new d self program.world }, none)
                | some pool ↦ (
                  record { pool = pool; world = with_new d self program.world },
                  some (length program.world.states),
                )
              ])
            ≡ (if b then (record program { world = with_new d self program.world }, none) else (
              record {
                pool = notifying 1 (enqueue program.pool (task_of func arguments program.world));
                world = with_new d self program.world;
              },
              some (length program.world.states),
            ))
      at_stop true = refl
      at_stop false = refl

  -- These tasks were called, and their promises are ready.
  abbrev pub AllDone : World V X → List (PackagedTask V) → Type (ℓ ⊔ κ)
  AllDone w [] = Unit
  AllDone w (task ∷ tasks) = IsDone task w × AllDone w tasks

  pub AllDone-append :
      (w : World V X) (tasks : List (PackagedTask V)) (task : PackagedTask V)
      → AllDone w tasks
      → IsDone task w
      → AllDone w (tasks ++ (task ∷ []))
  AllDone-append w [] task hs h = (h, tt)
  AllDone-append w (t ∷ tasks) task hs h = (hs.0, AllDone-append w tasks task hs.1 h)

  pub AllDone-mono :
      (w w' : World V X) (tasks : List (PackagedTask V))
      → ((task : PackagedTask V) → IsDone task w → IsDone task w')
      → AllDone w tasks
      → AllDone w' tasks
  AllDone-mono w w' [] keeps h = tt
  AllDone-mono w w' (task ∷ tasks) keeps h = (keeps task h.0, AllDone-mono w w' tasks keeps h.1)

  pub ready_at-append :
      (xs ys : List (State V X)) (p : ℕ) → ready_at xs p ≡ true → ready_at (xs ++ ys) p ≡ true
  ready_at-append [] ys p h = absurd (true≢false (sym h))
  ready_at-append (x ∷ xs) ys zero h = h
  ready_at-append (x ∷ xs) ys (suc p) h = ready_at-append xs ys p h

  -- The pool is as its own steps make it, and the tasks whose call returned are done.
  pub record IsSound (num_threads : ℕ) (program : Program V X) : Type (ℓ ⊔ κ) where
    pub reached : Reachable num_threads program.pool
    pub fulfilled : AllDone program.world program.pool.completed

  pub world-IsSound :
      (n : ℕ) (program : Program V X) (w : World V X)
      → ((task : PackagedTask V) → IsDone task program.world → IsDone task w)
      → IsSound n program
      → IsSound n (record program { world = w })
  world-IsSound n program w keeps h = record {
    reached = h.reached;
    fulfilled = AllDone-mono program.world w program.pool.completed keeps h.fulfilled;
  }

  enqueue-IsSound :
      (n : ℕ) (d : Values V) (self : ℕ) (program : Program V X) (task : PackagedTask V)
      → program.pool.stop ≡ false
      → IsSound n program
      → IsSound n (record {
        pool = notifying 1 (enqueue program.pool task);
        world = with_new d self program.world;
      })
  unfolding run
  enqueue-IsSound n d self program task going h = record {
    reached =
        steps program.pool (notifying 1 (enqueue program.pool task)) h.reached
          (runs program.pool (notifying 1 (enqueue program.pool task)) task (rw going refl));
    fulfilled =
        AllDone-mono program.world (with_new d self program.world) program.pool.completed
          (λ t done. (ready_at-append program.world.states _ t.promise done.0, done.1)) h.fulfilled;
  }

  abbrev pub AllSound {κ'} : {B : Type κ'} → ℕ → Program V X × Option B → Type (ℓ ⊔ κ)
  AllSound n (program, none) = Unit
  AllSound n (program, some b) = IsSound n program

  pub run_function-IsSound :
      (n : ℕ) (d : Values V) (self func : ℕ) (arguments : V) (program : Program V X)
      → IsSound n program
      → AllSound n (run_function d self func arguments program)
  run_function-IsSound n d self func arguments program h =
      subst (AllSound n) (sym (run_function-run d self func arguments program))
        (at_stop program.pool.stop refl)
    where
      at_stop :
          (b : Bool)
          → program.pool.stop ≡ b
          → AllSound n (
              if b then (record program { world = with_new d self program.world }, none) else (
                record {
                  pool = notifying 1 (enqueue program.pool (task_of func arguments program.world));
                  world = with_new d self program.world;
                },
                some (length program.world.states),
              ))
      at_stop true e = tt
      at_stop false e = enqueue-IsSound n d self program (task_of func arguments program.world) e h

  abbrev told : ℕ → Program V X → Program V X
  told k program = record program { pool = notifying k program.pool }

  -- The tasks of map are those of as many calls of run, whose notifications come later.
  map_tasks-IsSound :
      (n k : ℕ) (d : Values V) (self func : ℕ) (range : List V) (program : Program V X)
      → program.pool.stop ≡ false
      → IsSound n (told k program)
      → IsSound n (told (k + length range) (map_tasks d self func range program).0)
  unfolding map_tasks
  map_tasks-IsSound n k d self func [] program going h =
      subst (λ m. IsSound n (told m program)) (omega arith) h
  map_tasks-IsSound n k d self func (v ∷ range) program going h =
      let next : Program V X = record {
        pool = enqueue program.pool (task_of func v program.world);
        world = with_new d self program.world;
      } in
      let queued : IsSound n (told (k + 1) next) =
        subst (λ m. IsSound n (record next { pool = record next.pool { notifications = m } }))
          (omega arith)
          (enqueue-IsSound n d self (told k program) (task_of func v program.world) going h) in
      let later : IsSound n
          (told (k + 1 + length range) (map_tasks d self (d.moved_functor func) range next).0) =
        map_tasks-IsSound n (k + 1) d self (d.moved_functor func) range next going queued in
      rw (map_tasks, pool_task-done d self func v program.world)
        (subst (λ m. IsSound n (told m (map_tasks d self (d.moved_functor func) range next).0))
          (omega arith) later)

  observe-Preserves :
      (task : PackagedTask V) (base : ℕ) (futures : List (V × ℕ))
      → Preserves (IsDone {X = X} task) Unit (observe base futures)
  unfolding observe
  observe-Preserves task base [] = λ w h. h
  observe-Preserves task base ((key, future) ∷ futures) =
      let laws : Laws (IsDone {X = X} task) Unit =
        stable-Laws (IsDone task) Unit (IsDone-IsKept task).stable in
      >>-Preserves (IsDone task) Unit _ _
        (>>-Preserves (IsDone task) Unit _ _
          (laws.then_void-Preserves future (call_void (base + future)))
          (laws.on_exception-Preserves future (handle_any (base + future))))
        (observe-Preserves task base futures)

  make_futures-IsSound :
      (n base k : ℕ) (program : Program V X) (futures : List (V × ℕ))
      → IsSound n (told k program)
      → AllSound n (notify_mapped k (make_futures base (program, futures)))
  unfolding make_futures
  make_futures-IsSound n base k program futures h = at_run (observe base futures program.world) refl
    where
      at_run :
          (r : Run V X (Unit {0}))
          → observe base futures program.world ≡ r
          → AllSound n (
              notify_mapped k (elim r as (λ _. Program V X × Option (Futures V V X)) [
                | done _ world ↦ (record program { world = world }, some (new_futures futures))
                | threw e world ↦ (record program { world = world }, none)
                | stuck ↦ (program, none)
                | fault ↦ (program, none)
                | out_of_fuel ↦ (program, none)
              ]))
      at_run (done b world) e =
          world-IsSound n (told k program) world
            (λ t r.
              subst (Holds (IsDone t) Unit) e (observe-Preserves t base futures program.world r))
            h
      at_run (threw x world) e = tt
      at_run stuck e = tt
      at_run fault e = tt
      at_run out_of_fuel e = tt

  pub map_function-IsSound :
      (n base : ℕ) (d : Values V) (self func : ℕ) (range : List V) (program : Program V X)
      → IsSound n program
      → AllSound n (map_function base d self func range program)
  unfolding map_function
  map_function-IsSound n base d self func range program h = at_stop program.pool.stop refl
    where
      at_stop :
          (b : Bool)
          → program.pool.stop ≡ b
          → AllSound n (
              if b
              then (program, none)
              else notify_mapped
                  (length range)
                  (make_futures base (map_tasks d self func range program)))
      at_stop true e = tt
      at_stop false e =
          make_futures-IsSound n base (length range) (map_tasks d self func range program).0
            (map_tasks d self func range program).1
            (subst (λ m. IsSound n (told m (map_tasks d self func range program).0)) (omega arith)
              (map_tasks-IsSound n 0 d self func range program e (
                subst
                  (λ m.
                    IsSound n (record program { pool = record program.pool { notifications = m } }))
                  (omega arith) h)))
