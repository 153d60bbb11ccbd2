-- ===== src/Pool/Functions/Maps.antt =====
-- What map of thread_pool.hpp queues and returns.
use cplease.Base.{
  ℕ, zero, suc, ◌≡◌, refl, sym, ap, ◌∙◌, false, if◌then◌else◌, List, [], ◌∷◌, ◌++◌, length, none,
  some, append_assoc, append-nil, length-append, arith,
}
use cplease.Future.Monad.{new_state}
use cplease.Futures.{new_futures}
use cplease.Task.{PackagedTask}
use cplease.Pool.{Pool, enqueue, notifying}
use cplease.Pool.Functions.{Values, Program, map_tasks, make_futures, notify_mapped, map_function}
use cplease.Pool.Functions.Sound.{with_new, task_of, pool_task-done}
use cplease.Pool.Functions.Observed.{
  keyed, fresh_state, fresh_states, observed_states, observe-fresh_states,
}

module _ {ℓ} {V : Type ℓ} (d : Values V) where
  -- The functor of the task for the value at an index.
  abbrev pub functor_at : ℕ → ℕ → ℕ
  functor_at func zero = func
  functor_at func (suc i) = functor_at (d.moved_functor func) i

  -- A task for each value, with the promises from n on. All but the first have moved functors.
  abbrev pub mapped : ℕ → ℕ → List V → List (PackagedTask V)
  mapped func n [] = []
  mapped func n (v ∷ range) =
      record { func = func; arguments = v; promise = n }
      ∷ mapped (d.moved_functor func) (suc n) range

module _ {ℓ κ} {V : Type ℓ} {X : Type κ} (d : Values V) (self : ℕ) where
  -- The program once a value was mapped.
  abbrev next_program : ℕ → V → Program V X → Program V X
  next_program func v program = record {
    pool = enqueue program.pool (task_of func v program.world);
    world = with_new d self program.world;
  }

  one_more :
      (func : ℕ) (v : V) (program : Program V X)
      → length (next_program func v program).world.states ≡ suc (length program.world.states)
  one_more func v program = omega (
    arith,
    length-append program.world.states
        (record (new_state d.default_value) { pool = some self } ∷ []),
  )

  -- A list that each task was put at the end of.
  abbrev Queues : (Program V X → List (PackagedTask V)) → ℕ → List V → Program V X → Type ℓ
  Queues list func range program =
      list (map_tasks d self func range program).0
      ≡ list program ++ mapped d func (length program.world.states) range

  pub map_tasks-Queues :
      (list : Program V X → List (PackagedTask V))
      → ((func : ℕ) (v : V) (program : Program V X)
          → list (next_program func v program)
            ≡ list program ++ (task_of func v program.world ∷ []))
      → (func : ℕ) (range : List V) (program : Program V X) → Queues list func range program
  unfolding map_tasks
  map_tasks-Queues list ends func [] program = sym (append-nil (list program))
  map_tasks-Queues list ends func (v ∷ range) program =
      rw (map_tasks, pool_task-done d self func v program.world)
        (map_tasks-Queues list ends (d.moved_functor func) range (next_program func v program)
          ∙ (ap (λ n. list (next_program func v program) ++ mapped d (d.moved_functor func) n range)
                (one_more func v program)
              ∙ (ap
                    (λ ts.
                      ts
                      ++ mapped d (d.moved_functor func) (suc (length program.world.states)) range)
                    (ends func v program)
                  ∙ append_assoc (list program) (task_of func v program.world ∷ []) _)))

  -- A part of the pool that no task is put into.
  pub map_tasks-same {ι} :
      {A : Type ι} (part : Pool (PackagedTask V) → A)
      → ((pool : Pool (PackagedTask V)) (task : PackagedTask V)
          → part (enqueue pool task) ≡ part pool)
      → (func : ℕ) (range : List V) (program : Program V X)
      → part (map_tasks d self func range program).0.pool ≡ part program.pool
  unfolding map_tasks
  map_tasks-same part keeps func [] program = refl
  map_tasks-same part keeps func (v ∷ range) program =
      rw (map_tasks, pool_task-done d self func v program.world)
        (map_tasks-same part keeps (d.moved_functor func) range (next_program func v program)
          ∙ keeps program.pool (task_of func v program.world))

  map_tasks-keyed :
      (func : ℕ) (range : List V) (program : Program V X)
      → (map_tasks d self func range program).1 ≡ keyed d (length program.world.states) range
  unfolding map_tasks
  map_tasks-keyed func [] program = refl
  map_tasks-keyed func (v ∷ range) program =
      rw (map_tasks, pool_task-done d self func v program.world)
        (ap (λ fs. (d.moved_value v, length program.world.states) ∷ fs)
          (map_tasks-keyed (d.moved_functor func) range (next_program func v program)
            ∙ ap (λ n. keyed d n range) (one_more func v program)))

  map_tasks-world :
      (func : ℕ) (range : List V) (program : Program V X)
      → (map_tasks d self func range program).0.world
        ≡ record program.world { states = program.world.states ++ fresh_states d self range }
  unfolding map_tasks
  map_tasks-world func [] program =
      ap (λ ss. record program.world { states = ss }) (sym (append-nil program.world.states))
  map_tasks-world func (v ∷ range) program =
      rw (map_tasks, pool_task-done d self func v program.world)
        (map_tasks-world (d.moved_functor func) range (next_program func v program)
          ∙ ap (λ ss. record program.world { states = ss })
              (append_assoc program.world.states (fresh_state d self ∷ []) _))

  -- map on a pool that is not stopped, as a whole.
  pub map_function-going :
      (base func : ℕ) (range : List V) (program : Program V X)
      → program.pool.stop ≡ false
      → map_function base d self func range program ≡ (
        record {
          pool = notifying (length range) (map_tasks d self func range program).0.pool;
          world = record program.world {
            states =
                program.world.states
                ++ observed_states base d self (length program.world.states) range;
          };
        },
        some (new_futures (keyed d (length program.world.states) range)),
      )
  unfolding map_function make_futures
  map_function-going base func range program going =
      ap
        (λ b.
          if b
          then (program, none)
          else notify_mapped (length range)
              (make_futures base (map_tasks d self func range program)))
        going
      ∙ rw
          (
            map_tasks-keyed func range program,
            map_tasks-world func range program,
            make_futures,
            observe-fresh_states d self base range program.world.states program.world.log,
          )
          (ap
            (λ fs. (
              record {
                pool = notifying (length range) (map_tasks d self func range program).0.pool;
                world = record program.world {
                  states =
                      program.world.states
                      ++ observed_states base d self (length program.world.states) range;
                };
              },
              some (new_futures fs),
            ))
            (map_tasks-keyed func range program))
