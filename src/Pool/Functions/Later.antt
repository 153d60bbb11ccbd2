-- ===== src/Pool/Functions/Later.antt =====
-- What only grows while a program uses thread_pool.hpp: the promises, and the tasks that were queued.
use cplease.Base.{
  ℕ, ◌≤◌, ◌≡◌, refl, sym, ap, subst, Bool, true, false, if◌then◌else◌, List, length, length-append,
  length-set, get_elem?, Option, none, some, inl, inr, Bool-cases, arith,
}
use mathlib.Core.List.{Mem, mem-append_left}
use cplease.Future.Monad.{World, M, done}
use cplease.Future.{Callbacks, then_void, on_exception}
use cplease.Future.Preserves.{Holds, Preserves}
use cplease.Future.Ready.{IsKept}
use cplease.Future.Stable.{stable-Laws}
use cplease.Task.{PackagedTask}
use cplease.Task.Ready.{call-Preserves}
use cplease.Pool.{Pool, enqueue, notifying, quit}
use cplease.Pool.Stirs.{Stirs, notify_one-Stirs, wake_spuriously-Stirs, quit-Stirs}
use cplease.Pool.Moves.{
  Move, loops, leaves, returns, sleeps, pops, starts, completes, ends, thread_work-Move,
}
use cplease.Future.Then.{after_then}
use cplease.Future.Monad.{State, SuccessHandler, call_value, call_future}
use cplease.Pool.Functions.Chains.{then_value-world, then_future-world, length-after_then}
use cplease.Pool.Functions.Sound.{with_new, task_of, run_function-run}
use cplease.Pool.Functions.Steps.{step_thread-moved, call_of_thread-Holds}
use cplease.Pool.Functions.Maps.{map_function-going, map_tasks-Queues}
use cplease.Pool.Functions.{
  Values, Program, run_function, map_function, Happens, calls_run, calls_map, notifies_thread,
  wakes_thread, calls_quit, adds_continuation, adds_then, adds_then_future, adds_handler,
  steps_thread,
}

module _ {ℓ κ} {V : Type ℓ} {X : Type κ} where
  pub record Later (before after : Program V X) : Type (ℓ ⊔ κ) where
    pub promises : length before.world.states ≤ length after.world.states
    pub queued : (task : PackagedTask V) → Mem task before.pool.queued → Mem task after.pool.queued

  pub Later-trans : (p q r : Program V X) → Later p q → Later q r → Later p r
  Later-trans p q r h k = record {
    promises = omega (arith, h.promises, k.promises);
    queued = λ task m. k.queued task (h.queued task m);
  }

  same_queue :
      (before : Program V X) (w : World V X)
      → length before.world.states ≤ length w.states
      → Later before (record before { world = w })
  same_queue before w h = record { promises = h; queued = λ task m. m }

  -- There are so many promises.
  abbrev Sized : ℕ → World V X → Type 0
  Sized k w = k ≤ length w.states

  Sized-IsKept : (k : ℕ) → IsKept (Sized k)
  Sized-IsKept k = record {
    stable = record {
      one_event = λ w e h. h;
      same_ready = λ w q s t e same h. omega (arith, length-set w.states q t);
    };
    stored = λ w q s o e h. omega (arith, length-set w.states q _);
  }

  abbrev AllLater {ι} : {B : Type ι} → Program V X → Program V X × Option B → Type (ℓ ⊔ κ)
  AllLater before (after, none) = Unit
  AllLater before (after, some b) = Later before after

  run_function-Later :
      (d : Values V) (self func : ℕ) (arguments : V) (before : Program V X)
      → AllLater before (run_function d self func arguments before)
  run_function-Later d self func arguments before =
      subst (AllLater before) (sym (run_function-run d self func arguments before))
        (at_stop before.pool.stop)
    where
      grown : Later before (record {
        pool = notifying 1 (enqueue before.pool (task_of func arguments before.world));
        world = with_new d self before.world;
      })
      grown = record {
        promises = omega (arith, length-append before.world.states _);
        queued = λ task m. mem-append_left _ m;
      }

      at_stop :
          (b : Bool)
          → AllLater before (
              if b then (record before { world = with_new d self before.world }, none) else (
                record {
                  pool = notifying 1 (enqueue before.pool (task_of func arguments before.world));
                  world = with_new d self before.world;
                },
                some (length before.world.states),
              ))
      at_stop true = tt
      at_stop false = grown

  pub map_function-stopped :
      (base : ℕ) (d : Values V) (self func : ℕ) (range : List V) (before : Program V X)
      → before.pool.stop ≡ true
      → map_function base d self func range before ≡ (before, none)
  unfolding map_function
  map_function-stopped base d self func range before stopped = rw (map_function, stopped) refl

  map_function-Later :
      (base : ℕ) (d : Values V) (self func : ℕ) (range : List V) (before : Program V X)
      → AllLater before (map_function base d self func range before)
  map_function-Later base d self func range before = elim (Bool-cases before.pool.stop) [
    | inl stopped ↦
        subst (AllLater before) (sym (map_function-stopped base d self func range before stopped))
          tt
    | inr going ↦
        subst (AllLater before) (sym (map_function-going d self base func range before going))
          (record {
            promises = omega (arith, length-append before.world.states _);
            queued = λ task m.
                subst (Mem task)
                  (sym (
                    map_tasks-Queues d self (λ p. p.pool.queued) (λ f w p. refl) func range before))
                  (mem-append_left _ m);
          })
  ]

module _ {ℓ κ} {V : Type ℓ} {X : Type κ} (callbacks : Callbacks V X) where
  thread_work-queued :
      (pool pool' : Pool (PackagedTask V)) (i : ℕ) → Move pool i pool' → pool'.queued ≡ pool.queued
  thread_work-queued pool pool' i (loops f s e) = ap (λ (q : Pool (PackagedTask V)). q.queued) e
  thread_work-queued pool pool' i (leaves f s e) = ap (λ (q : Pool (PackagedTask V)). q.queued) e
  thread_work-queued pool pool' i (returns f s e) = ap (λ (q : Pool (PackagedTask V)). q.queued) e
  thread_work-queued pool pool' i (sleeps f s q e) = ap (λ (p : Pool (PackagedTask V)). p.queued) e
  thread_work-queued pool pool' i (pops task tasks f s e) =
      ap (λ (q : Pool (PackagedTask V)). q.queued) e
  thread_work-queued pool pool' i (starts task f e) = ap (λ (q : Pool (PackagedTask V)). q.queued) e
  thread_work-queued pool pool' i (completes task f e) =
      ap (λ (q : Pool (PackagedTask V)). q.queued) e
  thread_work-queued pool pool' i (ends f e) = ap (λ (q : Pool (PackagedTask V)). q.queued) e

  adds-Later :
      (before after : Program V X) (world : World V X) (m : M V X (Unit {0}))
      → Preserves (Sized (length before.world.states)) Unit m
      → m before.world ≡ done tt world
      → after ≡ record before { world = world }
      → Later before after
  adds-Later before after world m keeps e e' = subst (Later before) (sym e') (
      same_queue before world (
        subst (Holds (Sized (length before.world.states)) Unit) e
          (keeps before.world (omega arith))))

  then-Later :
      (d : Values V) (before after : Program V X) (future : ℕ) (s : State V X)
      (callback : SuccessHandler) (world : World V X)
      → get_elem? before.world.states future ≡ some s
      → world ≡ after_then d.default_value future callback s before.world
      → after ≡ record before { world = world }
      → Later before after
  then-Later d before after future s callback world found e e' = subst (Later before) (sym e') (
      subst (λ w. Later before (record before { world = w })) (sym e)
        (same_queue before (after_then d.default_value future callback s before.world)
          (length-after_then d.default_value future callback s before.world found)))

  Stirs-Later :
      (before after : Program V X) (pool : Pool (PackagedTask V))
      → Stirs before.pool pool
      → after ≡ record before { pool = pool }
      → Later before after
  Stirs-Later before after pool h e =
      subst (Later before) (sym e)
        (record { promises = omega arith; queued = λ task m. subst (Mem task) (sym h.queued) m })

  pub Happens-Later :
      (d : Values V) (self fuel : ℕ) (before after : Program V X)
      → Happens callbacks d self fuel before after
      → Later before after
  Happens-Later d self fuel before after (calls_run func arguments future e) =
      subst (AllLater before) e (run_function-Later d self func arguments before)
  Happens-Later d self fuel before after (calls_map base func range futures e) =
      subst (AllLater before) e (map_function-Later base d self func range before)
  Happens-Later d self fuel before after (calls_quit e) =
      Stirs-Later before after (quit before.pool) (quit-Stirs before.pool) e
  Happens-Later d self fuel before after (notifies_thread i pool e e') =
      Stirs-Later before after pool (notify_one-Stirs before.pool pool i e) e'
  Happens-Later d self fuel before after (wakes_thread i pool e e') =
      Stirs-Later before after pool (wake_spuriously-Stirs before.pool pool i e) e'
  Happens-Later d self fuel before after (adds_continuation future callback world e e') =
      let k : ℕ = length before.world.states in
      adds-Later before after world (then_void future callback)
        ((stable-Laws (Sized k) Unit (Sized-IsKept k).stable).then_void-Preserves future callback) e
        e'
  Happens-Later d self fuel before after (adds_then future func next s world found free e e') =
      then-Later d before after future s (call_value func _) world found
        (then_value-world d.default_value future func next s before.world world found free e) e'
  Happens-Later d self fuel before after
        (adds_then_future future func next s world found free e e') =
      then-Later d before after future s (call_future func _) world found
        (then_future-world d.default_value future func next s before.world world found free e) e'
  Happens-Later d self fuel before after (adds_handler future handler world e e') =
      let k : ℕ = length before.world.states in
      adds-Later before after world (on_exception future handler)
        ((stable-Laws (Sized k) Unit (Sized-IsKept k).stable).on_exception-Preserves future handler)
        e e'
  Happens-Later d self fuel before after (steps_thread i e) =
      let k : ℕ = length before.world.states in
      let (returned, moves) = step_thread-moved callbacks fuel before i after e in
      record {
        promises = subst (Holds (Sized k) Unit) returned (
            call_of_thread-Holds callbacks fuel before i (Sized k)
              (λ task at_task.
                call-Preserves callbacks fuel task (Sized k) (Sized-IsKept k) before.world
                  (omega arith))
              (omega arith));
        queued = λ task m.
            subst (Mem task)
              (sym (
                thread_work-queued before.pool after.pool i
                  (thread_work-Move before.pool after.pool i moves)))
              m;
      }
