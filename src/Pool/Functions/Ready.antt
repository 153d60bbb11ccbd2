-- ===== src/Pool/Functions/Ready.antt =====
-- The futures that run and map of thread_pool.hpp return become ready.
use cplease.Base.{ℕ, ◌<◌, ◌≡◌, refl, sym, subst, false, List, [], ◌∷◌, get_elem?, some}
use cplease.Future.Monad.{called, World, done}
use cplease.Future.{Callbacks}
use cplease.Future.Ready.{IsReady, WasCalled}
use cplease.Future.Preserves.{Holds}
use cplease.Future.Returns.{Returns}
use cplease.Task.Ready.{IsDone, IsDone-IsProp, IsDone-IsKept, call-IsDone, call-Preserves}
use mathlib.Core.List.{Mem, mem-cons, not-mem-nil}
use mathlib.Core.List.Perm
use mathlib.Core.Logic.Or
use cplease.Future.Stable.{stable-Laws}
use cplease.Word.{size_mod}
use cplease.Pool.Progress.{Quiet, Quiet-is_idle, rest}
use cplease.Pool.Stirs.{Stirs, notify_one-Stirs, wake_spuriously-Stirs, quit-Stirs}
use cplease.Pool.Moves.{
  Move, loops, leaves, returns, sleeps, pops, starts, completes, ends, thread_work-Move,
}
use cplease.Task.{PackagedTask, call}
use cplease.Pool.{
  running, Pool, new_pool, quit, thread_work, Step, started, steps, quits, notifies, wakes, works,
}
use cplease.Future.Then.{after_then}
use cplease.Future.Monad.{State, SuccessHandler, call_value, call_future}
use cplease.Pool.Functions.Chains.{then_value-world, then_future-world, after_then-IsDone}
use cplease.Pool.Functions.Sound.{
  AllDone, AllDone-append, AllDone-mono, IsSound, world-IsSound, AllSound, run_function-IsSound,
  map_function-IsSound,
}
use cplease.Pool.Functions.Steps.{step_thread-moved, call_of_thread-Holds}
use cplease.Pool.Functions.{
  Values, Program, call_of, call_of_thread, Happens, calls_run, calls_map, notifies_thread,
  wakes_thread, calls_quit, adds_continuation, adds_then, adds_then_future, adds_handler,
  steps_thread, Comes, begins, continues,
}

module _ {ℓ κ} {V : Type ℓ} {X : Type κ} (callbacks : Callbacks V X) where
  -- What the call in a step of a thread does to the states.
  call_of_thread-Preserves :
      (fuel : ℕ) (program : Program V X) (i : ℕ) (t : PackagedTask V)
      → IsDone t program.world
      → Holds (IsDone t) Unit (call_of_thread callbacks fuel program i)
  call_of_thread-Preserves fuel program i t h =
      call_of_thread-Holds callbacks fuel program i (IsDone t)
        (λ task e. call-Preserves callbacks fuel task (IsDone t) (IsDone-IsKept t) program.world h)
        h

  call_of_thread-Returns :
      (fuel : ℕ) (program : Program V X) (i : ℕ) (task : PackagedTask V)
      → get_elem? program.pool.threads i ≡ some (running task)
      → Returns (IsDone task) (call_of_thread callbacks fuel program i)
  unfolding call_of_thread call_of
  call_of_thread-Returns fuel program i task e =
      subst (Returns (IsDone task)) (sym returned) (call-IsDone callbacks fuel task program.world)
    where
      returned : call_of_thread callbacks fuel program i ≡ call callbacks fuel task program.world
      returned = rw (call_of_thread, e) refl

  Move-IsSound :
      (n fuel : ℕ) (program : Program V X) (i : ℕ) (pool : Pool (PackagedTask V)) (w : World V X)
      → IsSound n program
      → call_of_thread callbacks fuel program i ≡ done tt w
      → thread_work program.pool i ≡ some pool
      → IsSound n (record { pool = pool; world = w })
  Move-IsSound n fuel program i pool w h returned moves = record {
    reached = steps program.pool pool h.reached (works program.pool pool i moves);
    fulfilled = after (thread_work-Move program.pool pool i moves);
  }
    where
      before : AllDone w program.pool.completed
      before =
          AllDone-mono program.world w program.pool.completed
            (λ t r.
              subst (Holds (IsDone t) Unit) returned (call_of_thread-Preserves fuel program i t r))
            h.fulfilled

      after : Move program.pool i pool → AllDone w pool.completed
      after (loops f s e) =
          subst (λ (q : Pool (PackagedTask V)). AllDone w q.completed) (sym e) before
      after (leaves f s e) =
          subst (λ (q : Pool (PackagedTask V)). AllDone w q.completed) (sym e) before
      after (returns f s e) =
          subst (λ (q : Pool (PackagedTask V)). AllDone w q.completed) (sym e) before
      after (sleeps f s q e) =
          subst (λ (p : Pool (PackagedTask V)). AllDone w p.completed) (sym e) before
      after (pops task tasks f s e) =
          subst (λ (q : Pool (PackagedTask V)). AllDone w q.completed) (sym e) before
      after (starts task f e) =
          subst (λ (q : Pool (PackagedTask V)). AllDone w q.completed) (sym e) before
      after (completes task f e) =
          subst (λ (q : Pool (PackagedTask V)). AllDone w q.completed) (sym e)
            (AllDone-append w program.pool.completed task before (
              subst (Returns (IsDone task)) returned
                (call_of_thread-Returns fuel program i task f)))
      after (ends f e) = subst (λ (q : Pool (PackagedTask V)). AllDone w q.completed) (sym e) before

  Stirs-IsSound :
      (n : ℕ) (before after : Program V X) (pool : Pool (PackagedTask V))
      → IsSound n before
      → Stirs before.pool pool
      → Step before.pool pool
      → after ≡ record before { pool = pool }
      → IsSound n after
  Stirs-IsSound n before after pool h stirs step e = subst (IsSound n) (sym e) (record {
    reached = steps before.pool pool h.reached step;
    fulfilled = subst (AllDone before.world) (sym stirs.completed) h.fulfilled;
  })

  then-IsSound :
      (d : Values V) (n : ℕ) (before after : Program V X) (future : ℕ) (s : State V X)
      (callback : SuccessHandler)
      → IsSound n before
      → (world : World V X) → get_elem? before.world.states future ≡ some s
      → world ≡ after_then d.default_value future callback s before.world
      → after ≡ record before { world = world }
      → IsSound n after
  then-IsSound d n before after future s callback h world found e e' = subst (IsSound n) (sym e') (
      subst (λ w. IsSound n (record before { world = w })) (sym e)
        (world-IsSound n before (after_then d.default_value future callback s before.world)
          (after_then-IsDone d.default_value future callback s before.world found) h))

  Happens-IsSound :
      (d : Values V) (self fuel n : ℕ) (before after : Program V X)
      → IsSound n before
      → Happens callbacks d self fuel before after
      → IsSound n after
  Happens-IsSound d self fuel n before after h (calls_run func arguments future e) =
      subst (AllSound n) e (run_function-IsSound n d self func arguments before h)
  Happens-IsSound d self fuel n before after h (calls_map base func range futures e) =
      subst (AllSound n) e (map_function-IsSound n base d self func range before h)
  Happens-IsSound d self fuel n before after h (calls_quit e) =
      Stirs-IsSound n before after (quit before.pool) h (quit-Stirs before.pool) (quits before.pool)
        e
  Happens-IsSound d self fuel n before after h (notifies_thread i pool e e') =
      Stirs-IsSound n before after pool h (notify_one-Stirs before.pool pool i e)
        (notifies before.pool pool i e) e'
  Happens-IsSound d self fuel n before after h (wakes_thread i pool e e') =
      Stirs-IsSound n before after pool h (wake_spuriously-Stirs before.pool pool i e)
        (wakes before.pool pool i e) e'
  Happens-IsSound d self fuel n before after h (adds_continuation future callback world e e') =
      subst (IsSound n) (sym e') (
        world-IsSound n before world
          (λ t r. subst (Holds (IsDone t) Unit) e (
            (stable-Laws (IsDone t) Unit (IsDone-IsKept t).stable).then_void-Preserves future
              callback before.world r))
          h)
  Happens-IsSound d self fuel n before after h
        (adds_then future func next s world found free e e') =
      then-IsSound d n before after future s (call_value func _) h world found
        (then_value-world d.default_value future func next s before.world world found free e) e'
  Happens-IsSound d self fuel n before after h
        (adds_then_future future func next s world found free e e') =
      then-IsSound d n before after future s (call_future func _) h world found
        (then_future-world d.default_value future func next s before.world world found free e) e'
  Happens-IsSound d self fuel n before after h (adds_handler future handler world e e') =
      subst (IsSound n) (sym e') (
        world-IsSound n before world
          (λ t r. subst (Holds (IsDone t) Unit) e (
            (stable-Laws (IsDone t) Unit (IsDone-IsKept t).stable).on_exception-Preserves future
              handler before.world r))
          h)
  Happens-IsSound d self fuel n before after h (steps_thread i e) =
      let (returned, moves) = step_thread-moved callbacks fuel before i after e in
      Move-IsSound n fuel before i after.pool after.world h returned moves

  pub Comes-IsSound :
      (d : Values V) (self fuel n : ℕ) (program : Program V X)
      → Comes callbacks d self fuel n program
      → IsSound n program
  unfolding new_pool
  Comes-IsSound d self fuel n _ (begins world) = record { reached = started; fulfilled = tt }
  Comes-IsSound d self fuel n program (continues before _ come happens) =
      Happens-IsSound d self fuel n before program (Comes-IsSound d self fuel n before come) happens

  AllDone-Mem :
      (w : World V X) (tasks : List (PackagedTask V)) (task : PackagedTask V)
      → AllDone w tasks
      → Mem task tasks
      → IsDone task w
  AllDone-Mem w [] task h m = absurd (not-mem-nil m)
  AllDone-Mem w (t ∷ tasks) task h m =
      Or.elim (IsDone-IsProp task w) (mem-cons.0 m)
        (λ e. subst (λ (u : PackagedTask V). IsDone u w) (sym e) h.0) (AllDone-Mem w tasks task h.1)

  -- A program makes a pool of threads, calls run, map and quit, and adds continuations, those
  -- that return a future too, and handlers to futures, in any interleaving with the threads, the notifications and
  -- spurious wake-ups. When the pool is not stopped, every notification was made and no thread can take a step, every task that run and map have queued was called with its arguments, and
  -- its future is ready: its get does not wait. This is for at least one thread and fewer than 2^64,
  -- while no call of a task has hung or has ended the process.
  pub queued-IsReady :
      (d : Values V) (self fuel num_threads : ℕ) (program : Program V X) (task : PackagedTask V)
      → 0 < num_threads
      → num_threads < size_mod
      → Comes callbacks d self fuel num_threads program
      → program.pool.stop ≡ false
      → Quiet program.pool
      → Mem task program.pool.queued
      → IsReady task.promise program.world
        × WasCalled (called task.func task.arguments) program.world
  queued-IsReady d self fuel n program task some_thread small come going quiet m =
      let h : IsSound n program = Comes-IsSound d self fuel n program come in
      let finished_all =
        Quiet-is_idle n 0 program.pool program.pool some_thread small h.reached going
          (rest program.pool) quiet in
      AllDone-Mem program.world program.pool.completed task h.fulfilled
        (Perm.subset (Perm.symm finished_all.1.1.1) task m)
