-- ===== src/Pool/Functions/Reports/Leading.antt =====
-- Such programs of thread_pool.hpp as a whole, before map makes the futures and after that.
use cplease.Base.{
  ℕ, ◌+◌, ◌≤◌, ◌≡◌, refl, sym, ap, ◌∙◌, subst, List, [], length, some, inl, inr, arith,
}
use mathlib.Core.Option.{none-ne-some}
use cplease.Future.Monad.{World, M, done, call_value, call_future}
use cplease.Future.{Callbacks, then_void, on_exception}
use cplease.Future.Preserves.{Holds}
use cplease.Futures.{ResultVariant}
use cplease.Task.{PackagedTask}
use cplease.Pool.Stirs.{Stirs, notify_one-Stirs, wake_spuriously-Stirs, quit-Stirs}
use cplease.Pool.{running, Pool, quit, thread_work}
use cplease.Pool.Functions.{
  Values, Program, call_of_thread, map_function, Happens, calls_run, calls_map, notifies_thread,
  wakes_thread, calls_quit, adds_continuation, adds_then, adds_then_future, adds_handler,
  steps_thread,
}
use cplease.Pool.Functions.Steps.{step_thread-moved, call_of_thread-Holds}
use cplease.Pool.Functions.Later.{Later, Happens-Later}
use cplease.Pool.Functions.Reports.{reports}
use cplease.Pool.Functions.Reports.Handlers.{Reports, Keeps, then_void-Keeps, on_exception-Keeps}
use cplease.Pool.Functions.Reports.Calls.{call-Keeps}
use cplease.Pool.Functions.Reports.Programs.{
  IsApart, Leads, stays, goes_on, Leads-Later, new_program, Owned, new_pool-Fair, Stirs-Fair,
  thread_work-Fair,
}
use cplease.Pool.Functions.Chains.{then_value-world, then_future-world}
use cplease.Pool.Functions.Reports.Continued.{after_then-Owned}
use cplease.Pool.Functions.Reports.Owned.{Phase, AllOwned, run_function-Owned, map_function-Owned}

module _ {ℓ κ} {V : Type ℓ} {X : Type κ} (base n : ℕ) (rs : List (ResultVariant V X))
    (callbacks : Callbacks V X) (d : Values V) (self fuel : ℕ) where
  world-Owned :
      (before after : Program V X) (world : World V X) (m : M V X (Unit {0}))
      → Keeps base n rs m
      → m before.world ≡ done tt world
      → after ≡ record before { world = world }
      → Owned base n rs callbacks before
      → Owned base n rs callbacks after
  world-Owned before after world m keeps e e' h =
      subst (Owned base n rs callbacks) (sym e') (record {
        reported = subst (Holds (Reports base n rs) Unit) e (keeps before.world h.reported);
        fair = h.fair;
      })

  Stirs-Owned :
      (before after : Program V X) (pool : Pool (PackagedTask V))
      → Stirs before.pool pool
      → after ≡ record before { pool = pool }
      → Owned base n rs callbacks before
      → Owned base n rs callbacks after
  Stirs-Owned before after pool stirs e h = subst (Owned base n rs callbacks) (sym e) (record {
    reported = h.reported;
    fair = Stirs-Fair base n rs callbacks before.pool pool h.fair stirs;
  })

  steps-Owned :
      (before after : Program V X) (i : ℕ)
      → (call_of_thread callbacks fuel before i ≡ done tt after.world)
        × (thread_work before.pool i ≡ some after.pool)
      → Owned base n rs callbacks before
      → Owned base n rs callbacks after
  steps-Owned before after i (returned, moves) h = record {
    reported = subst (Holds (Reports base n rs) Unit) returned (
        call_of_thread-Holds callbacks fuel before i (Reports base n rs)
          (λ task at_task.
            let fair = h.fair.workers i (running task) at_task in
            call-Keeps base n rs callbacks fuel task fair.0 fair.1 before.world h.reported)
          h.reported);
    fair = thread_work-Fair base n rs callbacks before.pool i h.fair after.pool moves;
  }

  Happens-Owned :
      (before after : Program V X) (step : Happens callbacks d self fuel before after)
      → IsApart callbacks d self fuel base n (length rs) step
      → Phase base n rs callbacks d self before after
      → Owned base n rs callbacks before
      → Owned base n rs callbacks after
  Happens-Owned before after (calls_run func arguments future e) apart phase h =
      subst (AllOwned base n rs callbacks d self before) e
        (run_function-Owned base n rs callbacks d self func arguments before apart h) phase
  Happens-Owned before after (calls_map base' func range futures e) apart phase h =
      subst (AllOwned base n rs callbacks d self before)
        (ap (λ b. map_function b d self func range before) (sym apart.0) ∙ e)
        (map_function-Owned base n rs callbacks d self func range before apart.1 h) phase
  Happens-Owned before after (calls_quit e) apart phase h =
      Stirs-Owned before after (quit before.pool) (quit-Stirs before.pool) e h
  Happens-Owned before after (notifies_thread i pool e e') apart phase h =
      Stirs-Owned before after pool (notify_one-Stirs before.pool pool i e) e' h
  Happens-Owned before after (wakes_thread i pool e e') apart phase h =
      Stirs-Owned before after pool (wake_spuriously-Stirs before.pool pool i e) e' h
  Happens-Owned before after (adds_continuation future callback world e e') apart phase h =
      world-Owned before after world (then_void future callback)
        (then_void-Keeps base n rs future callback apart) e e' h
  Happens-Owned before after (adds_then future func next s world found free e e') apart phase h =
      after_then-Owned base n rs d future (call_value func (length before.world.states)) s callbacks
        self before after world found
        (then_value-world d.default_value future func next s before.world world found free e) e'
        (λ outside. (apart, outside)) phase h
  Happens-Owned before after (adds_then_future future func next s world found free e e') apart phase
        h =
      after_then-Owned base n rs d future (call_future func (length before.world.states)) s
        callbacks self before after world found
        (then_future-world d.default_value future func next s before.world world found free e) e'
        (λ outside. (apart, outside)) phase h
  Happens-Owned before after (adds_handler future handler world e e') apart phase h =
      world-Owned before after world (on_exception future handler)
        (on_exception-Keeps base n rs future handler apart) e e' h
  Happens-Owned before after (steps_thread i e) apart phase h =
      steps-Owned before after i (step_thread-moved callbacks fuel before i after e) h

  new_program-Owned : (num_threads : ℕ) → Owned base n rs callbacks (new_program num_threads)
  unfolding reports
  new_program-Owned k = record {
    reported = record {
      order = [];
      each = tt;
      logged = refl;
      unborn = λ few. refl;
      tame = λ p s e. absurd (none-ne-some s e);
      watched = λ i s lt e. absurd (none-ne-some s e);
      now = λ i s lt e. absurd (none-ne-some s e);
    };
    fair = new_pool-Fair base n rs callbacks k;
  }

  -- Before map has made the futures.
  pub before-Owned :
      (num_threads : ℕ) (program : Program V X)
      → Leads callbacks d self fuel base n (length rs) (new_program num_threads) program
      → length program.world.states ≤ n
      → Owned base n rs callbacks program
  before-Owned k _ stays few = new_program-Owned k
  before-Owned k program (goes_on before _ leads step apart) few =
      let later : Later before program = Happens-Later callbacks d self fuel before program step in
      Happens-Owned before program step apart (inl few)
        (before-Owned k before leads (omega (arith, later.promises)))

  -- After that.
  pub after-Owned :
      (origin program : Program V X)
      → Leads callbacks d self fuel base n (length rs) origin program
      → n + length rs ≤ length origin.world.states
      → Owned base n rs callbacks origin
      → Owned base n rs callbacks program
  after-Owned origin _ stays made h = h
  after-Owned origin program (goes_on before _ leads step apart) made h =
      let later : Later origin before =
        Leads-Later callbacks d self fuel base n (length rs) origin before leads in
      Happens-Owned before program step apart (inr (omega (arith, later.promises)))
        (after-Owned origin before leads made h)
