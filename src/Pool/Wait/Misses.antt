-- ===== src/Pool/Wait/Misses.antt =====
-- The notification that wait of thread_pool.hpp can miss.
use cplease.Base.{ℕ, ◌≡◌, refl, sym, ap, ◌∙◌, subst, true, false, [], set, get_elem?, some}
use mathlib.Core.Option.{none-ne-some, some-injective}
use mathlib.Core.List.{cons-ne-nil}
use cplease.Word.{sub_size}
use cplease.Pool.{
  Worker, looping, waiting, parked, holding, running, finished, exited, Pool, is_empty, is_idle,
  quit, thread_work, work, put_thread,
}
use mathlib.Core.Bool.{true≢false}
use cplease.Pool.Stirs.{Stirs, notify_one-Stirs, wake_spuriously-Stirs, quit-Stirs}
use cplease.Pool.Moves.{Move, loops, leaves, returns, sleeps, pops, starts, completes, ends}
use cplease.Pool.Wait.Beside.{
  AtRest, AllAtRest, AllAtRest-set, AllAtRest-get_elem?, AllAtRest-Roused, notify_idle-AtRest,
  BesideStep, worker_step-BesideStep,
}
use cplease.Pool.Wait.{
  Caller, calling, outer, inner, falls_asleep, asleep, woken, returned, has_returned, notify_all,
  Waiting, caller_step, takes_mutex, notify_idle, worker_step, WaitStep, calls, wakes_caller,
  notifies_beside, wakes_beside, works_beside, quits_beside, WaitSteps, none_more, one_more,
}

-- The caller has seen a pool that was not idle, and is about to sleep or does.
abbrev Dozes : Caller → Type 0
Dozes calling = ⊥
Dozes outer = ⊥
Dozes inner = ⊥
Dozes falls_asleep = Unit
Dozes asleep = Unit
Dozes woken = ⊥
Dozes returned = ⊥

module _ {ℓ} {T : Type ℓ} where
  -- Nothing is left to do, and the caller sleeps.
  pub record IsMissed (state : Waiting T) : Type ℓ where
    pub no_tasks : state.pool.tasks ≡ []
    pub none_busy : state.pool.busy_count ≡ 0
    pub at_rest : AllAtRest state.pool.threads
    pub dozes : Dozes state.caller

  caller_step-Dozes :
      (pool : Pool T) (caller next : Caller)
      → Dozes caller
      → caller_step false pool caller ≡ some next
      → Dozes next
  unfolding caller_step
  caller_step-Dozes pool calling next h e = absurd h
  caller_step-Dozes pool outer next h e = absurd h
  caller_step-Dozes pool inner next h e = absurd h
  caller_step-Dozes pool woken next h e = absurd h
  caller_step-Dozes pool returned next h e = absurd h
  caller_step-Dozes pool falls_asleep next h e = subst Dozes (some-injective asleep next e) tt
  caller_step-Dozes pool asleep next h e = absurd (none-ne-some next e)

  Move-IsMissed :
      (pool pool' : Pool T) (i : ℕ) (caller : Caller)
      → IsMissed (record { pool = pool; caller = caller })
      → Move pool i pool'
      → IsMissed (record { pool = pool'; caller = caller })
  Move-IsMissed pool pool' i caller h m = at_move m
    where
      rests :
          (w : Worker T)
          → AtRest w
          → (pool' ≡ record pool { threads = set pool.threads i w })
          → IsMissed (record { pool = pool'; caller = caller })
      rests w r e =
          subst (λ (q : Pool T). IsMissed (record { pool = q; caller = caller })) (sym e)
            (record {
              no_tasks = h.no_tasks;
              none_busy = h.none_busy;
              at_rest = AllAtRest-set pool.threads i w r h.at_rest;
              dozes = h.dozes;
            })

      at_move : Move pool i pool' → IsMissed (record { pool = pool'; caller = caller })
      at_move (loops f s e) = rests waiting tt e
      at_move (leaves f s e) = rests exited tt e
      at_move (returns f s e) = rests exited tt e
      at_move (sleeps f s q e) = rests parked tt e
      at_move (pops task tasks f q e) = absurd (cons-ne-nil task tasks (sym q ∙ h.no_tasks))
      at_move (starts task f e) =
          absurd (AllAtRest-get_elem? pool.threads i (holding task) h.at_rest f)
      at_move (completes task f e) =
          absurd (AllAtRest-get_elem? pool.threads i (running task) h.at_rest f)
      at_move (ends f e) = absurd (AllAtRest-get_elem? pool.threads i finished h.at_rest f)

  Stirs-IsMissed :
      (state : Waiting T) (pool : Pool T)
      → IsMissed state
      → Stirs state.pool pool
      → IsMissed (record state { pool = pool })
  Stirs-IsMissed state pool h stirs = record {
    no_tasks = stirs.tasks ∙ h.no_tasks;
    none_busy = stirs.busy_count ∙ h.none_busy;
    at_rest = AllAtRest-Roused state.pool.threads pool.threads stirs.threads h.at_rest;
    dozes = h.dozes;
  }

  WaitStep-IsMissed :
      (state state' : Waiting T) → IsMissed state → WaitStep false state state' → IsMissed state'
  WaitStep-IsMissed state _ h (calls next e) = record {
    no_tasks = h.no_tasks;
    none_busy = h.none_busy;
    at_rest = h.at_rest;
    dozes = caller_step-Dozes state.pool state.caller next h.dozes e;
  }
  WaitStep-IsMissed state _ h (wakes_caller next spurious e) = absurd (true≢false (sym spurious))
  WaitStep-IsMissed state _ h (notifies_beside pool i e) =
      Stirs-IsMissed state pool h (notify_one-Stirs state.pool pool i e)
  WaitStep-IsMissed state _ h (wakes_beside pool i e) =
      Stirs-IsMissed state pool h (wake_spuriously-Stirs state.pool pool i e)
  WaitStep-IsMissed state _ h (quits_beside free) =
      Stirs-IsMissed state (quit state.pool) h (quit-Stirs state.pool)
  WaitStep-IsMissed state state' h (works_beside _ i e) =
      let step : BesideStep state i state' = worker_step-BesideStep state state' i e in
      subst IsMissed
        (sym (
          step.result
          ∙ ap (λ c. record { pool = step.pool; caller = c })
              (notify_idle-AtRest step.worker step.pool state.caller
                (AllAtRest-get_elem? state.pool.threads i step.worker h.at_rest step.found))))
        (Move-IsMissed state.pool step.pool i state.caller h step.moved)

  WaitSteps-IsMissed :
      (state state' : Waiting T) → IsMissed state → WaitSteps false state state' → IsMissed state'
  WaitSteps-IsMissed state _ h (none_more _) = h
  WaitSteps-IsMissed state state'' h (one_more _ state' _ first later) =
      WaitSteps-IsMissed state' state'' (WaitStep-IsMissed state state' h first) later

  IsMissed-is_idle :
      (state : Waiting T)
      → IsMissed state
      → (is_idle state.pool ≡ true) × (has_returned state.caller ≡ false)
  unfolding is_idle is_empty has_returned
  IsMissed-is_idle state h = (rw (h.no_tasks, h.none_busy) refl, dozing state.caller h.dozes)
    where
      dozing : (c : Caller) → Dozes c → has_returned c ≡ false
      dozing calling d = absurd d
      dozing outer d = absurd d
      dozing inner d = absurd d
      dozing woken d = absurd d
      dozing returned d = absurd d
      dozing falls_asleep d = refl
      dozing asleep d = refl

  last_ends :
      (pool : Pool T) (i : ℕ)
      → pool.busy_count ≡ 1
      → get_elem? pool.threads i ≡ some finished
      → thread_work pool i
        ≡ some (record pool { busy_count = 0; threads = set pool.threads i looping })
  unfolding thread_work work put_thread
  last_ends pool i one busy = rw busy (
      ap
        (λ b.
          some (record pool { busy_count = sub_size b 1; threads = set pool.threads i looping }))
        one)

  -- wait can miss the notification that it waits for. The caller has seen the pool busy and is about to
  -- sleep, no task is queued, and the only busy worker ends: it decrements m_busy_count to 0 and
  -- notifies, without m_mutex. Then, whatever the caller and the workers do, quit included, while no
  -- task is added and the caller is not woken spuriously, the pool is idle and wait has not returned.
  pub wait-misses :
      (state ended later : Waiting T) (i : ℕ)
      → state.caller ≡ falls_asleep
      → state.pool.tasks ≡ []
      → state.pool.busy_count ≡ 1
      → get_elem? state.pool.threads i ≡ some finished
      → AllAtRest (set state.pool.threads i looping)
      → worker_step state i ≡ some ended
      → WaitSteps false ended later
      → (is_idle later.pool ≡ true) × (has_returned later.caller ≡ false)
  unfolding worker_step takes_mutex notify_idle notify_all
  wait-misses state ended later i dozes no_tasks one busy others e steps =
      IsMissed-is_idle later (WaitSteps-IsMissed ended later missed steps)
    where
      after : Waiting T
      after = record {
        pool = record state.pool { busy_count = 0; threads = set state.pool.threads i looping };
        caller = falls_asleep;
      }

      here : worker_step state i ≡ some after
      here = rw (worker_step, busy, last_ends state.pool i one busy, dozes) refl

      missed : IsMissed ended
      missed =
          subst IsMissed (some-injective after ended (sym here ∙ e))
            (record { no_tasks = no_tasks; none_busy = refl; at_rest = others; dozes = tt })
