-- ===== src/Pool/Functions/Reports/Programs.antt =====
-- Programs of thread_pool.hpp that leave the futures of a call of map to themselves.
use cplease.Base.{
  ℕ, zero, suc, ◌≡◌, sym, ap, ◌∙◌, subst, List, [], ◌∷◌, ◌++◌, length, set, get_elem?,
  get_elem?-set_cases, replicate, some, inl, inr, arith,
}
use mathlib.Core.Option.{none-ne-some, some-injective}
use cplease.Future.{Callbacks}
use cplease.Futures.{ResultVariant}
use cplease.Task.{PackagedTask}
use cplease.Pool.{
  Worker, looping, waiting, parked, holding, running, finished, exited, Pool, new_pool, thread_work,
}
use cplease.Pool.Stirs.{Stirs, get_elem?-Roused}
use cplease.Pool.Moves.{
  Move, loops, leaves, returns, sleeps, pops, starts, completes, ends, thread_work-Move,
}
use cplease.Pool.Functions.{
  Values, Program, Happens, calls_run, calls_map, notifies_thread, wakes_thread, calls_quit,
  adds_continuation, adds_then, adds_then_future, adds_handler, steps_thread, Comes, continues,
}
use cplease.Pool.Functions.Later.{Later, Later-trans, Happens-Later}
use cplease.Pool.Functions.Reports.{Apart, AllApart, TameSuccess, TameHandler, Reported}
use cplease.Pool.Functions.Reports.Calls.{IsOwn}

module _ {ℓ κ} {V : Type ℓ} {X : Type κ} (callbacks : Callbacks V X) (d : Values V)
    (self fuel : ℕ) where
  module _ (base n len : ℕ) where
    -- The program does not use the numbers of the lambdas of the futures for other functions, and
    -- adds no continuation that fulfils their promises, which only their tasks do.
    abbrev pub IsApart :
        {before after : Program V X} → Happens callbacks d self fuel before after → Type 0
    IsApart (calls_run func arguments future e) = Apart base n len func
    IsApart (calls_map base' func range futures e) =
        (base' ≡ base) × AllApart base n len d func range
    IsApart (notifies_thread i pool e e') = Unit
    IsApart (wakes_thread i pool e e') = Unit
    IsApart (calls_quit e) = Unit
    IsApart (adds_continuation future callback world e e') = TameSuccess base n len callback
    IsApart (adds_then future func next s world found free e e') = Apart base n len func
    IsApart (adds_then_future future func next s world found free e e') = Apart base n len func
    IsApart (adds_handler future handler world e e') = TameHandler base n len handler
    IsApart (steps_thread i e) = Unit

    -- Such programs, from one to another.
    pub data Leads (origin : Program V X) : Program V X → Type (ℓ ⊔ κ) where
      stays : Leads origin origin
      goes_on :
          (before after : Program V X)
          → Leads origin before
          → (step : Happens callbacks d self fuel before after) → IsApart step
          → Leads origin after

    pub Leads-Comes :
        (num_threads : ℕ) (origin program : Program V X)
        → Comes callbacks d self fuel num_threads origin
        → Leads origin program
        → Comes callbacks d self fuel num_threads program
    Leads-Comes k origin _ come stays = come
    Leads-Comes k origin program come (goes_on before _ leads step apart) =
        continues before program (Leads-Comes k origin before come leads) step

    pub Leads-Later : (origin program : Program V X) → Leads origin program → Later origin program
    Leads-Later origin _ stays = record { promises = omega arith; queued = λ task m. m }
    Leads-Later origin program (goes_on before _ leads step apart) =
        Later-trans origin before program (Leads-Later origin before leads)
          (Happens-Later callbacks d self fuel before program step)

-- A program that has made its pool, and no promise yet.
abbrev pub new_program {ℓ κ} : {V : Type ℓ} {X : Type κ} → ℕ → Program V X
new_program num_threads = record {
  pool = new_pool num_threads;
  world = record { states = []; log = [] };
}

module _ {ℓ κ} {V : Type ℓ} {X : Type κ} (base n : ℕ) (rs : List (ResultVariant V X))
    (callbacks : Callbacks V X) where
  -- A task whose call does nothing to the futures, or fulfils one of them with its outcome.
  abbrev pub IsFair : PackagedTask V → Type (ℓ ⊔ κ)
  IsFair task = Apart base n (length rs) task.func × IsOwn base n rs callbacks task

  abbrev pub AllFair : List (PackagedTask V) → Type (ℓ ⊔ κ)
  AllFair [] = Unit
  AllFair (task ∷ tasks) = IsFair task × AllFair tasks

  pub AllFair-append :
      (tasks more : List (PackagedTask V)) → AllFair tasks → AllFair more → AllFair (tasks ++ more)
  AllFair-append [] more h k = k
  AllFair-append (task ∷ tasks) more h k = (h.0, AllFair-append tasks more h.1 k)

  abbrev pub HasFair : Worker (PackagedTask V) → Type (ℓ ⊔ κ)
  HasFair (holding task) = IsFair task
  HasFair (running task) = IsFair task
  HasFair _ = Unit

  -- The tasks of a pool that are queued or with a worker.
  pub record Fair (pool : Pool (PackagedTask V)) : Type (ℓ ⊔ κ) where
    pub queue : AllFair pool.tasks
    pub workers :
        (i : ℕ) (w : Worker (PackagedTask V)) → get_elem? pool.threads i ≡ some w → HasFair w

  pub record Owned (program : Program V X) : Type (ℓ ⊔ κ) where
    pub reported : Reported base n rs program.world
    pub fair : Fair program.pool

  module _ (pool : Pool (PackagedTask V)) (i : ℕ) (h : Fair pool) where
    set_workers :
        (w : Worker (PackagedTask V))
        → HasFair w
        → (j : ℕ) (u : Worker (PackagedTask V)) → get_elem? (set pool.threads i w) j ≡ some u
        → HasFair u
    set_workers w hw j u e = elim (get_elem?-set_cases pool.threads i j w u e) [
      | inl here ↦ subst HasFair (sym here.1) hw
      | inr there ↦ h.workers j u there.1
    ]

    Move-Fair : {pool' : Pool (PackagedTask V)} → Move pool i pool' → Fair pool'
    Move-Fair (loops f s e) =
        subst Fair (sym e) (record { queue = h.queue; workers = set_workers waiting tt })
    Move-Fair (leaves f s e) =
        subst Fair (sym e) (record { queue = h.queue; workers = set_workers exited tt })
    Move-Fair (returns f s e) =
        subst Fair (sym e) (record { queue = h.queue; workers = set_workers exited tt })
    Move-Fair (sleeps f s q e) =
        subst Fair (sym e) (record { queue = h.queue; workers = set_workers parked tt })
    Move-Fair (pops task tasks f q e) =
        let all : AllFair (task ∷ tasks) = subst AllFair q h.queue in
        subst Fair (sym e) (record { queue = all.1; workers = set_workers (holding task) all.0 })
    Move-Fair (starts task f e) = subst Fair (sym e) (record {
      queue = h.queue;
      workers = set_workers (running task) (h.workers i (holding task) f);
    })
    Move-Fair (completes task f e) =
        subst Fair (sym e) (record { queue = h.queue; workers = set_workers finished tt })
    Move-Fair (ends f e) =
        subst Fair (sym e) (record { queue = h.queue; workers = set_workers looping tt })

    pub thread_work-Fair :
        (pool' : Pool (PackagedTask V)) → thread_work pool i ≡ some pool' → Fair pool'
    thread_work-Fair pool' e = Move-Fair (thread_work-Move pool pool' i e)

  pub Stirs-Fair : (pool pool' : Pool (PackagedTask V)) → Fair pool → Stirs pool pool' → Fair pool'
  Stirs-Fair pool pool' h stirs = record {
    queue = subst AllFair (sym stirs.tasks) h.queue;
    workers = λ i w found.
        elim (get_elem?-Roused pool.threads pool'.threads i w stirs.threads found) [
          | inl same ↦ h.workers i w same
          | inr woken ↦ subst HasFair (sym woken) tt
        ];
  }

  pub enqueued-Fair :
      (pool pool' : Pool (PackagedTask V)) (more : List (PackagedTask V))
      → Fair pool
      → pool'.tasks ≡ pool.tasks ++ more
      → pool'.threads ≡ pool.threads
      → AllFair more
      → Fair pool'
  enqueued-Fair pool pool' more h e same all = record {
    queue = subst AllFair (sym e) (AllFair-append pool.tasks more h.queue all);
    workers = λ i w found. h.workers i w (sym (ap (λ ts. get_elem? ts i) same) ∙ found);
  }

  replicate_idle :
      (k i : ℕ) (w : Worker (PackagedTask V))
      → get_elem? (replicate k looping) i ≡ some w
      → HasFair w
  replicate_idle zero i w e = absurd (none-ne-some w e)
  replicate_idle (suc k) zero w e = subst HasFair (some-injective looping w e) tt
  replicate_idle (suc k) (suc i) w e = replicate_idle k i w e

  pub new_pool-Fair : (num_threads : ℕ) → Fair (new_pool num_threads)
  unfolding new_pool
  new_pool-Fair k = record { queue = tt; workers = replicate_idle k }
