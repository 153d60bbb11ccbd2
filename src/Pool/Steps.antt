-- ===== src/Pool/Steps.antt =====
-- What every interleaving of the steps of thread_pool.hpp preserves.
use cplease.Base.{
  ℕ, zero, suc, ◌+◌, ◌≤◌, ◌<◌, ◌≡◌, refl, sym, ap, ap₂, ◌∙◌, subst, Bool, true, false,
  if◌then◌else◌, List, [], ◌∷◌, ◌++◌, replicate, set, get_elem?, length, length-set,
  length-replicate, append_assoc, Option, none, some, inl, inr, arith,
}
use mathlib.Core.Option.{none-ne-some, some-injective}
use cplease.Word.{size_mod}
use cplease.Pool.Moves.{
  Move, loops, leaves, returns, sleeps, pops, starts, completes, ends, thread_work-Move,
}
use cplease.Pool.Stirs.{Roused, Stirs, notify_one-Stirs, wake_spuriously-Stirs, quit-Stirs}
use cplease.Pool.{
  Worker, looping, waiting, parked, holding, running, finished, exited, Pool, new_pool, notifying,
  enqueue, run, quit, Step, runs, quits, notifies, wakes, works, Reachable, started, steps,
}

module _ {ℓ} {T : Type ℓ} where
  -- Whether a worker is counted in m_busy_count.
  abbrev pub is_busy : Worker T → ℕ
  is_busy looping = 0
  is_busy waiting = 0
  is_busy parked = 0
  is_busy (holding task) = 0
  is_busy (running task) = 1
  is_busy finished = 1
  is_busy exited = 0

  abbrev pub busy : List (Worker T) → ℕ
  busy [] = 0
  busy (w ∷ ws) = is_busy w + busy ws

  is_busy-le : (w : Worker T) → is_busy w ≤ 1
  is_busy-le looping = omega arith
  is_busy-le waiting = omega arith
  is_busy-le parked = omega arith
  is_busy-le (holding task) = omega arith
  is_busy-le (running task) = omega arith
  is_busy-le finished = omega arith
  is_busy-le exited = omega arith

  busy-le : (ws : List (Worker T)) → busy ws ≤ length ws
  busy-le [] = omega arith
  busy-le (w ∷ ws) = omega (arith, is_busy-le w, busy-le ws)

  busy-set :
      (ws : List (Worker T)) (i : ℕ) (w w' : Worker T)
      → get_elem? ws i ≡ some w
      → busy (set ws i w') + is_busy w ≡ busy ws + is_busy w'
  busy-set [] i w w' h = absurd (none-ne-some w h)
  busy-set (x ∷ ws) zero w w' h =
      let same : is_busy x ≡ is_busy w = ap is_busy (some-injective x w h) in omega arith
  busy-set (x ∷ ws) (suc i) w w' h = omega (arith, busy-set ws i w w' h)

  -- The popped and the queued tasks make up all that run took, in its order, and m_busy_count is the
  -- number of the workers between its increment and its decrement.
  pub record WellFormed (num_threads : ℕ) (pool : Pool T) : Type ℓ where
    pub fifo : pool.popped ++ pool.tasks ≡ pool.queued
    pub counted : pool.busy_count ≡ busy pool.threads
    pub as_many : length pool.threads ≡ num_threads

  module _ (n : ℕ) (pool : Pool T) (i : ℕ) (small : n < size_mod) (wf : WellFormed n pool) where
    as_many : (w : Worker T) → length (set pool.threads i w) ≡ n
    as_many w = length-set pool.threads i w ∙ wf.as_many

    counted :
        (w w' : Worker T)
        → get_elem? pool.threads i ≡ some w
        → (busy (set pool.threads i w') + is_busy w ≡ pool.busy_count + is_busy w')
          × ((busy (set pool.threads i w') ≤ n) × (pool.busy_count ≤ n))
    counted w w' h = (
      omega (arith, wf.counted, busy-set pool.threads i w w' h),
      (
        omega (arith, busy-le (set pool.threads i w'), as_many w'),
        omega (arith, wf.counted, busy-le pool.threads, wf.as_many),
      ),
    )

    pub Move-WellFormed : {pool' : Pool T} → Move pool i pool' → WellFormed n pool'
    Move-WellFormed (loops h s e) = subst (WellFormed n) (sym e) (record {
      fifo = wf.fifo;
      counted = omega (arith, counted looping waiting h);
      as_many = as_many waiting;
    })
    Move-WellFormed (leaves h s e) = subst (WellFormed n) (sym e) (record {
      fifo = wf.fifo;
      counted = omega (arith, counted looping exited h);
      as_many = as_many exited;
    })
    Move-WellFormed (returns h s e) = subst (WellFormed n) (sym e) (record {
      fifo = wf.fifo;
      counted = omega (arith, counted waiting exited h);
      as_many = as_many exited;
    })
    Move-WellFormed (sleeps h s q e) = subst (WellFormed n) (sym e) (record {
      fifo = wf.fifo;
      counted = omega (arith, counted waiting parked h);
      as_many = as_many parked;
    })
    Move-WellFormed (pops task tasks h q e) = subst (WellFormed n) (sym e) (record {
      fifo =
          append_assoc pool.popped (task ∷ []) tasks
          ∙ (ap (λ ts. pool.popped ++ ts) (sym q) ∙ wf.fifo);
      counted = omega (arith, counted waiting (holding task) h);
      as_many = as_many (holding task);
    })
    Move-WellFormed (starts task h e) = subst (WellFormed n) (sym e) (record {
      fifo = wf.fifo;
      counted = omega (arith, counted (holding task) (running task) h);
      as_many = as_many (running task);
    })
    Move-WellFormed (completes task h e) = subst (WellFormed n) (sym e) (record {
      fifo = wf.fifo;
      counted = omega (arith, counted (running task) finished h);
      as_many = as_many finished;
    })
    Move-WellFormed (ends h e) = subst (WellFormed n) (sym e) (record {
      fifo = wf.fifo;
      counted = omega (arith, counted finished looping h);
      as_many = as_many looping;
    })

  busy-Roused : (ws ws' : List (Worker T)) → Roused ws ws' → busy ws' ≡ busy ws
  busy-Roused [] ws' h = ap busy h
  busy-Roused (w ∷ ws) [] h = ap busy (sym h)
  busy-Roused (w ∷ ws) (w' ∷ ws') (inl same, h) =
      omega (arith, ap is_busy same, busy-Roused ws ws' h)
  busy-Roused (w ∷ ws) (w' ∷ ws') (inr (was, is), h) =
      omega (arith, ap is_busy was, ap is_busy is, busy-Roused ws ws' h)

  length-Roused : (ws ws' : List (Worker T)) → Roused ws ws' → length ws' ≡ length ws
  length-Roused [] ws' h = ap length h
  length-Roused (w ∷ ws) [] h = ap length (sym h)
  length-Roused (w ∷ ws) (w' ∷ ws') h = ap suc (length-Roused ws ws' h.1)

  Stirs-WellFormed :
      (n : ℕ) (pool pool' : Pool T) → WellFormed n pool → Stirs pool pool' → WellFormed n pool'
  Stirs-WellFormed n pool pool' wf h = record {
    fifo = ap₂ (λ ps ts. ps ++ ts) h.popped h.tasks ∙ (wf.fifo ∙ sym h.queued);
    counted = h.busy_count ∙ (wf.counted ∙ sym (busy-Roused pool.threads pool'.threads h.threads));
    as_many = length-Roused pool.threads pool'.threads h.threads ∙ wf.as_many;
  }

  abbrev Good : ℕ → Option (Pool T) → Type ℓ
  Good n none = Unit
  Good n (some pool) = WellFormed n pool

  run-Good : (n : ℕ) (pool : Pool T) (task : T) → WellFormed n pool → Good n (run pool task)
  unfolding run
  run-Good n pool task wf = if_Good pool.stop (notifying 1 (enqueue pool task)) (record {
    fifo =
        sym (append_assoc pool.popped pool.tasks (task ∷ []))
        ∙ ap (λ ts. ts ++ (task ∷ [])) wf.fifo;
    counted = wf.counted;
    as_many = wf.as_many;
  })
    where
      if_Good : (b : Bool) (q : Pool T) → WellFormed n q → Good n (if b then none else some q)
      if_Good true q h = tt
      if_Good false q h = h

  new_pool-WellFormed : (n : ℕ) → WellFormed n (new_pool n)
  unfolding new_pool
  new_pool-WellFormed n = record {
    fifo = refl;
    counted = sym (none_busy n);
    as_many = length-replicate n looping;
  }
    where
      none_busy : (n : ℕ) → busy (replicate n looping) ≡ 0
      none_busy zero = refl
      none_busy (suc n) = omega (arith, none_busy n)

  -- However run, its notifications, quit, spurious wake-ups and the steps of fewer than 2^64 threads interleave: the tasks that the workers have
  -- popped and those that are queued are, in this order, the tasks that run has taken, so that none is
  -- lost, doubled or overtaken; and m_busy_count is the number of the workers between its increment
  -- and its decrement.
  pub Reachable-WellFormed :
      (num_threads : ℕ) (pool : Pool T)
      → num_threads < size_mod
      → Reachable num_threads pool
      → WellFormed num_threads pool
  Reachable-WellFormed n _ small started = new_pool-WellFormed n
  Reachable-WellFormed n _ small (steps before pool reached step) =
      after step (Reachable-WellFormed n before small reached)
    where
      after : {before pool : Pool T} → Step before pool → WellFormed n before → WellFormed n pool
      after (runs before pool task e) wf = subst (Good n) e (run-Good n before task wf)
      after (quits before) wf = Stirs-WellFormed n before (quit before) wf (quit-Stirs before)
      after (notifies before pool i e) wf =
          Stirs-WellFormed n before pool wf (notify_one-Stirs before pool i e)
      after (wakes before pool i e) wf =
          Stirs-WellFormed n before pool wf (wake_spuriously-Stirs before pool i e)
      after (works before pool i e) wf =
          Move-WellFormed n before i small wf (thread_work-Move before pool i e)
