-- ===== src/Pool/Alive.antt =====
-- The threads of thread_pool.hpp stay while the pool is not stopped.
use cplease.Base.{
  ℕ, zero, suc, ◌≡◌, sym, subst, if◌then◌else◌, Bool, true, false, List, [], ◌∷◌, replicate, set,
  Option, none, some, ◌⊎◌, inl, inr,
}
use cplease.Pool.Moves.{
  Move, loops, leaves, returns, sleeps, pops, starts, completes, ends, thread_work-Move,
}
use cplease.Pool.Stirs.{Roused, Stirs, notify_one-Stirs, wake_spuriously-Stirs, quit-Stirs}
use cplease.Pool.{
  Worker, looping, waiting, parked, holding, running, finished, exited, Pool, new_pool, run, quit,
  Step, runs, quits, notifies, wakes, works, Reachable, started, steps,
}

module _ {ℓ} {T : Type ℓ} where
  abbrev pub NotExited : Worker T → Type 0
  NotExited exited = ⊥
  NotExited _ = Unit

  abbrev pub NoneExited : List (Worker T) → Type 0
  NoneExited [] = Unit
  NoneExited (w ∷ ws) = NotExited w × NoneExited ws

  NoneExited-set :
      (ws : List (Worker T)) (i : ℕ) (w : Worker T)
      → NotExited w
      → NoneExited ws
      → NoneExited (set ws i w)
  NoneExited-set [] i w h hs = tt
  NoneExited-set (x ∷ ws) zero w h hs = (h, hs.1)
  NoneExited-set (x ∷ ws) (suc i) w h hs = (hs.0, NoneExited-set ws i w h hs.1)

  -- A thread leaves thread_work only on a stopped pool.
  abbrev pub Alive : Pool T → Type 0
  Alive pool = (pool.stop ≡ true) ⊎ NoneExited pool.threads

  Alive-set :
      (pool : Pool T) (i : ℕ) (w : Worker T)
      → NotExited w
      → Alive pool
      → (pool.stop ≡ true) ⊎ NoneExited (set pool.threads i w)
  Alive-set pool i w h (inl stopped) = inl stopped
  Alive-set pool i w h (inr hs) = inr (NoneExited-set pool.threads i w h hs)

  Move-Alive : (pool pool' : Pool T) (i : ℕ) → Alive pool → Move pool i pool' → Alive pool'
  Move-Alive pool pool' i a (loops h s e) = subst Alive (sym e) (Alive-set pool i waiting tt a)
  Move-Alive pool pool' i a (leaves h s e) = subst Alive (sym e) (inl s)
  Move-Alive pool pool' i a (returns h s e) = subst Alive (sym e) (inl s)
  Move-Alive pool pool' i a (sleeps h s q e) = subst Alive (sym e) (Alive-set pool i parked tt a)
  Move-Alive pool pool' i a (pops task tasks h q e) =
      subst Alive (sym e) (Alive-set pool i (holding task) tt a)
  Move-Alive pool pool' i a (starts task h e) =
      subst Alive (sym e) (Alive-set pool i (running task) tt a)
  Move-Alive pool pool' i a (completes task h e) =
      subst Alive (sym e) (Alive-set pool i finished tt a)
  Move-Alive pool pool' i a (ends h e) = subst Alive (sym e) (Alive-set pool i looping tt a)

  NoneExited-Roused : (ws ws' : List (Worker T)) → Roused ws ws' → NoneExited ws → NoneExited ws'
  NoneExited-Roused [] ws' h a = subst NoneExited (sym h) a
  NoneExited-Roused (w ∷ ws) [] h a = tt
  NoneExited-Roused (w ∷ ws) (w' ∷ ws') (inl same, h) a =
      (subst NotExited (sym same) a.0, NoneExited-Roused ws ws' h a.1)
  NoneExited-Roused (w ∷ ws) (w' ∷ ws') (inr (was, is), h) a =
      (subst NotExited (sym is) tt, NoneExited-Roused ws ws' h a.1)

  Stirs-Alive : (pool pool' : Pool T) → Alive pool → Stirs pool pool' → Alive pool'
  Stirs-Alive pool pool' (inl stopped) h = inl (h.stop stopped)
  Stirs-Alive pool pool' (inr a) h = inr (NoneExited-Roused pool.threads pool'.threads h.threads a)

  abbrev AllAlive : Option (Pool T) → Type 0
  AllAlive none = Unit
  AllAlive (some pool) = Alive pool

  run-Alive : (pool : Pool T) (task : T) → Alive pool → AllAlive (run pool task)
  unfolding run
  run-Alive pool task a = if_Alive pool.stop _ a
    where
      if_Alive : (b : Bool) (q : Pool T) → Alive q → AllAlive (if b then none else some q)
      if_Alive true q h = tt
      if_Alive false q h = h

  pub Reachable-Alive : (num_threads : ℕ) (pool : Pool T) → Reachable num_threads pool → Alive pool
  unfolding new_pool
  Reachable-Alive n _ started = inr (none_exited n)
    where
      none_exited : (n : ℕ) → NoneExited (replicate n looping)
      none_exited zero = tt
      none_exited (suc n) = (tt, none_exited n)
  Reachable-Alive n _ (steps before pool reached step) =
      after step (Reachable-Alive n before reached)
    where
      after : {before pool : Pool T} → Step before pool → Alive before → Alive pool
      after (runs before pool task e) a = subst AllAlive e (run-Alive before task a)
      after (quits before) a = Stirs-Alive before (quit before) a (quit-Stirs before)
      after (notifies before pool i e) a =
          Stirs-Alive before pool a (notify_one-Stirs before pool i e)
      after (wakes before pool i e) a =
          Stirs-Alive before pool a (wake_spuriously-Stirs before pool i e)
      after (works before pool i e) a =
          Move-Alive before pool i a (thread_work-Move before pool i e)
