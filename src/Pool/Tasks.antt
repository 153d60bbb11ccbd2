-- ===== src/Pool/Tasks.antt =====
-- Where the tasks that the workers of thread_pool.hpp have popped are.
use cplease.Base.{
  ℕ, zero, suc, ◌≡◌, refl, sym, ap, ap₂, ◌∙◌, subst, List, [], ◌∷◌, ◌++◌, replicate, append_assoc,
  set, get_elem?, Option, none, some, inl, inr, Bool-cases,
}
use mathlib.Core.Option.{none-ne-some, some-injective}
use mathlib.Core.List.{Perm, perm_middle, perm_append_singleton}
use mathlib.Core.List.Perm
use cplease.Future.Once.{set-set, set-get_elem?, get_elem?-set_self}
use cplease.Pool.Moves.{
  Move, loops, leaves, returns, sleeps, pops, starts, completes, ends, thread_work-Move,
}
use cplease.Pool.Stirs.{Roused, Stirs, notify_one-Stirs, wake_spuriously-Stirs, quit-Stirs}
use cplease.Pool.{
  Worker, looping, waiting, parked, holding, running, finished, exited, Pool, new_pool, run, quit,
  Step, runs, quits, notifies, wakes, works, Reachable, started, steps,
}

module _ {ℓ} {T : Type ℓ} where
  -- The task that a worker has and whose call has not returned.
  abbrev pub held : Worker T → List T
  held (holding task) = task ∷ []
  held (running task) = task ∷ []
  held _ = []

  abbrev pub in_flight : List (Worker T) → List T
  in_flight [] = []
  in_flight (w ∷ ws) = held w ++ in_flight ws

  in_flight-set :
      (ws : List (Worker T)) (i : ℕ) (w w' : Worker T)
      → get_elem? ws i ≡ some w
      → held w ≡ held w'
      → in_flight (set ws i w') ≡ in_flight ws
  in_flight-set [] i w w' h e = refl
  in_flight-set (x ∷ ws) zero w w' h e =
      ap (λ ts. ts ++ in_flight ws) (sym (ap held (some-injective x w h) ∙ e))
  in_flight-set (x ∷ ws) (suc i) w w' h e = ap (λ ts. held x ++ ts) (in_flight-set ws i w w' h e)

  in_flight-take :
      (ws : List (Worker T)) (i : ℕ) (w w' : Worker T) (task : T)
      → get_elem? ws i ≡ some w
      → held w ≡ []
      → held w' ≡ task ∷ []
      → Perm (in_flight (set ws i w')) (task ∷ in_flight ws)
  in_flight-take [] i w w' task h e e' = absurd (none-ne-some w h)
  in_flight-take (x ∷ ws) zero w w' task h e e' =
      let idle : held x ≡ [] = ap held (some-injective x w h) ∙ e in
      rw (e', idle) (Perm.refl (task ∷ in_flight ws))
  in_flight-take (x ∷ ws) (suc i) w w' task h e e' =
      Perm.trans (Perm.append_left (held x) (in_flight-take ws i w w' task h e e'))
        (perm_middle (held x) (in_flight ws))

  in_flight-drop :
      (ws : List (Worker T)) (i : ℕ) (w w' : Worker T) (task : T)
      → get_elem? ws i ≡ some w
      → held w ≡ task ∷ []
      → held w' ≡ []
      → Perm (in_flight ws) (task ∷ in_flight (set ws i w'))
  in_flight-drop ws i w w' task h e e' =
      subst (λ vs. Perm (in_flight vs) (task ∷ in_flight (set ws i w')))
        (set-set ws i w' w ∙ set-get_elem? ws i w h)
        (in_flight-take (set ws i w') i w' w task (get_elem?-set_self ws i w w' h) e' e)

  -- Every popped task is with one worker, or its call has returned.
  abbrev pub Accounted : Pool T → Type ℓ
  Accounted pool = Perm (pool.completed ++ in_flight pool.threads) pool.popped

  module _ (pool : Pool T) (i : ℕ) (acc : Accounted pool) where
    keeps :
        (w w' : Worker T)
        → get_elem? pool.threads i ≡ some w
        → held w ≡ held w'
        → Perm (pool.completed ++ in_flight (set pool.threads i w')) pool.popped
    keeps w w' h e = rw (in_flight-set pool.threads i w w' h e) acc

    takes :
        (task : T)
        → get_elem? pool.threads i ≡ some waiting
        → Perm
            (pool.completed ++ in_flight (set pool.threads i (holding task)))
            (pool.popped ++ (task ∷ []))
    takes task h =
        Perm.trans
          (Perm.append_left pool.completed
            (in_flight-take pool.threads i waiting (holding task) task h refl refl))
          (Perm.trans (perm_middle pool.completed (in_flight pool.threads))
            (Perm.trans (Perm.cons task acc) (Perm.symm (perm_append_singleton task pool.popped))))

    gives :
        (task : T)
        → get_elem? pool.threads i ≡ some (running task)
        → Perm
            ((pool.completed ++ (task ∷ [])) ++ in_flight (set pool.threads i finished))
            pool.popped
    gives task h =
        rw (append_assoc pool.completed (task ∷ []) (in_flight (set pool.threads i finished))) (
          Perm.trans
            (Perm.append_left pool.completed
              (Perm.symm (in_flight-drop pool.threads i (running task) finished task h refl refl)))
            acc)

    Move-Accounted : {pool' : Pool T} → Move pool i pool' → Accounted pool'
    Move-Accounted (loops h s e) = subst Accounted (sym e) (keeps looping waiting h refl)
    Move-Accounted (leaves h s e) = subst Accounted (sym e) (keeps looping exited h refl)
    Move-Accounted (returns h s e) = subst Accounted (sym e) (keeps waiting exited h refl)
    Move-Accounted (sleeps h s q e) = subst Accounted (sym e) (keeps waiting parked h refl)
    Move-Accounted (pops task tasks h q e) = subst Accounted (sym e) (takes task h)
    Move-Accounted (starts task h e) =
        subst Accounted (sym e) (keeps (holding task) (running task) h refl)
    Move-Accounted (completes task h e) = subst Accounted (sym e) (gives task h)
    Move-Accounted (ends h e) = subst Accounted (sym e) (keeps finished looping h refl)

  in_flight-replicate : (n : ℕ) → in_flight (replicate n looping) ≡ []
  in_flight-replicate zero = refl
  in_flight-replicate (suc n) = in_flight-replicate n

  in_flight-Roused : (ws ws' : List (Worker T)) → Roused ws ws' → in_flight ws' ≡ in_flight ws
  in_flight-Roused [] ws' h = ap in_flight h
  in_flight-Roused (w ∷ ws) [] h = ap in_flight (sym h)
  in_flight-Roused (w ∷ ws) (w' ∷ ws') (inl same, h) =
      ap₂ (λ x ts. held x ++ ts) same (in_flight-Roused ws ws' h)
  in_flight-Roused (w ∷ ws) (w' ∷ ws') (inr (was, is), h) =
      ap₂ (λ x ts. held x ++ ts) is (in_flight-Roused ws ws' h)
      ∙ ap (λ x. held x ++ in_flight ws) (sym was)

  Stirs-Accounted : (pool pool' : Pool T) → Accounted pool → Stirs pool pool' → Accounted pool'
  Stirs-Accounted pool pool' acc h =
      subst (Perm (pool'.completed ++ in_flight pool'.threads)) (sym h.popped) (
        subst (λ ts. Perm ts pool.popped)
          (sym (
            ap₂ (λ cs ts. cs ++ ts) h.completed
              (in_flight-Roused pool.threads pool'.threads h.threads)))
          acc)

  abbrev AllAccounted : Option (Pool T) → Type ℓ
  AllAccounted none = Unit
  AllAccounted (some pool) = Accounted pool

  run-Accounted : (pool : Pool T) (task : T) → Accounted pool → AllAccounted (run pool task)
  unfolding run
  run-Accounted pool task acc = elim (Bool-cases pool.stop) [
    | inl stopped ↦ rw stopped tt
    | inr going ↦ rw going acc
  ]

  pub Reachable-Accounted :
      (num_threads : ℕ) (pool : Pool T) → Reachable num_threads pool → Accounted pool
  unfolding new_pool
  Reachable-Accounted n _ started = rw (in_flight-replicate n) (Perm.refl [])
  Reachable-Accounted n _ (steps before pool reached step) =
      after step (Reachable-Accounted n before reached)
    where
      after : {before pool : Pool T} → Step before pool → Accounted before → Accounted pool
      after (runs before pool task e) acc = subst AllAccounted e (run-Accounted before task acc)
      after (quits before) acc = Stirs-Accounted before (quit before) acc (quit-Stirs before)
      after (notifies before pool i e) acc =
          Stirs-Accounted before pool acc (notify_one-Stirs before pool i e)
      after (wakes before pool i e) acc =
          Stirs-Accounted before pool acc (wake_spuriously-Stirs before pool i e)
      after (works before pool i e) acc =
          Move-Accounted before i acc (thread_work-Move before pool i e)
