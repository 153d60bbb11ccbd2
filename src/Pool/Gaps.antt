-- ===== src/Pool/Gaps.antt =====
-- Tasks that quit of thread_pool.hpp leaves behind.
use cplease.Base.{
  ℕ, zero, suc, ◌≡◌, refl, sym, ◌∙◌, subst, Bool, true, false, ◌||◌, List, [], ◌∷◌, set, get_elem?,
  Option, none, some, ◌⊎◌, inl, inr,
}
use cplease.Pool.Stirs.{Roused, Stirs, notify_one-Stirs, wake_spuriously-Stirs, quit-Stirs}
use cplease.Pool.{
  Worker, looping, waiting, parked, holding, running, finished, exited, Pool, run, work, put_thread,
  thread_work, Step, runs, quits, notifies, wakes, works,
}

or_true : (b : Bool) → (b || true) ≡ true
or_true true = refl
or_true false = refl

module _ {ℓ} {T : Type ℓ} where
  -- Every thread is at the head of its loop or has left it.
  abbrev pub Leaving : List (Worker T) → Type 0
  Leaving [] = Unit
  Leaving (looping ∷ ws) = Leaving ws
  Leaving (exited ∷ ws) = Leaving ws
  Leaving (waiting ∷ ws) = ⊥
  Leaving (parked ∷ ws) = ⊥
  Leaving (holding task ∷ ws) = ⊥
  Leaving (running task ∷ ws) = ⊥
  Leaving (finished ∷ ws) = ⊥

  Leaving-set : (ws : List (Worker T)) (i : ℕ) → Leaving ws → Leaving (set ws i exited)
  Leaving-set [] i h = tt
  Leaving-set (looping ∷ ws) zero h = h
  Leaving-set (exited ∷ ws) zero h = h
  Leaving-set (looping ∷ ws) (suc i) h = Leaving-set ws i h
  Leaving-set (exited ∷ ws) (suc i) h = Leaving-set ws i h
  Leaving-set (waiting ∷ ws) i h = absurd h
  Leaving-set (parked ∷ ws) i h = absurd h
  Leaving-set (holding task ∷ ws) i h = absurd h
  Leaving-set (running task ∷ ws) i h = absurd h
  Leaving-set (finished ∷ ws) i h = absurd h

  Leaving-get_elem? :
      (ws : List (Worker T)) (i : ℕ)
      → Leaving ws
      → (get_elem? ws i ≡ none) ⊎ ((get_elem? ws i ≡ some looping) ⊎ (get_elem? ws i ≡ some exited))
  Leaving-get_elem? [] i h = inl refl
  Leaving-get_elem? (looping ∷ ws) zero h = inr (inl refl)
  Leaving-get_elem? (exited ∷ ws) zero h = inr (inr refl)
  Leaving-get_elem? (looping ∷ ws) (suc i) h = Leaving-get_elem? ws i h
  Leaving-get_elem? (exited ∷ ws) (suc i) h = Leaving-get_elem? ws i h
  Leaving-get_elem? (waiting ∷ ws) i h = absurd h
  Leaving-get_elem? (parked ∷ ws) i h = absurd h
  Leaving-get_elem? (holding task ∷ ws) i h = absurd h
  Leaving-get_elem? (running task ∷ ws) i h = absurd h
  Leaving-get_elem? (finished ∷ ws) i h = absurd h

  abbrev Sleeping : Worker T → Type 0
  Sleeping parked = Unit
  Sleeping _ = ⊥

  -- The queue is as before, the pool is stopped, and its threads leave.
  abbrev pub Stranded : List T → Pool T → Type ℓ
  Stranded tasks pool = (pool.tasks ≡ tasks) × ((pool.stop ≡ true) × Leaving pool.threads)

  abbrev AllStranded : List T → Option (Pool T) → Type ℓ
  AllStranded tasks none = Unit
  AllStranded tasks (some pool) = Stranded tasks pool

  thread_work-Stranded :
      (pool : Pool T) (i : ℕ) (tasks : List T)
      → Stranded tasks pool
      → AllStranded tasks (thread_work pool i)
  unfolding thread_work work put_thread
  thread_work-Stranded pool i tasks h = elim (Leaving-get_elem? pool.threads i h.1.1) [
    | inl none_there ↦ rw none_there tt
    | inr (inl at_loop) ↦ rw (at_loop, h.1.0) (h.0, (refl, Leaving-set pool.threads i h.1.1))
    | inr (inr gone) ↦ rw gone tt
  ]

  run-Stranded :
      (pool : Pool T) (task : T) (tasks : List T)
      → Stranded tasks pool
      → AllStranded tasks (run pool task)
  unfolding run
  run-Stranded pool task tasks h = rw h.1.0 tt

  Leaving-Roused : (ws ws' : List (Worker T)) → Roused ws ws' → Leaving ws → Leaving ws'
  Leaving-Roused [] ws' h a = subst Leaving (sym h) a
  Leaving-Roused (w ∷ ws) [] h a = tt
  Leaving-Roused (looping ∷ ws) (w' ∷ ws') (inl same, h) a =
      subst (λ w. Leaving (w ∷ ws')) (sym same) (Leaving-Roused ws ws' h a)
  Leaving-Roused (exited ∷ ws) (w' ∷ ws') (inl same, h) a =
      subst (λ w. Leaving (w ∷ ws')) (sym same) (Leaving-Roused ws ws' h a)
  Leaving-Roused (looping ∷ ws) (w' ∷ ws') (inr (was, is), h) a =
      absurd (subst Sleeping (sym was) tt)
  Leaving-Roused (exited ∷ ws) (w' ∷ ws') (inr (was, is), h) a =
      absurd (subst Sleeping (sym was) tt)
  Leaving-Roused (waiting ∷ ws) (w' ∷ ws') h a = absurd a
  Leaving-Roused (parked ∷ ws) (w' ∷ ws') h a = absurd a
  Leaving-Roused (holding task ∷ ws) (w' ∷ ws') h a = absurd a
  Leaving-Roused (running task ∷ ws) (w' ∷ ws') h a = absurd a
  Leaving-Roused (finished ∷ ws) (w' ∷ ws') h a = absurd a

  Stirs-Stranded :
      (pool pool' : Pool T) (tasks : List T)
      → Stranded tasks pool
      → Stirs pool pool'
      → Stranded tasks pool'
  Stirs-Stranded pool pool' tasks (same, (stopped, leaving)) h = (
    h.tasks ∙ same,
    (h.stop stopped, Leaving-Roused pool.threads pool'.threads h.threads leaving),
  )

  -- Once the pool is stopped and its threads are at the head of their loops, the tasks that are
  -- still queued stay so: no step takes one of them, and run takes no further ones.
  pub Step-Stranded :
      (pool pool' : Pool T)
      → pool.stop ≡ true
      → Leaving pool.threads
      → Step pool pool'
      → Stranded pool.tasks pool'
  Step-Stranded pool pool' stopped leaving (runs _ _ task e) =
      subst (AllStranded pool.tasks) e
        (run-Stranded pool task pool.tasks (refl, (stopped, leaving)))
  Step-Stranded pool pool' stopped leaving (quits _) =
      Stirs-Stranded pool pool' pool.tasks (refl, (stopped, leaving)) (quit-Stirs pool)
  Step-Stranded pool pool' stopped leaving (notifies _ _ i e) =
      Stirs-Stranded pool pool' pool.tasks (refl, (stopped, leaving))
        (notify_one-Stirs pool pool' i e)
  Step-Stranded pool pool' stopped leaving (wakes _ _ i e) =
      Stirs-Stranded pool pool' pool.tasks (refl, (stopped, leaving))
        (wake_spuriously-Stirs pool pool' i e)
  Step-Stranded pool pool' stopped leaving (works _ _ i e) =
      subst (AllStranded pool.tasks) e
        (thread_work-Stranded pool i pool.tasks (refl, (stopped, leaving)))
