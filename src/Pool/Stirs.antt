-- ===== src/Pool/Stirs.antt =====
-- What wakes the workers of thread_pool.hpp: notify_one, notify_all_workers and spurious wake-ups.
use cplease.Base.{
  ℕ, zero, suc, ◌-◌, ◌≡◌, refl, sym, ◌∙◌, subst, Bool, true, false, if◌then◌else◌, ◌==◌, List, [],
  ◌∷◌, set, get_elem?, Option, none, some, ◌>>=◌, ◌⊎◌, inl, inr, Bool-cases,
}
use mathlib.Core.Option.{none-ne-some, some-injective}
use mathlib.Core.List.{cons-ne-nil}
use cplease.Pool.{
  Worker, looping, waiting, parked, holding, running, finished, exited, Pool, is_asleep, any_asleep,
  notify_one, wake_spuriously, notify_all_workers, quit,
}

module _ {ℓ} {T : Type ℓ} where
  -- Some of the workers that are asleep wake.
  abbrev pub Roused : List (Worker T) → List (Worker T) → Type ℓ
  Roused [] ws' = ws' ≡ []
  Roused (w ∷ ws) [] = w ∷ ws ≡ []
  Roused (w ∷ ws) (w' ∷ ws') = ((w' ≡ w) ⊎ ((w ≡ parked) × (w' ≡ waiting))) × Roused ws ws'

  pub Roused-refl : (ws : List (Worker T)) → Roused ws ws
  Roused-refl [] = refl
  Roused-refl (w ∷ ws) = (inl refl, Roused-refl ws)

  Roused-set :
      (ws : List (Worker T)) (i : ℕ) → get_elem? ws i ≡ some parked → Roused ws (set ws i waiting)
  Roused-set [] i h = refl
  Roused-set (w ∷ ws) zero h = (inr (some-injective w parked h, refl), Roused-refl ws)
  Roused-set (w ∷ ws) (suc i) h = (inl refl, Roused-set ws i h)

  Roused-notify_all : (ws : List (Worker T)) → Roused ws (notify_all_workers ws)
  Roused-notify_all [] = refl
  Roused-notify_all (parked ∷ ws) = (inr (refl, refl), Roused-notify_all ws)
  Roused-notify_all (looping ∷ ws) = (inl refl, Roused-notify_all ws)
  Roused-notify_all (waiting ∷ ws) = (inl refl, Roused-notify_all ws)
  Roused-notify_all (holding task ∷ ws) = (inl refl, Roused-notify_all ws)
  Roused-notify_all (running task ∷ ws) = (inl refl, Roused-notify_all ws)
  Roused-notify_all (finished ∷ ws) = (inl refl, Roused-notify_all ws)
  Roused-notify_all (exited ∷ ws) = (inl refl, Roused-notify_all ws)

  pub get_elem?-Roused :
      (ws ws' : List (Worker T)) (i : ℕ) (w : Worker T)
      → Roused ws ws'
      → get_elem? ws' i ≡ some w
      → (get_elem? ws i ≡ some w) ⊎ (w ≡ waiting)
  get_elem?-Roused [] ws' i w h e = inl (subst (λ vs. get_elem? vs i ≡ some w) h e)
  get_elem?-Roused (x ∷ ws) [] i w h e = absurd (cons-ne-nil x ws h)
  get_elem?-Roused (x ∷ ws) (x' ∷ ws') zero w (inl same, h) e =
      inl (subst (λ y. some y ≡ some w) same e)
  get_elem?-Roused (x ∷ ws) (x' ∷ ws') zero w (inr (was, is), h) e =
      inr (sym (some-injective x' w e) ∙ is)
  get_elem?-Roused (x ∷ ws) (x' ∷ ws') (suc i) w h e = get_elem?-Roused ws ws' i w h.1 e

  -- Only workers wake, and the pool may be stopped.
  pub record Stirs (pool pool' : Pool T) : Type ℓ where
    pub tasks : pool'.tasks ≡ pool.tasks
    pub busy_count : pool'.busy_count ≡ pool.busy_count
    pub queued : pool'.queued ≡ pool.queued
    pub popped : pool'.popped ≡ pool.popped
    pub completed : pool'.completed ≡ pool.completed
    pub stop : pool.stop ≡ true → pool'.stop ≡ true
    pub threads : Roused pool.threads pool'.threads

  woken-Stirs :
      (pool : Pool T) (n : ℕ) (ws : List (Worker T))
      → Roused pool.threads ws
      → Stirs pool (record pool { notifications = n; threads = ws })
  woken-Stirs pool n ws h = record {
    tasks = refl;
    busy_count = refl;
    queued = refl;
    popped = refl;
    completed = refl;
    stop = λ e. e;
    threads = h;
  }

  -- The one worker that a wake-up takes.
  woken_worker :
      (pool pool' : Pool T) (n i : ℕ)
      → (get_elem? pool.threads i >>= λ worker.
          if is_asleep worker
          then some (record pool { notifications = n; threads = set pool.threads i waiting })
          else none)
        ≡ some pool'
      → (get_elem? pool.threads i ≡ some parked)
        × (pool' ≡ record pool { notifications = n; threads = set pool.threads i waiting })
  woken_worker pool pool' n i e = at_thread (get_elem? pool.threads i) refl e
    where
      goal : Type ℓ
      goal =
          (get_elem? pool.threads i ≡ some parked)
          × (pool' ≡ record pool { notifications = n; threads = set pool.threads i waiting })

      at_thread :
          (found : Option (Worker T))
          → get_elem? pool.threads i ≡ found
          → (found >>= λ worker.
              if is_asleep worker
              then some (record pool { notifications = n; threads = set pool.threads i waiting })
              else none)
            ≡ some pool'
          → goal
      at_thread none at_i e = absurd (none-ne-some pool' e)
      at_thread (some parked) at_i e = (at_i, sym (some-injective _ pool' e))
      at_thread (some looping) at_i e = absurd (none-ne-some pool' e)
      at_thread (some waiting) at_i e = absurd (none-ne-some pool' e)
      at_thread (some (holding task)) at_i e = absurd (none-ne-some pool' e)
      at_thread (some (running task)) at_i e = absurd (none-ne-some pool' e)
      at_thread (some finished) at_i e = absurd (none-ne-some pool' e)
      at_thread (some exited) at_i e = absurd (none-ne-some pool' e)

  -- What a call of notify_one does.
  pub data Notified (pool pool' : Pool T) (i : ℕ) : Type ℓ where
    nobody :
        any_asleep pool.threads ≡ false
        → pool' ≡ record pool { notifications = pool.notifications - 1 }
        → Notified pool pool' i
    somebody :
        get_elem? pool.threads i ≡ some parked
        → pool' ≡ record pool {
          notifications = pool.notifications - 1;
          threads = set pool.threads i waiting;
        }
        → Notified pool pool' i

  pub notify_one-Notified :
      (pool pool' : Pool T) (i : ℕ)
      → notify_one pool i ≡ some pool'
      → (pool.notifications == 0 ≡ false) × Notified pool pool' i
  unfolding notify_one
  notify_one-Notified pool pool' i e = elim (Bool-cases (pool.notifications == 0)) [
    | inl none_left ↦ absurd (none-ne-some pool' (sym (rw (notify_one, none_left) refl) ∙ e))
    | inr some_left ↦ elim (Bool-cases (any_asleep pool.threads)) [
      | inl some_asleep ↦
          let (found, made) =
            woken_worker pool pool' (pool.notifications - 1) i
              (sym (rw (notify_one, some_left, some_asleep) refl) ∙ e) in
          (some_left, somebody found made)
      | inr none_asleep ↦ (
        some_left,
        nobody none_asleep
            (sym (some-injective _ pool' (sym (rw (notify_one, some_left, none_asleep) refl) ∙ e))),
      )
    ]
  ]

  pub wake_spuriously-woken :
      (pool pool' : Pool T) (i : ℕ)
      → wake_spuriously pool i ≡ some pool'
      → (get_elem? pool.threads i ≡ some parked)
        × (pool' ≡ record pool { threads = set pool.threads i waiting })
  unfolding wake_spuriously
  wake_spuriously-woken pool pool' i e = woken_worker pool pool' pool.notifications i e

  pub notify_one-Stirs :
      (pool pool' : Pool T) (i : ℕ) → notify_one pool i ≡ some pool' → Stirs pool pool'
  notify_one-Stirs pool pool' i e = at_case (notify_one-Notified pool pool' i e).1
    where
      at_case : Notified pool pool' i → Stirs pool pool'
      at_case (nobody h made) =
          subst (Stirs pool) (sym made) (woken-Stirs pool _ pool.threads (Roused-refl pool.threads))
      at_case (somebody h made) =
          subst (Stirs pool) (sym made)
            (woken-Stirs pool _ (set pool.threads i waiting) (Roused-set pool.threads i h))

  pub wake_spuriously-Stirs :
      (pool pool' : Pool T) (i : ℕ) → wake_spuriously pool i ≡ some pool' → Stirs pool pool'
  wake_spuriously-Stirs pool pool' i e =
      let (found, made) = wake_spuriously-woken pool pool' i e in
      subst (Stirs pool) (sym made) (
        woken-Stirs pool pool.notifications (set pool.threads i waiting)
          (Roused-set pool.threads i found))

  pub quit-Stirs : (pool : Pool T) → Stirs pool (quit pool)
  unfolding quit
  quit-Stirs pool = at_stop pool.stop refl
    where
      at_stop :
          (b : Bool)
          → pool.stop ≡ b
          → Stirs pool (
              if b
              then pool
              else record pool { stop = true; threads = notify_all_workers pool.threads })
      at_stop true e = woken-Stirs pool pool.notifications pool.threads (Roused-refl pool.threads)
      at_stop false e = record {
        tasks = refl;
        busy_count = refl;
        queued = refl;
        popped = refl;
        completed = refl;
        stop = λ h. refl;
        threads = Roused-notify_all pool.threads;
      }
