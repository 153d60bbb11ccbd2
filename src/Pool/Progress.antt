-- ===== src/Pool/Progress.antt =====
-- Whether the workers of thread_pool.hpp get all tasks done.
use cplease.Base.{
  ℕ, zero, suc, ◌+◌, ◌*◌, ◌≤◌, ◌<◌, ◌≡◌, refl, sym, ap, ◌∙◌, subst, true, false, List, [], ◌∷◌,
  ◌++◌, append-nil, length, set, get_elem?, none, some, ◌≢◌, ◌⊎◌, inl, inr, arith,
}
use mathlib.Core.Option.{none-ne-some, some-injective}
use mathlib.Core.Bool.{true≢false}
use mathlib.Core.List.{Perm}
use cplease.Word.{size_mod}
use cplease.Pool.Moves.{
  Move, loops, leaves, returns, sleeps, pops, starts, completes, ends, thread_work-Move, Rests,
  no_thread, sleeping, gone, thread_work-Rests,
}
use cplease.Pool.Steps.{busy, WellFormed, Reachable-WellFormed}
use cplease.Pool.Alive.{NotExited, NoneExited, Reachable-Alive}
use cplease.Pool.Heard.{Awake, Heard, Reachable-Heard}
use cplease.Pool.Stirs.{Notified, nobody, somebody, notify_one-Notified}
use cplease.Pool.Tasks.{in_flight, Reachable-Accounted}
use cplease.Pool.{
  Worker, looping, waiting, parked, holding, running, finished, exited, Pool, is_empty, is_idle,
  is_asleep, notify_one, thread_work, Reachable,
}

module _ {ℓ} {T : Type ℓ} where
  -- How many steps a worker can take before it sleeps.
  abbrev pub rest_of : Worker T → ℕ
  rest_of exited = 0
  rest_of parked = 0
  rest_of waiting = 1
  rest_of looping = 2
  rest_of finished = 3
  rest_of (running task) = 4
  rest_of (holding task) = 5

  abbrev pub rests_of : List (Worker T) → ℕ
  rests_of [] = 0
  rests_of (w ∷ ws) = rest_of w + rests_of ws

  -- A bound on the steps of the workers and the notifications while no task is added.
  abbrev pub remaining : Pool T → ℕ
  remaining pool = 5 * length pool.tasks + (rests_of pool.threads + 2 * pool.notifications)

  rests_of-set :
      (ws : List (Worker T)) (i : ℕ) (w w' : Worker T)
      → get_elem? ws i ≡ some w
      → rests_of (set ws i w') + rest_of w ≡ rests_of ws + rest_of w'
  rests_of-set [] i w w' h = absurd (none-ne-some w h)
  rests_of-set (x ∷ ws) zero w w' h =
      let same : rest_of x ≡ rest_of w = ap rest_of (some-injective x w h) in omega arith
  rests_of-set (x ∷ ws) (suc i) w w' h = omega (arith, rests_of-set ws i w w' h)

  Move-remaining :
      (pool pool' : Pool T) (i : ℕ) → Move pool i pool' → remaining pool' < remaining pool
  Move-remaining pool pool' i (loops h s e) =
      rw e (omega (arith, rests_of-set pool.threads i looping waiting h))
  Move-remaining pool pool' i (leaves h s e) =
      rw e (omega (arith, rests_of-set pool.threads i looping exited h))
  Move-remaining pool pool' i (returns h s e) =
      rw e (omega (arith, rests_of-set pool.threads i waiting exited h))
  Move-remaining pool pool' i (sleeps h s q e) =
      rw e (omega (arith, rests_of-set pool.threads i waiting parked h))
  Move-remaining pool pool' i (pops task tasks h q e) =
      rw (e, q) (omega (arith, rests_of-set pool.threads i waiting (holding task) h))
  Move-remaining pool pool' i (starts task h e) =
      rw e (omega (arith, rests_of-set pool.threads i (holding task) (running task) h))
  Move-remaining pool pool' i (completes task h e) =
      rw e (omega (arith, rests_of-set pool.threads i (running task) finished h))
  Move-remaining pool pool' i (ends h e) =
      rw e (omega (arith, rests_of-set pool.threads i finished looping h))

  notify_one-remaining :
      (pool pool' : Pool T) (i : ℕ)
      → notify_one pool i ≡ some pool'
      → remaining pool' < remaining pool
  notify_one-remaining pool pool' i e =
      let (some_left, notified) = notify_one-Notified pool pool' i e in
      at_case (ground arith) notified
    where
      at_case : 0 < pool.notifications → Notified pool pool' i → remaining pool' < remaining pool
      at_case some_left (nobody h made) = rw made (omega (arith, some_left))
      at_case some_left (somebody h made) =
          rw made (omega (arith, some_left, rests_of-set pool.threads i parked waiting h))

  -- A number of steps of the workers and of notifications, in any order.
  pub data Works : Pool T → ℕ → Pool T → Type ℓ where
    rest : (pool : Pool T) → Works pool 0 pool
    more :
        (pool pool' pool'' : Pool T) (i n : ℕ)
        → thread_work pool i ≡ some pool'
        → Works pool' n pool''
        → Works pool (suc n) pool''
    tell :
        (pool pool' pool'' : Pool T) (i n : ℕ)
        → notify_one pool i ≡ some pool'
        → Works pool' n pool''
        → Works pool (suc n) pool''

  Works-remaining :
      {pool pool' : Pool T} {n : ℕ} → Works pool n pool' → n + remaining pool' ≤ remaining pool
  Works-remaining (rest pool) = omega arith
  Works-remaining (more pool pool' pool'' i n e later) =
      omega (
        arith,
        Move-remaining pool pool' i (thread_work-Move pool pool' i e),
        Works-remaining later,
      )
  Works-remaining (tell pool pool' pool'' i n e later) =
      omega (arith, notify_one-remaining pool pool' i e, Works-remaining later)

  -- No worker can take a step, and no notification is still to be made.
  pub record Quiet (pool : Pool T) : Type ℓ where
    pub at_rest : (i : ℕ) → thread_work pool i ≡ none
    pub told : pool.notifications ≡ 0

  -- Such a worker sleeps, or there is none.
  abbrev Sleeps : List (Worker T) → ℕ → Type ℓ
  Sleeps ws i = (get_elem? ws i ≡ none) ⊎ (get_elem? ws i ≡ some parked)

  get_elem?-NoneExited :
      (ws : List (Worker T)) (i : ℕ) → NoneExited ws → get_elem? ws i ≢ some exited
  get_elem?-NoneExited [] i h e = none-ne-some exited e
  get_elem?-NoneExited (w ∷ ws) zero h e = subst NotExited (some-injective w exited e) h.0
  get_elem?-NoneExited (w ∷ ws) (suc i) h e = get_elem?-NoneExited ws i h.1 e

  all_sleep : (ws : List (Worker T)) → ((i : ℕ) → Sleeps ws i) → (busy ws ≡ 0) × (in_flight ws ≡ [])
  all_sleep [] h = (refl, refl)
  all_sleep (w ∷ ws) h =
      let later = all_sleep ws (λ i. h (suc i)) in
      elim (h 0) [
        | inl e ↦ absurd (none-ne-some w (sym e))
        | inr e ↦
            let here : w ≡ parked = some-injective w parked e in
            (rw (here, later.0) refl, rw (here, later.1) refl)
      ]

  Rests-Sleeps :
      (pool : Pool T) (i : ℕ) → NoneExited pool.threads → Rests pool i → Sleeps pool.threads i
  Rests-Sleeps pool i h (no_thread e) = inl e
  Rests-Sleeps pool i h (sleeping e) = inr e
  Rests-Sleeps pool i h (gone e) = absurd (get_elem?-NoneExited pool.threads i h e)

  Awake-Sleeps : (ws : List (Worker T)) (h : Awake ws) → Sleeps ws h.place → ⊥
  Awake-Sleeps ws h (inl e) = none-ne-some h.worker (sym e ∙ h.found)
  Awake-Sleeps ws h (inr e) =
      true≢false (ap is_asleep (some-injective parked h.worker (sym e ∙ h.found)) ∙ h.awake)

  Heard-tasks :
      (pool : Pool T)
      → Heard pool
      → pool.stop ≡ false
      → pool.notifications ≡ 0
      → ((i : ℕ) → Sleeps pool.threads i)
      → pool.tasks ≡ []
  Heard-tasks pool (inl stopped) going told sleep = absurd (true≢false (sym stopped ∙ going))
  Heard-tasks pool (inr (inl none_left)) going told sleep = none_left
  Heard-tasks pool (inr (inr (inl still))) going told sleep = absurd (omega arith)
  Heard-tasks pool (inr (inr (inr awake))) going told sleep =
      absurd (Awake-Sleeps pool.threads awake (sleep awake.place))

  -- The workers of a pool that is not stopped get everything done. However they are scheduled, they
  -- and the notifications take at most `remaining` steps in a row while run is not called and no
  -- worker wakes spuriously; and when all notifications were made and no worker can take a step, because
  -- all sleep, the pool is idle for wait, every task that run has taken was popped, in order,
  -- and its call has returned, once. This is for at least one thread and fewer than 2^64.
  pub Quiet-is_idle :
      (num_threads n : ℕ) (before pool : Pool T)
      → 0 < num_threads
      → num_threads < size_mod
      → Reachable num_threads pool
      → pool.stop ≡ false
      → Works before n pool
      → Quiet pool
      → (n ≤ remaining before)
        × ((is_idle pool ≡ true) × ((pool.popped ≡ pool.queued) × Perm pool.completed pool.queued))
  unfolding is_idle is_empty
  Quiet-is_idle num_threads n before pool some_thread small reached going worked quiet =
      (omega (arith, Works-remaining worked), (idle, (all_popped, done)))
    where
      wf : WellFormed num_threads pool
      wf = Reachable-WellFormed num_threads pool small reached

      stay : NoneExited pool.threads
      stay = elim (Reachable-Alive num_threads pool reached) [
        | inl stopped ↦ absurd (true≢false (sym stopped ∙ going))
        | inr h ↦ h
      ]

      sleep : (i : ℕ) → Sleeps pool.threads i
      sleep i = Rests-Sleeps pool i stay (thread_work-Rests pool i (quiet.at_rest i))

      rests : (busy pool.threads ≡ 0) × (in_flight pool.threads ≡ [])
      rests = all_sleep pool.threads sleep

      empty : pool.tasks ≡ []
      empty =
          Heard-tasks pool (Reachable-Heard num_threads pool some_thread small reached) going
            quiet.told sleep

      idle : is_idle pool ≡ true
      idle = let free : pool.busy_count ≡ 0 = wf.counted ∙ rests.0 in rw (empty, free) refl

      all_popped : pool.popped ≡ pool.queued
      all_popped =
          sym (append-nil pool.popped) ∙ (ap (λ ts. pool.popped ++ ts) (sym empty) ∙ wf.fifo)

      done : Perm pool.completed pool.queued
      done = subst (Perm pool.completed) all_popped (
          subst (λ ts. Perm ts pool.popped)
            (ap (λ ts. pool.completed ++ ts) rests.1 ∙ append-nil pool.completed)
            (Reachable-Accounted num_threads pool reached))
