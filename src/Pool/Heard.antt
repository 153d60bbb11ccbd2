-- ===== src/Pool/Heard.antt =====
-- The notifications of run and map of thread_pool.hpp reach a worker when there is a task.
use cplease.Base.{
  ℕ, ◌<◌, ◌≡◌, refl, sym, ap, ◌∙◌, subst, Bool, true, false, ◌||◌, if◌then◌else◌, List, [], ◌∷◌,
  length, set, get_elem?, Option, none, some, ◌⊎◌, inl, inr, arith,
}
use mathlib.Core.Bool.{true≢false}
use cplease.Future.Once.{get_elem?-set_self}
use cplease.Word.{size_mod}
use cplease.Pool.Moves.{
  Move, loops, leaves, returns, sleeps, pops, starts, completes, ends, thread_work-Move,
}
use cplease.Pool.Stirs.{Notified, nobody, somebody, notify_one-Notified, wake_spuriously-woken}
use cplease.Pool.Steps.{Reachable-WellFormed}
use cplease.Pool.{
  Worker, looping, waiting, parked, holding, running, finished, exited, Pool, new_pool, enqueue,
  notify_all_workers, notifying, is_asleep, any_asleep, run, quit, Step, runs, quits, notifies,
  wakes, works, Reachable, started, steps,
}

module _ {ℓ} {T : Type ℓ} where
  -- Some worker is not asleep.
  pub record Awake (ws : List (Worker T)) : Type ℓ where
    pub place : ℕ
    pub worker : Worker T
    pub found : get_elem? ws place ≡ some worker
    pub awake : is_asleep worker ≡ false

  -- The pool is stopped, or has no task, or is still to notify, or has a worker that is not asleep.
  abbrev pub Heard : Pool T → Type ℓ
  Heard pool =
      (pool.stop ≡ true) ⊎ ((pool.tasks ≡ []) ⊎ ((0 < pool.notifications) ⊎ Awake pool.threads))

  Awake-set :
      (ws : List (Worker T)) (i : ℕ) (w w' : Worker T)
      → get_elem? ws i ≡ some w
      → is_asleep w' ≡ false
      → Awake (set ws i w')
  Awake-set ws i w w' h a = record {
    place = i;
    worker = w';
    found = get_elem?-set_self ws i w w' h;
    awake = a;
  }

  set-Heard :
      (pool : Pool T) (i : ℕ) (w w' : Worker T)
      → get_elem? pool.threads i ≡ some w
      → is_asleep w' ≡ false
      → (pool' : Pool T) → pool'.threads ≡ set pool.threads i w'
      → Heard pool'
  set-Heard pool i w w' h a pool' e =
      inr (inr (inr (subst Awake (sym e) (Awake-set pool.threads i w w' h a))))

  Move-Heard : (pool pool' : Pool T) (i : ℕ) → Move pool i pool' → Heard pool'
  Move-Heard pool pool' i (loops h s e) =
      set-Heard pool i looping waiting h refl pool' (ap (λ (p : Pool T). p.threads) e)
  Move-Heard pool pool' i (leaves h s e) =
      set-Heard pool i looping exited h refl pool' (ap (λ (p : Pool T). p.threads) e)
  Move-Heard pool pool' i (returns h s e) =
      set-Heard pool i waiting exited h refl pool' (ap (λ (p : Pool T). p.threads) e)
  Move-Heard pool pool' i (sleeps h s q e) = inr (inl (ap (λ (p : Pool T). p.tasks) e ∙ q))
  Move-Heard pool pool' i (pops task tasks h q e) =
      set-Heard pool i waiting (holding task) h refl pool' (ap (λ (p : Pool T). p.threads) e)
  Move-Heard pool pool' i (starts task h e) =
      set-Heard pool i (holding task) (running task) h refl pool' (ap (λ (p : Pool T). p.threads) e)
  Move-Heard pool pool' i (completes task h e) =
      set-Heard pool i (running task) finished h refl pool' (ap (λ (p : Pool T). p.threads) e)
  Move-Heard pool pool' i (ends h e) =
      set-Heard pool i finished looping h refl pool' (ap (λ (p : Pool T). p.threads) e)

  none_asleep-Awake : (ws : List (Worker T)) → 0 < length ws → any_asleep ws ≡ false → Awake ws
  none_asleep-Awake [] some_thread h = absurd (omega arith)
  none_asleep-Awake (w ∷ ws) some_thread h = record {
    place = 0;
    worker = w;
    found = refl;
    awake = first (is_asleep w) refl h;
  }
    where
      first : (b : Bool) → is_asleep w ≡ b → (b || any_asleep ws) ≡ false → is_asleep w ≡ false
      first true e h = absurd (true≢false h)
      first false e h = e

  Notified-Heard :
      (pool pool' : Pool T) (i : ℕ) → 0 < length pool.threads → Notified pool pool' i → Heard pool'
  Notified-Heard pool pool' i some_thread (nobody h e) = inr (
      inr (
        inr (
          subst Awake (sym (ap (λ (p : Pool T). p.threads) e))
            (none_asleep-Awake pool.threads some_thread h))))
  Notified-Heard pool pool' i some_thread (somebody h e) =
      set-Heard pool i parked waiting h refl pool' (ap (λ (p : Pool T). p.threads) e)

  abbrev AllHeard : Option (Pool T) → Type ℓ
  AllHeard none = Unit
  AllHeard (some pool) = Heard pool

  run-Heard : (pool : Pool T) (task : T) → AllHeard (run pool task)
  unfolding run
  run-Heard pool task = if_Heard pool.stop
    where
      if_Heard : (b : Bool) → AllHeard (if b then none else some (notifying 1 (enqueue pool task)))
      if_Heard true = tt
      if_Heard false = inr (inr (inl (omega arith)))

  quit-Heard : (pool : Pool T) → (quit pool).stop ≡ true
  unfolding quit
  quit-Heard pool = if_stopped pool.stop refl
    where
      if_stopped :
          (b : Bool)
          → pool.stop ≡ b
          → (if b
              then pool
              else record pool { stop = true; threads = notify_all_workers pool.threads }).stop
            ≡ true
      if_stopped true e = e
      if_stopped false e = refl

  -- No wake-up is lost, however run, its notifications, quit, spurious wake-ups and the steps of at least
  -- one thread and fewer than 2^64 interleave: a pool that is not stopped and has a task is still to
  -- notify or has a worker that is not asleep.
  pub Reachable-Heard :
      (num_threads : ℕ) (pool : Pool T)
      → 0 < num_threads
      → num_threads < size_mod
      → Reachable num_threads pool
      → Heard pool
  unfolding new_pool
  Reachable-Heard n _ some_thread small started = inr (inl refl)
  Reachable-Heard n _ some_thread small (steps before pool reached step) = after step
    where
      size : length before.threads ≡ n
      size = (Reachable-WellFormed n before small reached).as_many

      after : {pool : Pool T} → Step before pool → Heard pool
      after (runs _ pool task e) = subst AllHeard e (run-Heard before task)
      after (quits _) = inl (quit-Heard before)
      after (notifies _ pool i e) =
          Notified-Heard before pool i (omega (arith, size)) (notify_one-Notified before pool i e).1
      after (wakes _ pool i e) =
          let (found, made) = wake_spuriously-woken before pool i e in
          set-Heard before i parked waiting found refl pool (ap (λ (p : Pool T). p.threads) made)
      after (works _ pool i e) = Move-Heard before pool i (thread_work-Move before pool i e)
