-- ===== src/Pool/Moves.antt =====
-- The steps of a worker of thread_pool.hpp, one by one.
use cplease.Base.{
  ℕ, ◌≡◌, refl, subst, Bool, true, false, not, ◌||◌, if◌then◌else◌, List, [], ◌∷◌, ◌++◌, ◌>>=◌, set,
  get_elem?, Option, none, some,
}
use cplease.Word.{add_size, sub_size}
use cplease.Pool.{
  Worker, looping, waiting, parked, holding, running, finished, exited, Pool, is_empty, pop_task,
  work, put_thread, thread_work,
}

module _ {ℓ} {T : Type ℓ} where
  -- What a step of thread i finds, and the pool that it leaves.
  pub data Move (pool : Pool T) (i : ℕ) (pool' : Pool T) : Type ℓ where
    loops :
        get_elem? pool.threads i ≡ some looping
        → pool.stop ≡ false
        → pool' ≡ record pool { threads = set pool.threads i waiting }
        → Move pool i pool'
    leaves :
        get_elem? pool.threads i ≡ some looping
        → pool.stop ≡ true
        → pool' ≡ record pool { threads = set pool.threads i exited }
        → Move pool i pool'
    returns :
        get_elem? pool.threads i ≡ some waiting
        → pool.stop ≡ true
        → pool' ≡ record pool { threads = set pool.threads i exited }
        → Move pool i pool'
    sleeps :
        get_elem? pool.threads i ≡ some waiting
        → pool.stop ≡ false
        → pool.tasks ≡ []
        → pool' ≡ record pool { threads = set pool.threads i parked }
        → Move pool i pool'
    pops :
        (task : T) (tasks : List T)
        → get_elem? pool.threads i ≡ some waiting
        → pool.tasks ≡ task ∷ tasks
        → pool' ≡ record pool {
          tasks = tasks;
          popped = pool.popped ++ (task ∷ []);
          threads = set pool.threads i (holding task);
        }
        → Move pool i pool'
    starts :
        (task : T)
        → get_elem? pool.threads i ≡ some (holding task)
        → pool' ≡ record pool {
          busy_count = add_size pool.busy_count 1;
          threads = set pool.threads i (running task);
        }
        → Move pool i pool'
    completes :
        (task : T)
        → get_elem? pool.threads i ≡ some (running task)
        → pool' ≡ record pool {
          completed = pool.completed ++ (task ∷ []);
          threads = set pool.threads i finished;
        }
        → Move pool i pool'
    ends :
        get_elem? pool.threads i ≡ some finished
        → pool' ≡ record pool {
          busy_count = sub_size pool.busy_count 1;
          threads = set pool.threads i looping;
        }
        → Move pool i pool'

  -- A worker that does not move is asleep or gone.
  pub data Rests (pool : Pool T) (i : ℕ) : Type ℓ where
    no_thread : get_elem? pool.threads i ≡ none → Rests pool i
    sleeping : get_elem? pool.threads i ≡ some parked → Rests pool i
    gone : get_elem? pool.threads i ≡ some exited → Rests pool i

  abbrev Moves : Pool T → ℕ → Option (Pool T) → Type ℓ
  Moves pool i none = Rests pool i
  Moves pool i (some pool') = Move pool i pool'

  pops_or_sleeps :
      (pool : Pool T) (i : ℕ) (tasks : List T) (stop : Bool)
      → get_elem? pool.threads i ≡ some waiting
      → pool.tasks ≡ tasks
      → pool.stop ≡ stop
      → Moves pool i (
          (if stop || not (is_empty tasks) then some (pop_task pool tasks) else some (pool, parked))
          >>= λ next. some (put_thread i next))
  unfolding is_empty pop_task put_thread
  pops_or_sleeps pool i [] true h e s = returns h s refl
  pops_or_sleeps pool i [] false h e s = sleeps h s e refl
  pops_or_sleeps pool i (task ∷ tasks) true h e s = pops task tasks h e refl
  pops_or_sleeps pool i (task ∷ tasks) false h e s = pops task tasks h e refl

  loops_or_leaves :
      (pool : Pool T) (i : ℕ) (stop : Bool)
      → get_elem? pool.threads i ≡ some looping
      → pool.stop ≡ stop
      → Move pool i
          (record pool { threads = set pool.threads i (if stop then exited else waiting) })
  loops_or_leaves pool i true h s = leaves h s refl
  loops_or_leaves pool i false h s = loops h s refl

  worker-Moves :
      (pool : Pool T) (i : ℕ) (w : Worker T)
      → get_elem? pool.threads i ≡ some w
      → Moves pool i (work pool w >>= λ next. some (put_thread i next))
  unfolding work put_thread
  worker-Moves pool i looping h = loops_or_leaves pool i pool.stop h refl
  worker-Moves pool i waiting h = pops_or_sleeps pool i pool.tasks pool.stop h refl refl
  worker-Moves pool i (holding task) h = starts task h refl
  worker-Moves pool i (running task) h = completes task h refl
  worker-Moves pool i finished h = ends h refl
  worker-Moves pool i parked h = sleeping h
  worker-Moves pool i exited h = gone h

  thread_work-Moves : (pool : Pool T) (i : ℕ) → Moves pool i (thread_work pool i)
  unfolding thread_work
  thread_work-Moves pool i = at_thread (get_elem? pool.threads i) refl
    where
      at_thread :
          (found : Option (Worker T))
          → get_elem? pool.threads i ≡ found
          → Moves pool i (found >>= λ w. work pool w >>= λ next. some (put_thread i next))
      at_thread none e = no_thread e
      at_thread (some w) e = worker-Moves pool i w e

  pub thread_work-Move :
      (pool pool' : Pool T) (i : ℕ) → thread_work pool i ≡ some pool' → Move pool i pool'
  thread_work-Move pool pool' i e = subst (Moves pool i) e (thread_work-Moves pool i)

  pub thread_work-Rests : (pool : Pool T) (i : ℕ) → thread_work pool i ≡ none → Rests pool i
  thread_work-Rests pool i e = subst (Moves pool i) e (thread_work-Moves pool i)
