-- ===== src/Pool/Wait/Beside.antt =====
-- The steps of a worker of thread_pool.hpp beside a caller of wait.
use cplease.Base.{
  ℕ, zero, suc, ◌≡◌, refl, sym, subst, Bool, true, false, ◌&&◌, if◌then◌else◌, List, [], ◌∷◌, set,
  get_elem?, none, some, >>=-eq-some, ◌>>=◌, inl, inr,
}
use mathlib.Core.Option.{none-ne-some, some-injective}
use cplease.Pool.{
  Worker, looping, waiting, parked, holding, running, finished, exited, Pool, thread_work,
}
use cplease.Pool.Stirs.{Roused}
use cplease.Pool.Moves.{Move, thread_work-Move}
use cplease.Pool.Wait.{Caller, holds_mutex, Waiting, takes_mutex, notify_idle, worker_step}

module _ {ℓ} {T : Type ℓ} where
  -- The worker has no task.
  abbrev pub AtRest : Worker T → Type 0
  AtRest looping = Unit
  AtRest waiting = Unit
  AtRest parked = Unit
  AtRest exited = Unit
  AtRest (holding task) = ⊥
  AtRest (running task) = ⊥
  AtRest finished = ⊥

  abbrev pub AllAtRest : List (Worker T) → Type 0
  AllAtRest [] = Unit
  AllAtRest (w ∷ ws) = AtRest w × AllAtRest ws

  pub AllAtRest-set :
      (ws : List (Worker T)) (i : ℕ) (w : Worker T)
      → AtRest w
      → AllAtRest ws
      → AllAtRest (set ws i w)
  AllAtRest-set [] i w r h = tt
  AllAtRest-set (x ∷ ws) zero w r h = (r, h.1)
  AllAtRest-set (x ∷ ws) (suc i) w r h = (h.0, AllAtRest-set ws i w r h.1)

  pub AllAtRest-get_elem? :
      (ws : List (Worker T)) (i : ℕ) (w : Worker T)
      → AllAtRest ws
      → get_elem? ws i ≡ some w
      → AtRest w
  AllAtRest-get_elem? [] i w h e = absurd (none-ne-some w e)
  AllAtRest-get_elem? (x ∷ ws) zero w h e = subst AtRest (some-injective x w e) h.0
  AllAtRest-get_elem? (x ∷ ws) (suc i) w h e = AllAtRest-get_elem? ws i w h.1 e

  pub AllAtRest-Roused : (ws ws' : List (Worker T)) → Roused ws ws' → AllAtRest ws → AllAtRest ws'
  AllAtRest-Roused [] ws' h a = subst AllAtRest (sym h) a
  AllAtRest-Roused (w ∷ ws) [] h a = tt
  AllAtRest-Roused (w ∷ ws) (w' ∷ ws') (inl same, h) a =
      (subst AtRest (sym same) a.0, AllAtRest-Roused ws ws' h a.1)
  AllAtRest-Roused (w ∷ ws) (w' ∷ ws') (inr (was, is), h) a =
      (subst AtRest (sym is) tt, AllAtRest-Roused ws ws' h a.1)

  -- A worker at rest notifies nobody.
  pub notify_idle-AtRest :
      (worker : Worker T) (pool : Pool T) (caller : Caller)
      → AtRest worker
      → notify_idle worker pool caller ≡ caller
  unfolding notify_idle
  notify_idle-AtRest (holding task) pool caller h = absurd h
  notify_idle-AtRest (running task) pool caller h = absurd h
  notify_idle-AtRest finished pool caller h = absurd h
  notify_idle-AtRest looping pool caller h = refl
  notify_idle-AtRest waiting pool caller h = refl
  notify_idle-AtRest parked pool caller h = refl
  notify_idle-AtRest exited pool caller h = refl

  -- What a step of a worker beside the caller consists of.
  pub record BesideStep (state : Waiting T) (i : ℕ) (state' : Waiting T) : Type ℓ where
    pub worker : Worker T
    pub pool : Pool T
    pub found : get_elem? state.pool.threads i ≡ some worker
    pub moved : Move state.pool i pool
    pub result : state' ≡ record { pool = pool; caller = notify_idle worker pool state.caller }

  pub worker_step-BesideStep :
      (state state' : Waiting T) (i : ℕ)
      → worker_step state i ≡ some state'
      → BesideStep state i state'
  unfolding worker_step
  worker_step-BesideStep state state' i e =
      let (worker, found, rest) = >>=-eq-some (get_elem? state.pool.threads i) _ e in
      at_mutex worker (takes_mutex worker && holds_mutex state.caller) found rest
    where
      at_mutex :
          (worker : Worker T) (b : Bool)
          → get_elem? state.pool.threads i ≡ some worker
          → (if b
              then none
              else (thread_work state.pool i >>= λ pool.
                  some (record { pool = pool; caller = notify_idle worker pool state.caller })))
            ≡ some state'
          → BesideStep state i state'
      at_mutex worker true found e = absurd (none-ne-some state' e)
      at_mutex worker false found e =
          let (pool, moves, last) = >>=-eq-some (thread_work state.pool i) _ e in
          record {
            worker = worker;
            pool = pool;
            found = found;
            moved = thread_work-Move state.pool pool i moves;
            result = sym (some-injective _ state' last);
          }
