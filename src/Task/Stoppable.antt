-- ===== src/Task/Stoppable.antt =====
-- packaged_task_st of packaged_task.hpp, at functions that return void: the thread that calls a task
-- passes its std::stop_token, of which nothing is assumed, as the last argument.
use cplease.Base.{ℕ, suc, ◌≡◌, false, [], ◌∷◌, ◌++◌, get_elem?, none, some}
use cplease.Future.Monad.{State, World, M, pure, ◌>>=◌, ◌>>◌, thrown, try, log_event, called}
use cplease.Future.{
  Outcome, Reply, returns, throws, invoke, make_promise, get, set_exception, result, exception,
}
use cplease.Future.Void.{VoidCallbacks, ignoring_value, set_ready}
use cplease.Future.Chain.{reply-Holds}
use cplease.Future.Get.{answer_of, Holds-map}
use cplease.Future.Preserves.{Holds}
use cplease.Task.Ready.{get-stored}

pub record PackagedTaskSt {ℓ} (A : Type ℓ) : Type ℓ where
  pub func : ℕ
  pub arguments : A
  pub promise : ℕ

abbrev pub get_future {ℓ} : {A : Type ℓ} → PackagedTaskSt A → ℕ
get_future task = task.promise

module _ {ℓ κ} {A : Type ℓ} {X : Type κ} where
  unfoldable pub new_packaged_task_st : ℕ → A → M (Unit {0}) X (PackagedTaskSt A)
  new_packaged_task_st func arguments =
      make_promise tt >>= λ p. pure (record { func = func; arguments = arguments; promise = p })

  -- The move constructor swaps the members with those of a task that has no function, default
  -- arguments and a promise of its own.
  unfoldable pub move_packaged_task_st :
      A → ℕ → PackagedTaskSt A → M (Unit {0}) X (PackagedTaskSt A × PackagedTaskSt A)
  move_packaged_task_st default no_function other = make_promise tt >>= λ p.
      pure (other, record { func = no_function; arguments = default; promise = p })

module _ {ℓ ι κ} {A : Type ℓ} {StopToken : Type ι} {X : Type κ}
    (stoppable : ℕ → A → StopToken → Reply (Unit {0}) X) (callbacks : VoidCallbacks X) where
  -- operator()
  unfoldable pub call_st : ℕ → PackagedTaskSt A → StopToken → M (Unit {0}) X (Unit {0})
  call_st fuel task thread_stop_token =
      try
        (log_event (called task.func tt)
          >> (invoke (stoppable task.func task.arguments thread_stop_token)
              >> set_ready callbacks fuel task.promise))
        (λ e. set_exception (ignoring_value callbacks) fuel task.promise e)

  abbrev ended_st : Reply (Unit {0}) X → Outcome (Unit {0}) X
  ended_st reply = elim reply as (λ _. Outcome (Unit {0}) X) [
    | returns u ↦ result u
    | throws x ↦ exception (thrown x)
  ]

  -- Such a task whose promise is new, called with enough fuel: if the call ends, get on its future
  -- returns if the function returned on the arguments and the token, and else throws what it threw.
  pub get-call_st :
      (fuel : ℕ) (task : PackagedTaskSt A) (token : StopToken) (s : State (Unit {0}) X)
      (w : World (Unit {0}) X)
      → get_elem? w.states task.promise ≡ some s
      → s.locked ≡ false
      → s.is_ready ≡ false
      → s.m_exception ≡ none
      → Holds
          (λ w'.
            get task.promise w'
            ≡ answer_of (ended_st (stoppable task.func task.arguments token)) w')
          Unit
          (call_st (suc fuel) task token w)
  unfolding call_st set_ready set_exception
  get-call_st fuel task token s w h free waits fresh =
      let logged : World (Unit {0}) X = record w { log = w.log ++ (called task.func tt ∷ []) } in
      let reply : Reply (Unit {0}) X = stoppable task.func task.arguments token in
      Holds-map _ _ (call_st (suc fuel) task token w)
        (λ w' h'. get-stored task.promise s (ended_st reply) w' free fresh h')
        (reply-Holds (ignoring_value callbacks) fuel task.promise s reply logged h free waits)
