-- ===== src/Task.antt =====
-- include/plz/packaged_task.hpp: a function with its arguments and the promise of its result. The
-- function is one of the callbacks of Future, and its arguments are one value.
pub mod Ready
mod Stoppable
mod Examples
use cplease.Base.{ℕ, ◌≡◌, refl}
use cplease.Future.Monad.{M, pure, throw, ◌>>=◌, ◌>>◌, try, log_event, called}
use cplease.Future.{Callbacks, invoke, make_promise, set_result, set_exception, exception, result}

pub record PackagedTask {ℓ} (V : Type ℓ) : Type ℓ where
  pub func : ℕ
  pub arguments : V
  pub promise : ℕ

abbrev pub get_future {ℓ} : {V : Type ℓ} → PackagedTask V → ℕ
get_future task = task.promise

module _ {ℓ κ} {V : Type ℓ} {X : Type κ} where
  unfoldable pub new_packaged_task : V → ℕ → V → M V X (PackagedTask V)
  new_packaged_task d func arguments =
      make_promise d >>= λ p. pure (record { func = func; arguments = arguments; promise = p })

  -- The move constructor: the members of the other task, and what is left of that: no function, arguments
  -- by default, and the promise that the new task was made with.
  unfoldable pub move_packaged_task :
      V → ℕ → PackagedTask V → M V X (PackagedTask V × PackagedTask V)
  move_packaged_task d no_function other = make_promise d >>= λ p.
      pure (other, record { func = no_function; arguments = d; promise = p })

  -- operator() of a function that returns a value (void is the case V = Unit).
  unfoldable pub call : Callbacks V X → ℕ → PackagedTask V → M V X (Unit {0})
  call callbacks fuel task =
      try
        (log_event (called task.func task.arguments)
          >> (invoke (callbacks.on_value task.func task.arguments) >>= λ v.
              set_result callbacks fuel task.promise v))
        (λ e. set_exception callbacks fuel task.promise e)
