-- ===== src/Future/Void.antt =====
-- The specialization state<void> of future.hpp: its functions have no argument, and a promise of void
-- is fulfilled by set_ready.
use cplease.Base.{ℕ, Bool}
use cplease.Future.Monad.{Exception, M, SuccessHandler, ExceptionHandler}
use cplease.Future.{Callbacks, Outcome, result, Reply, returns}
use cplease.Future

-- Functions of no argument, and the exception handlers.
pub record VoidCallbacks {κ} (X : Type κ) : Type κ where
  pub on_void : ℕ → Reply (Unit {0}) X
  pub on_future : ℕ → Reply ℕ X
  pub on_error : ℕ → Exception X → Reply (Unit {0}) X
  pub is_a : ℕ → Exception X → Bool

module _ {κ} {X : Type κ} where
  -- Such functions as functions of the one value of Unit.
  abbrev pub ignoring_value : VoidCallbacks X → Callbacks (Unit {0}) X
  ignoring_value callbacks = record {
    on_void = λ f v. callbacks.on_void f;
    on_value = λ f v. callbacks.on_void f;
    on_future = λ f v. callbacks.on_future f;
    on_error = callbacks.on_error;
    is_a = callbacks.is_a;
  }

  unfoldable pub then_void : ℕ → SuccessHandler → M (Unit {0}) X (Unit {0})
  then_void = Future.then_void

  unfoldable pub then_future : ℕ → ℕ → M (Unit {0}) X ℕ
  then_future = Future.then_future tt

  unfoldable pub then_value : ℕ → ℕ → M (Unit {0}) X ℕ
  then_value = Future.then_value tt

  unfoldable pub on_exception : ℕ → ExceptionHandler → M (Unit {0}) X (Unit {0})
  on_exception = Future.on_exception

  unfoldable pub set_ready : VoidCallbacks X → ℕ → ℕ → M (Unit {0}) X (Unit {0})
  set_ready callbacks fuel p = Future.settle (ignoring_value callbacks) fuel p (result tt)
