-- ===== src/Future.antt =====
-- include/plz/future.hpp: shared states, futures and promises. The shared states stand in a list and
-- are named by their place in it; the values are of one type V, and state<void> is the case V = Unit.
-- User functions are named by numbers: what they do is a parameter, and each call is logged. They
-- may throw, and may return the future of a state that is there; they do not use the library else.
pub mod Monad
pub mod Preserves
pub mod Stable
pub mod Ends
pub mod Ready
pub mod Returns
pub mod Fuel
pub mod Once
pub mod Kept
pub mod Then
pub mod Chain
pub mod Get
mod Handlers
pub mod Void
mod Examples
use Monad.{
  Exception, already_ready, thrown, Event, called, handled, State, SuccessHandler, call_void,
  call_value, call_future, forward, ExceptionHandler, pass_on, handle_any, handle_type, World, M,
  done, threw, stuck, fault, out_of_fuel, pure, throw, ◌>>=◌, ◌>>◌, try, state_of, put_state,
  update_state, log_event, with_lock, new_state,
}
use cplease.Base.{
  ℕ, zero, suc, Bool, true, false, if◌then◌else◌, List, [], ◌∷◌, ◌++◌, length, Option, none, some,
}

-- What a user function does at an argument.
pub data Reply {ℓ κ} (B : Type ℓ) (X : Type κ) : Type (ℓ ⊔ κ) where
  returns : B → Reply B X
  throws : X → Reply B X

-- The functions of the program that uses the library.
pub record Callbacks {ℓ κ} (V : Type ℓ) (X : Type κ) : Type (ℓ ⊔ κ) where
  pub on_void : ℕ → V → Reply (Unit {0}) X
  pub on_value : ℕ → V → Reply V X
  pub on_future : ℕ → V → Reply ℕ X
  pub on_error : ℕ → Exception X → Reply (Unit {0}) X
  -- whether an exception is caught by `catch(const ExceptionType&)`
  pub is_a : ℕ → Exception X → Bool

-- What a promise is fulfilled with: by set_result (or set_ready) or by set_exception.
pub data Outcome {ℓ κ} (V : Type ℓ) (X : Type κ) : Type (ℓ ⊔ κ) where
  result : V → Outcome V X
  exception : Exception X → Outcome V X

module _ {ℓ κ} {V : Type ℓ} {X : Type κ} where
  -- std::invoke of a user function.
  abbrev pub invoke {ι} : {B : Type ι} → Reply B X → M V X B
  invoke (returns b) = pure b
  invoke (throws x) = throw (thrown x)

  -- then_impl of a function that returns void.
  unfoldable pub then_void : ℕ → SuccessHandler → M V X (Unit {0})
  then_void p callback =
      with_lock p
        (update_state p λ s. record s { success_handlers = s.success_handlers ++ (callback ∷ []) })

  -- on_error_impl: the handler of a function of a std::exception_ptr, or of exceptions of a type.
  unfoldable pub on_exception : ℕ → ExceptionHandler → M V X (Unit {0})
  on_exception p handler = with_lock p (
      update_state p
        λ s. record s { exceptions_handlers = s.exceptions_handlers ++ (handler ∷ []) })

  -- The state of a new promise has the next name.
  unfoldable pub make_promise : V → M V X ℕ
  make_promise d w = done (length w.states) (record w { states = w.states ++ (new_state d ∷ []) })

  abbrev add_continuation : ℕ → SuccessHandler → ExceptionHandler → M V X (Unit {0})
  add_continuation p callback handler = update_state p λ s. record s {
    success_handlers = s.success_handlers ++ (callback ∷ []);
    exceptions_handlers = s.exceptions_handlers ++ (handler ∷ []);
  }

  abbrev copy_pool : ℕ → ℕ → M V X (Unit {0})
  copy_pool p q = state_of p >>= λ s. update_state q λ t. record t { pool = s.pool }

  -- then_impl of a function that returns a future: a promise of that future's result.
  unfoldable pub then_future : V → ℕ → ℕ → M V X ℕ
  then_future d p func = make_promise d >>= λ q.
      copy_pool p q >> with_lock p (add_continuation p (call_future func q) (pass_on q)) >> pure q

  -- then_impl of another function: a promise of its result.
  unfoldable pub then_value : V → ℕ → ℕ → M V X ℕ
  then_value d p func = with_lock p (
      make_promise d >>= λ q.
      copy_pool p q >> add_continuation p (call_value func q) (pass_on q) >> pure q)

  -- m_result or m_exception, and m_is_ready.
  abbrev pub store : Outcome V X → State V X → State V X
  store (result v) s = record s { m_result = v; is_ready = true }
  store (exception e) s = record s { m_exception = some e; is_ready = true }

module _ {ℓ κ} {V : Type ℓ} {X : Type κ} (callbacks : Callbacks V X) where
  -- A call of an element of m_success_handlers. The promises of continuations are fulfilled by
  -- `fulfil`, which is set_result, set_ready or set_exception.
  unfoldable pub invoke_success :
      (ℕ → Outcome V X → M V X (Unit {0})) → SuccessHandler → V → M V X (Unit {0})
  invoke_success fulfil (call_void f) v = log_event (called f v) >> invoke (callbacks.on_void f v)
  invoke_success fulfil (call_value f q) v =
      try (log_event (called f v) >> (invoke (callbacks.on_value f v) >>= λ b. fulfil q (result b)))
        (λ e. fulfil q (exception e))
  invoke_success fulfil (call_future f q) v =
      try
        (log_event (called f v)
          >> (invoke (callbacks.on_future f v) >>= λ r.
              then_void r (forward q) >> on_exception r (pass_on q)))
        (λ e. fulfil q (exception e))
  invoke_success fulfil (forward q) v = fulfil q (result v)

  -- A call of an element of m_exceptions_handlers: whether it handled the exception.
  unfoldable pub invoke_handler :
      (ℕ → Outcome V X → M V X (Unit {0})) → ExceptionHandler → Exception X → M V X Bool
  invoke_handler fulfil (pass_on q) e = fulfil q (exception e) >> pure true
  invoke_handler fulfil (handle_any f) e =
      log_event (handled f e) >> invoke (callbacks.on_error f e) >> pure true
  invoke_handler fulfil (handle_type f ty) e =
      if callbacks.is_a ty e
      then log_event (handled f e) >> invoke (callbacks.on_error f e) >> pure true
      else pure false

  unfoldable pub run_handlers :
      (ℕ → Outcome V X → M V X (Unit {0})) → List SuccessHandler → V → M V X (Unit {0})
  run_handlers fulfil [] v = pure tt
  run_handlers fulfil (h ∷ hs) v = invoke_success fulfil h v >> run_handlers fulfil hs v

  -- The loop stops at the first handler that handled the exception.
  unfoldable pub run_exceptions :
      (ℕ → Outcome V X → M V X (Unit {0})) → List ExceptionHandler → Exception X → M V X (Unit {0})
  run_exceptions fulfil [] e = pure tt
  run_exceptions fulfil (h ∷ hs) e = invoke_handler fulfil h e >>= λ was_handled.
      if was_handled then pure tt else run_exceptions fulfil hs e

  unfoldable pub on_ready : (ℕ → Outcome V X → M V X (Unit {0})) → ℕ → M V X (Unit {0})
  on_ready fulfil p = state_of p >>= λ s. elim s.m_exception [
    | none ↦ run_handlers fulfil s.success_handlers s.m_result
    | some e ↦ run_exceptions fulfil s.exceptions_handlers e
  ]

  -- The body of set_result, set_ready and set_exception.
  unfoldable pub settle_locked :
      (ℕ → Outcome V X → M V X (Unit {0})) → ℕ → Outcome V X → M V X (Unit {0})
  settle_locked fulfil p outcome = state_of p >>= λ s.
      if s.is_ready
      then throw already_ready
      else update_state p (store outcome) >> on_ready fulfil p

  -- The fuel bounds how deep continuations fulfil promises.
  unfoldable pub settle : ℕ → ℕ → Outcome V X → M V X (Unit {0})
  settle zero p outcome = λ w. out_of_fuel
  settle (suc fuel) p outcome = with_lock p (settle_locked (settle fuel) p outcome)

  unfoldable pub set_result : ℕ → ℕ → V → M V X (Unit {0})
  set_result fuel p v = settle fuel p (result v)

  unfoldable pub set_exception : ℕ → ℕ → Exception X → M V X (Unit {0})
  set_exception fuel p e = settle fuel p (exception e)

module _ {ℓ κ} {V : Type ℓ} {X : Type κ} where
  -- Inside the lock, after the wait.
  abbrev pub ready_state : ℕ → M V X (State V X)
  ready_state p = state_of p >>= λ s. if s.is_ready then pure s else λ w. stuck

  unfoldable pub get : ℕ → M V X V
  get p =
      with_lock p
        (ready_state p >>= λ s. elim s.m_exception [ none ↦ pure s.m_result | some e ↦ throw e ])

  -- The result is moved out: moved is what a move leaves of a value.
  unfoldable pub take : (V → V) → ℕ → M V X V
  take moved p = with_lock p (
      ready_state p >>= λ s.
      update_state p (λ t. record t { is_ready = false; m_result = moved t.m_result })
      >> pure s.m_result)
