-- ===== src/Future/Monad.antt =====
-- The state that futures and promises share, and the steps of a thread on it.
use cplease.Base.{
  ℕ, Bool, true, false, if◌then◌else◌, List, [], ◌∷◌, ◌++◌, set, get_elem?, Option, none, some,
}

-- The library's own runtime_error, or one that a user function throws.
pub data Exception {κ} (X : Type κ) : Type κ where
  already_ready : Exception X
  thrown : X → Exception X

-- A call of a user function: as a continuation, or as an exception handler.
pub data Event {ℓ κ} (V : Type ℓ) (X : Type κ) : Type (ℓ ⊔ κ) where
  called : ℕ → V → Event V X
  handled : ℕ → Exception X → Event V X

-- The functions that then_impl puts into m_success_handlers.
pub data SuccessHandler : Type 0 where
  -- a user function that returns void
  call_void : ℕ → SuccessHandler
  -- a user function, and the promise of the future that `then` returned
  call_value : ℕ → ℕ → SuccessHandler
  -- a user function that returns a future, and that promise
  call_future : ℕ → ℕ → SuccessHandler
  -- the lambda on such a returned future that hands its result to that promise
  forward : ℕ → SuccessHandler

-- The functions in m_exceptions_handlers.
pub data ExceptionHandler : Type 0 where
  -- the lambda that hands the exception to a promise
  pass_on : ℕ → ExceptionHandler
  -- a user function of a std::exception_ptr
  handle_any : ℕ → ExceptionHandler
  -- a user function of exceptions of a type
  handle_type : ℕ → ℕ → ExceptionHandler

-- detail::state. locked is m_mutex; there is one thread at a time.
pub record State {ℓ κ} (V : Type ℓ) (X : Type κ) : Type (ℓ ⊔ κ) where
  pub locked : Bool
  pub m_result : V
  pub is_ready : Bool
  pub m_exception : Option (Exception X)
  pub success_handlers : List SuccessHandler
  pub exceptions_handlers : List ExceptionHandler
  pub pool : Option ℕ

abbrev pub new_state {ℓ κ} : {V : Type ℓ} {X : Type κ} → V → State V X
new_state d = record {
  locked = false;
  m_result = d;
  is_ready = false;
  m_exception = none;
  success_handlers = [];
  exceptions_handlers = [];
  pool = none;
}

pub record World {ℓ κ} (V : Type ℓ) (X : Type κ) : Type (ℓ ⊔ κ) where
  pub states : List (State V X)
  pub log : List (Event V X)

-- How a step ends: with a value, by an exception, by waiting for a mutex that the thread itself
-- holds or for a state that is not ready (stuck), by the use of a state that is not there (fault),
-- or because the steps given ran out.
pub data Run {ℓ κ ι} (V : Type ℓ) (X : Type κ) (B : Type ι) : Type (ℓ ⊔ κ ⊔ ι) where
  done : B → World V X → Run V X B
  threw : Exception X → World V X → Run V X B
  stuck : Run V X B
  fault : Run V X B
  out_of_fuel : Run V X B

abbrev pub M {ℓ κ ι} : Type ℓ → Type κ → Type ι → Type (ℓ ⊔ κ ⊔ ι)
M V X B = World V X → Run V X B

module _ {ℓ κ} {V : Type ℓ} {X : Type κ} where
  infixl 5 ◌>>=◌ ◌>>◌
  abbrev pub pure {ι} : {B : Type ι} → B → M V X B
  pure b w = done b w

  abbrev pub throw {ι} : {B : Type ι} → Exception X → M V X B
  throw e w = threw e w

  abbrev pub after_run {ι ν} : {B : Type ι} {C : Type ν} → Run V X B → (B → M V X C) → Run V X C
  after_run (done b w) f = f b w
  after_run (threw e w) f = threw e w
  after_run stuck f = stuck
  after_run fault f = fault
  after_run out_of_fuel f = out_of_fuel

  abbrev pub ◌>>=◌ {ι ν} : {B : Type ι} {C : Type ν} → M V X B → (B → M V X C) → M V X C
  ◌>>=◌ m f w = after_run (m w) f

  abbrev pub ◌>>◌ {ν} : {C : Type ν} → M V X (Unit {0}) → M V X C → M V X C
  m >> k = m >>= λ _. k

  -- try { m } catch(...) { handler }
  abbrev pub catch_run {ι} : {B : Type ι} → Run V X B → (Exception X → M V X B) → Run V X B
  catch_run (done b w) handler = done b w
  catch_run (threw e w) handler = handler e w
  catch_run stuck handler = stuck
  catch_run fault handler = fault
  catch_run out_of_fuel handler = out_of_fuel

  abbrev pub try {ι} : {B : Type ι} → M V X B → (Exception X → M V X B) → M V X B
  try m handler w = catch_run (m w) handler

  -- A use of a state, or of nothing.
  abbrev pub with_state {ι} :
      {B : Type ι} → Option (State V X) → (State V X → Run V X B) → Run V X B
  with_state none f = fault
  with_state (some s) f = f s

  abbrev pub state_of : ℕ → M V X (State V X)
  state_of p w = with_state (get_elem? w.states p) λ s. done s w

  abbrev pub put_state : ℕ → State V X → World V X → World V X
  put_state p s w = record w { states = set w.states p s }

  abbrev pub update_state : ℕ → (State V X → State V X) → M V X (Unit {0})
  update_state p f w = with_state (get_elem? w.states p) λ s. done tt (put_state p (f s) w)

  abbrev pub log_event : Event V X → M V X (Unit {0})
  log_event e w = done tt (record w { log = w.log ++ (e ∷ []) })

  -- The end of the scope of a lock_guard, also when an exception leaves it.
  abbrev pub put_unlocked : Option (State V X) → ℕ → World V X → World V X
  put_unlocked none p w = w
  put_unlocked (some s) p w = put_state p (record s { locked = false }) w

  abbrev pub unlock : ℕ → World V X → World V X
  unlock p w = put_unlocked (get_elem? w.states p) p w

  abbrev pub unlock_run {ι} : {B : Type ι} → ℕ → Run V X B → Run V X B
  unlock_run p (done b w) = done b (unlock p w)
  unlock_run p (threw e w) = threw e (unlock p w)
  unlock_run p stuck = stuck
  unlock_run p fault = fault
  unlock_run p out_of_fuel = out_of_fuel

  -- `std::lock_guard lock(m_mutex);` before a body. A locked mutex is held by this thread.
  abbrev pub with_lock {ι} : {B : Type ι} → ℕ → M V X B → M V X B
  with_lock p body w = with_state (get_elem? w.states p) λ s.
      if s.locked then stuck else unlock_run p (body (put_state p (record s { locked = true }) w))
