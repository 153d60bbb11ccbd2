-- ===== src/Future/Preserves.antt =====
-- Properties of the shared states of future.hpp that continuations and handlers preserve.
use cplease.Base.{
  ℕ, ◌≡◌, refl, Bool, true, false, if◌then◌else◌, List, [], ◌∷◌, get_elem?, Option, none, some,
}
use cplease.Future.Monad.{
  unlock, unlock_run, Event, called, handled, with_state, Exception, State, World, M, Run, done,
  threw, stuck, fault, out_of_fuel, pure, ◌>>=◌, ◌>>◌, try, catch_run, after_run, log_event,
  SuccessHandler, call_void, call_value, call_future, forward, ExceptionHandler, pass_on,
  handle_any, handle_type,
}
use cplease.Future.{
  Callbacks, Outcome, result, exception, Reply, returns, throws, then_void, on_exception, invoke,
  invoke_success, invoke_handler, run_handlers, run_exceptions, on_ready,
}

module _ {ℓ κ μ} {V : Type ℓ} {X : Type κ} (P : World V X → Type μ) (E : Type μ) where
  -- The states that a step ends with have P; a step whose fuel ran out is held to E instead.
  abbrev pub Holds {ι} : {B : Type ι} → Run V X B → Type μ
  Holds (done b w) = P w
  Holds (threw e w) = P w
  Holds stuck = Unit
  Holds fault = Unit
  Holds out_of_fuel = E

  abbrev pub Preserves {ι} : {B : Type ι} → M V X B → Type (ℓ ⊔ κ ⊔ μ)
  Preserves m = (w : World V X) → P w → Holds (m w)

  pub after_run-Holds {ι ν} :
      {B : Type ι} {C : Type ν} (r : Run V X B) (f : B → M V X C)
      → Holds r
      → ((b : B) → Preserves (f b))
      → Holds (after_run r f)
  after_run-Holds (done b w) f h hf = hf b w h
  after_run-Holds (threw e w) f h hf = h
  after_run-Holds stuck f h hf = tt
  after_run-Holds fault f h hf = tt
  after_run-Holds out_of_fuel f h hf = h

  pub >>=-Preserves {ι ν} :
      {B : Type ι} {C : Type ν} (m : M V X B) (f : B → M V X C)
      → Preserves m
      → ((b : B) → Preserves (f b))
      → Preserves (m >>= f)
  >>=-Preserves m f hm hf w h = after_run-Holds (m w) f (hm w h) hf

  pub >>-Preserves {ν} :
      {C : Type ν} (m : M V X (Unit {0})) (n : M V X C)
      → Preserves m
      → Preserves n
      → Preserves (m >> n)
  >>-Preserves m n hm hn = >>=-Preserves m (λ _. n) hm (λ _. hn)

  pub catch_run-Holds {ι} :
      {B : Type ι} (r : Run V X B) (handler : Exception X → M V X B)
      → Holds r
      → ((e : Exception X) → Preserves (handler e))
      → Holds (catch_run r handler)
  catch_run-Holds (done b w) handler h hf = h
  catch_run-Holds (threw e w) handler h hf = hf e w h
  catch_run-Holds stuck handler h hf = tt
  catch_run-Holds fault handler h hf = tt
  catch_run-Holds out_of_fuel handler h hf = h

  pub try-Preserves {ι} :
      {B : Type ι} (m : M V X B) (handler : Exception X → M V X B)
      → Preserves m
      → ((e : Exception X) → Preserves (handler e))
      → Preserves (try m handler)
  try-Preserves m handler hm hf w h = catch_run-Holds (m w) handler (hm w h) hf

  pub with_state-Holds {ι} :
      {B : Type ι} (o : Option (State V X)) (f : State V X → Run V X B)
      → ((s : State V X) → o ≡ some s → Holds (f s))
      → Holds (with_state o f)
  with_state-Holds none f hf = tt
  with_state-Holds (some s) f hf = hf s refl

  pub if_Holds {ι} :
      {B : Type ι} (b : Bool) (r q : Run V X B) → Holds r → Holds q → Holds (if b then r else q)
  if_Holds true r q hr hq = hr
  if_Holds false r q hr hq = hq

  pub if_Preserves {ι} :
      {B : Type ι} (b : Bool) (m n : M V X B)
      → Preserves m
      → Preserves n
      → Preserves (if b then m else n)
  if_Preserves true m n hm hn = hm
  if_Preserves false m n hm hn = hn

  pub unlock_run-Holds {ι} :
      {B : Type ι} (p : ℕ) (r : Run V X B)
      → ((w : World V X) → P w → P (unlock p w))
      → Holds r
      → Holds (unlock_run p r)
  unlock_run-Holds p (done b w) keeps h = keeps w h
  unlock_run-Holds p (threw e w) keeps h = keeps w h
  unlock_run-Holds p stuck keeps h = h
  unlock_run-Holds p fault keeps h = h
  unlock_run-Holds p out_of_fuel keeps h = h

-- What continuations and handlers do to the states, other than to fulfil promises.
pub record Laws {ℓ κ μ} {V : Type ℓ} {X : Type κ} (P : World V X → Type μ) (E : Type μ)
    : Type (ℓ ⊔ κ ⊔ μ) where
  pub log_event-Preserves : (e : Event V X) → Preserves P E (log_event e)
  pub then_void-Preserves : (p : ℕ) (h : SuccessHandler) → Preserves P E (then_void p h)
  pub on_exception-Preserves : (p : ℕ) (h : ExceptionHandler) → Preserves P E (on_exception p h)

module _ {ℓ κ μ} {V : Type ℓ} {X : Type κ} (P : World V X → Type μ) (E : Type μ) (laws : Laws P E)
    (callbacks : Callbacks V X) where
  pub invoke-Preserves {ι} : {B : Type ι} (r : Reply B X) → Preserves P E (invoke r)
  invoke-Preserves (returns b) w h = h
  invoke-Preserves (throws x) w h = h

  invoke_success-Preserves :
      (fulfil : ℕ → Outcome V X → M V X (Unit {0}))
      → ((q : ℕ) (o : Outcome V X) → Preserves P E (fulfil q o))
      → (h : SuccessHandler) (v : V) → Preserves P E (invoke_success callbacks fulfil h v)
  unfolding invoke_success
  invoke_success-Preserves fulfil hf (call_void f) v =
      >>-Preserves P E (log_event (called f v)) _ (laws.log_event-Preserves (called f v))
        (invoke-Preserves (callbacks.on_void f v))
  invoke_success-Preserves fulfil hf (call_value f q) v =
      try-Preserves P E _ _
        (>>-Preserves P E (log_event (called f v)) _ (laws.log_event-Preserves (called f v))
          (>>=-Preserves P E _ _ (invoke-Preserves (callbacks.on_value f v)) λ b. hf q (result b)))
        λ e. hf q (exception e)
  invoke_success-Preserves fulfil hf (call_future f q) v =
      try-Preserves P E _ _
        (>>-Preserves P E (log_event (called f v)) _ (laws.log_event-Preserves (called f v)) (
          >>=-Preserves P E _ _ (invoke-Preserves (callbacks.on_future f v)) λ r.
            >>-Preserves P E _ _ (laws.then_void-Preserves r (forward q))
              (laws.on_exception-Preserves r (pass_on q))))
        λ e. hf q (exception e)
  invoke_success-Preserves fulfil hf (forward q) v = hf q (result v)

  handled-Preserves :
      (f : ℕ) (e : Exception X)
      → Preserves P E (log_event (handled f e) >> invoke (callbacks.on_error f e))
  handled-Preserves f e =
      >>-Preserves P E (log_event (handled f e)) _ (laws.log_event-Preserves (handled f e))
        (invoke-Preserves (callbacks.on_error f e))

  invoke_handler-Preserves :
      (fulfil : ℕ → Outcome V X → M V X (Unit {0}))
      → ((q : ℕ) (o : Outcome V X) → Preserves P E (fulfil q o))
      → (h : ExceptionHandler) (e : Exception X)
      → Preserves P E (invoke_handler callbacks fulfil h e)
  unfolding invoke_handler
  invoke_handler-Preserves fulfil hf (pass_on q) e =
      >>-Preserves P E (fulfil q (exception e)) (pure true) (hf q (exception e)) λ w h. h
  invoke_handler-Preserves fulfil hf (handle_any f) e =
      >>-Preserves P E (log_event (handled f e) >> invoke (callbacks.on_error f e)) (pure true)
        (handled-Preserves f e) λ w h. h
  invoke_handler-Preserves fulfil hf (handle_type f ty) e =
      if_Preserves P E (callbacks.is_a ty e) _ _
        (>>-Preserves P E (log_event (handled f e) >> invoke (callbacks.on_error f e)) (pure true)
          (handled-Preserves f e) λ w h. h)
        λ w h. h

  run_handlers-Preserves :
      (fulfil : ℕ → Outcome V X → M V X (Unit {0}))
      → ((q : ℕ) (o : Outcome V X) → Preserves P E (fulfil q o))
      → (hs : List SuccessHandler) (v : V) → Preserves P E (run_handlers callbacks fulfil hs v)
  unfolding run_handlers
  run_handlers-Preserves fulfil hf [] v = λ w h. h
  run_handlers-Preserves fulfil hf (h ∷ hs) v =
      >>-Preserves P E _ _ (invoke_success-Preserves fulfil hf h v)
        (run_handlers-Preserves fulfil hf hs v)

  run_exceptions-Preserves :
      (fulfil : ℕ → Outcome V X → M V X (Unit {0}))
      → ((q : ℕ) (o : Outcome V X) → Preserves P E (fulfil q o))
      → (hs : List ExceptionHandler) (e : Exception X)
      → Preserves P E (run_exceptions callbacks fulfil hs e)
  unfolding run_exceptions
  run_exceptions-Preserves fulfil hf [] e = λ w h. h
  run_exceptions-Preserves fulfil hf (h ∷ hs) e =
      >>=-Preserves P E _ _ (invoke_handler-Preserves fulfil hf h e)
        λ b. if_Preserves P E b _ _ (λ w h. h) (run_exceptions-Preserves fulfil hf hs e)

  pub on_ready-Preserves :
      (fulfil : ℕ → Outcome V X → M V X (Unit {0}))
      → ((q : ℕ) (o : Outcome V X) → Preserves P E (fulfil q o))
      → (p : ℕ) → Preserves P E (on_ready callbacks fulfil p)
  unfolding on_ready
  on_ready-Preserves fulfil hf p =
      >>=-Preserves P E _ _ (λ w h. with_state-Holds P E (get_elem? w.states p) _ λ s e. h)
        λ s. handlers-Preserves s s.m_exception
    where
      handlers-Preserves :
          (s : State V X) (o : Option (Exception X))
          → Preserves P E (elim o as (λ _. M V X (Unit {0})) [
            | none ↦ run_handlers callbacks fulfil s.success_handlers s.m_result
            | some e ↦ run_exceptions callbacks fulfil s.exceptions_handlers e
          ])
      handlers-Preserves s none = run_handlers-Preserves fulfil hf s.success_handlers s.m_result
      handlers-Preserves s (some e) = run_exceptions-Preserves fulfil hf s.exceptions_handlers e
