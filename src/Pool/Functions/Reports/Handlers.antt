-- ===== src/Pool/Functions/Reports/Handlers.antt =====
-- Continuations and handlers of future.hpp that have no part in the reports of the futures of map.
use cplease.Base.{
  ℕ, zero, suc, ◌+◌, ◌≤◌, ◌<◌, ◌≡◌, refl, true, false, List, [], ◌∷◌, length, get_elem?, Option,
  none, some, arith,
}
use cplease.Future.Monad.{
  Exception, Event, called, handled, with_state, after_run, done, State, World, M, stuck, pure,
  ◌>>◌, state_of, put_state, put_unlocked, update_state, with_lock, log_event, SuccessHandler,
  call_void, call_value, call_future, forward, ExceptionHandler, pass_on, handle_any, handle_type,
}
use cplease.Future.{
  Callbacks, Outcome, Reply, returns, throws, result, exception, store, invoke, then_void,
  on_exception, invoke_success, invoke_handler, run_handlers, run_exceptions, on_ready,
  settle_locked, settle,
}
use cplease.Future.Preserves.{
  Holds, Preserves, >>=-Preserves, >>-Preserves, try-Preserves, if_Preserves, if_Holds,
  with_state-Holds, unlock_run-Holds,
}
use cplease.Futures.{ResultVariant}
use cplease.Pool.Functions.Reports.{
  Outside, Apart, TameSuccess, TameHandler, TameSuccesses, TameHandlers, IsTame, Reported,
}
use cplease.Pool.Functions.Reports.Lambdas.{ApartEvent}
use cplease.Pool.Functions.Reports.Writes.{
  log_event-Reported, Grows, locked-Grows, continued-Grows, handled-Grows, store-Grows,
  put_state-Reported,
}

module _ {ℓ κ} {V : Type ℓ} {X : Type κ} (base n : ℕ) (rs : List (ResultVariant V X)) where
  abbrev pub Reports : World V X → Type (ℓ ⊔ κ)
  Reports = Reported base n rs

  abbrev pub Keeps {ι} : {B : Type ι} → M V X B → Type (ℓ ⊔ κ)
  Keeps = Preserves Reports Unit

  pub update_state-Keeps :
      (p : ℕ) (f : State V X → State V X)
      → ((s : State V X) → Grows base n rs p s (f s))
      → ((s : State V X) (i : ℕ) → i < length rs → p ≡ n + i → (f s).is_ready ≡ s.is_ready)
      → Keeps (update_state p f)
  update_state-Keeps p f grows same w h =
      with_state-Holds Reports Unit (get_elem? w.states p) _
        λ s e. put_state-Reported base n rs w p s (f s) e (grows s) h (same s)

  unlock-Reports :
      (o : Option (State V X)) (p : ℕ) (w : World V X)
      → get_elem? w.states p ≡ o
      → Reports w
      → Reports (put_unlocked o p w)
  unlock-Reports none p w e h = h
  unlock-Reports (some s) p w e h =
      put_state-Reported base n rs w p s (record s { locked = false }) e
        (locked-Grows base n rs p s false) h λ i lt same. refl

  pub with_lock-Holds {ι} :
      {B : Type ι} (p : ℕ) (body : M V X B) (w : World V X)
      → Reports w
      → ((s : State V X)
          → get_elem? w.states p ≡ some s
          → Reports (put_state p (record s { locked = true }) w)
          → Holds Reports Unit (body (put_state p (record s { locked = true }) w)))
      → Holds Reports Unit (with_lock p body w)
  with_lock-Holds p body w h hb = with_state-Holds Reports Unit (get_elem? w.states p) _ λ s e.
      if_Holds Reports Unit s.locked stuck _ tt (
        unlock_run-Holds Reports Unit p _
          (λ w' h'. unlock-Reports (get_elem? w'.states p) p w' refl h')
          (hb s e (
            put_state-Reported base n rs w p s (record s { locked = true }) e
              (locked-Grows base n rs p s true) h λ i lt same. refl)))

  with_lock-Keeps {ι} :
      {B : Type ι} (p : ℕ) (body : M V X B) → Keeps body → Keeps (with_lock p body)
  with_lock-Keeps p body hb w h = with_lock-Holds p body w h λ s e locked. hb _ locked

  pub then_void-Keeps :
      (p : ℕ) (callback : SuccessHandler)
      → TameSuccess base n (length rs) callback
      → Keeps (then_void p callback)
  unfolding then_void
  then_void-Keeps p callback tame = with_lock-Keeps p _ (
      update_state-Keeps p _ (λ s. continued-Grows base n rs p s callback (tame, tt))
        λ s i lt same. refl)

  pub on_exception-Keeps :
      (p : ℕ) (handler : ExceptionHandler)
      → TameHandler base n (length rs) handler
      → Keeps (on_exception p handler)
  unfolding on_exception
  on_exception-Keeps p handler tame = with_lock-Keeps p _ (
      update_state-Keeps p _ (λ s. handled-Grows base n rs p s handler (tame, tt))
        λ s i lt same. refl)

  pub log_event-Keeps :
      (event : Event V X) → ApartEvent base n (length rs) event → Keeps (log_event event)
  log_event-Keeps event apart w h = log_event-Reported base n rs w event apart h

  pub invoke-Keeps {ι} : {B : Type ι} (r : Reply B X) → Keeps (invoke r)
  invoke-Keeps (returns b) w h = h
  invoke-Keeps (throws x) w h = h

  module _ (callbacks : Callbacks V X) (fulfil : ℕ → Outcome V X → M V X (Unit {0}))
      (fulfil-Keeps : (q : ℕ) (o : Outcome V X)
        → Outside base n (length rs) q
        → Keeps (fulfil q o)) where
    invoke_success-Keeps :
        (h : SuccessHandler) (v : V)
        → TameSuccess base n (length rs) h
        → Keeps (invoke_success callbacks fulfil h v)
    unfolding invoke_success
    invoke_success-Keeps (call_void f) v tame =
        >>-Preserves Reports Unit (log_event (called f v)) _ (log_event-Keeps (called f v) tame)
          (invoke-Keeps (callbacks.on_void f v))
    invoke_success-Keeps (call_value f q) v tame =
        try-Preserves Reports Unit _ _
          (>>-Preserves Reports Unit (log_event (called f v)) _
            (log_event-Keeps (called f v) tame.0)
            (>>=-Preserves Reports Unit _ _ (invoke-Keeps (callbacks.on_value f v))
              λ b. fulfil-Keeps q (result b) tame.1))
          λ e. fulfil-Keeps q (exception e) tame.1
    invoke_success-Keeps (call_future f q) v tame =
        try-Preserves Reports Unit _ _
          (>>-Preserves Reports Unit (log_event (called f v)) _
            (log_event-Keeps (called f v) tame.0)
            (>>=-Preserves Reports Unit _ _ (invoke-Keeps (callbacks.on_future f v)) λ r.
              >>-Preserves Reports Unit _ _ (then_void-Keeps r (forward q) tame.1)
                (on_exception-Keeps r (pass_on q) tame.1)))
          λ e. fulfil-Keeps q (exception e) tame.1
    invoke_success-Keeps (forward q) v tame = fulfil-Keeps q (result v) tame

    on_error-Keeps :
        (f : ℕ) (e : Exception X)
        → Apart base n (length rs) f
        → Keeps (log_event (handled f e) >> invoke (callbacks.on_error f e) >> pure true)
    on_error-Keeps f e apart =
        >>-Preserves Reports Unit (log_event (handled f e) >> invoke (callbacks.on_error f e))
          (pure true)
          (>>-Preserves Reports Unit (log_event (handled f e)) _
            (log_event-Keeps (handled f e) apart) (invoke-Keeps (callbacks.on_error f e)))
          λ w h. h

    invoke_handler-Keeps :
        (h : ExceptionHandler) (e : Exception X)
        → TameHandler base n (length rs) h
        → Keeps (invoke_handler callbacks fulfil h e)
    unfolding invoke_handler
    invoke_handler-Keeps (pass_on q) e tame =
        >>-Preserves Reports Unit (fulfil q (exception e)) (pure true)
          (fulfil-Keeps q (exception e) tame) λ w h. h
    invoke_handler-Keeps (handle_any f) e tame = on_error-Keeps f e tame
    invoke_handler-Keeps (handle_type f ty) e tame =
        if_Preserves Reports Unit (callbacks.is_a ty e) _ _ (on_error-Keeps f e tame) λ w h. h

    pub run_handlers-Keeps :
        (hs : List SuccessHandler) (v : V)
        → TameSuccesses base n (length rs) hs
        → Keeps (run_handlers callbacks fulfil hs v)
    unfolding run_handlers
    run_handlers-Keeps [] v tame = λ w h. h
    run_handlers-Keeps (h ∷ hs) v tame =
        >>-Preserves Reports Unit _ _ (invoke_success-Keeps h v tame.0)
          (run_handlers-Keeps hs v tame.1)

    pub run_exceptions-Keeps :
        (hs : List ExceptionHandler) (e : Exception X)
        → TameHandlers base n (length rs) hs
        → Keeps (run_exceptions callbacks fulfil hs e)
    unfolding run_exceptions
    run_exceptions-Keeps [] e tame = λ w h. h
    run_exceptions-Keeps (h ∷ hs) e tame =
        >>=-Preserves Reports Unit _ _ (invoke_handler-Keeps h e tame.0)
          λ b. if_Preserves Reports Unit b _ _ (λ w h. h) (run_exceptions-Keeps hs e tame.1)

    on_ready-Keeps : (p : ℕ) → Outside base n (length rs) p → Keeps (on_ready callbacks fulfil p)
    unfolding on_ready
    on_ready-Keeps p outside w h = at_state (get_elem? w.states p) refl
      where
        handlers : Option (Exception X) → State V X → M V X (Unit {0})
        handlers found s = elim found [
          | none ↦ run_handlers callbacks fulfil s.success_handlers s.m_result
          | some e ↦ run_exceptions callbacks fulfil s.exceptions_handlers e
        ]

        handlers-Keeps :
            (s : State V X) (found : Option (Exception X))
            → IsTame base n rs s
            → Keeps (handlers found s)
        handlers-Keeps s none tame = run_handlers-Keeps s.success_handlers s.m_result tame.0
        handlers-Keeps s (some e) tame = run_exceptions-Keeps s.exceptions_handlers e tame.1

        at_state :
            (found : Option (State V X))
            → get_elem? w.states p ≡ found
            → Holds Reports Unit
                (after_run (with_state found λ s. done s w) λ s. handlers s.m_exception s)
        at_state none e = tt
        at_state (some s) e = handlers-Keeps s s.m_exception (h.tame p s e outside) w h

    settle_locked-Keeps :
        (p : ℕ) (o : Outcome V X)
        → Outside base n (length rs) p
        → Keeps (settle_locked callbacks fulfil p o)
    unfolding settle_locked
    settle_locked-Keeps p o outside =
        >>=-Preserves Reports Unit (state_of p) _
          (λ w h. with_state-Holds Reports Unit (get_elem? w.states p) _ λ s e. h)
          λ (s : State V X).
            if_Preserves Reports Unit s.is_ready _ _ (λ w h. h)
              (>>-Preserves Reports Unit _ _
                (update_state-Keeps p (store o) (λ t. store-Grows base n rs p t o)
                  λ t i lt same.
                    let behind : n + length rs ≤ p = outside (omega (arith, same)) in
                    absurd (omega (arith, same)))
                (on_ready-Keeps p outside))

  -- A promise that is none of the futures is fulfilled.
  pub settle-Keeps :
      (callbacks : Callbacks V X) (fuel p : ℕ) (o : Outcome V X)
      → Outside base n (length rs) p
      → Keeps (settle callbacks fuel p o)
  unfolding settle
  settle-Keeps callbacks zero p o outside = λ w h. tt
  settle-Keeps callbacks (suc fuel) p o outside = with_lock-Keeps p _ (
      settle_locked-Keeps callbacks (settle callbacks fuel) (settle-Keeps callbacks fuel) p o
        outside)
