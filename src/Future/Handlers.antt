-- ===== src/Future/Handlers.antt =====
-- Which continuations and exception handlers of future.hpp run, and in which order.
use cplease.Base.{
  ℕ, ◌≡◌, refl, sym, ap, ◌∙◌, true, false, List, [], ◌∷◌, ◌++◌, map, append_assoc, append-nil,
}
use cplease.Future.Monad.{
  Exception, Event, called, handled, World, M, done, threw, thrown, SuccessHandler, call_void,
  ExceptionHandler, handle_any, handle_type,
}
use cplease.Future.{
  Callbacks, Outcome, returns, throws, invoke_success, invoke_handler, run_handlers, run_exceptions,
}

module _ {ℓ κ} {V : Type ℓ} {X : Type κ} where
  abbrev pub logging : List (Event V X) → World V X → World V X
  logging events w = record w { log = w.log ++ events }

  pub logging-append :
      (es fs : List (Event V X)) (w : World V X) → logging fs (logging es w) ≡ logging (es ++ fs) w
  logging-append es fs w = ap (λ log. record w { log = log }) (append_assoc w.log es fs)

module _ {ℓ κ} {V : Type ℓ} {X : Type κ} (callbacks : Callbacks V X)
    (fulfil : ℕ → Outcome V X → M V X (Unit {0})) where
  -- The functions of void continuations that return.
  abbrev pub AllReturn : List ℕ → V → Type κ
  AllReturn [] v = Unit
  AllReturn (f ∷ fs) v = (callbacks.on_void f v ≡ returns tt) × AllReturn fs v

  -- Continuations that return void are each called once with the result, in the order in which they
  -- were added, if all of them return. If one throws (here last) after others that return, the exception
  -- comes out, and the continuations after it (here rest, whatever they are) are not called.
  pub run_handlers_order :
      (fs : List ℕ) (v : V) (w : World V X) (last : ℕ) (x : X) (rest : List SuccessHandler)
      → AllReturn fs v
      → callbacks.on_void last v ≡ throws x
      → (run_handlers callbacks fulfil (map call_void fs) v w
          ≡ done tt (logging (map (λ f. called f v) fs) w))
        × (run_handlers callbacks fulfil (map call_void fs ++ (call_void last ∷ rest)) v w
            ≡ threw (thrown x) (logging (map (λ f. called f v) fs ++ (called last v ∷ [])) w))
  unfolding run_handlers invoke_success
  run_handlers_order [] v w last x rest h e =
      (ap (λ log. done tt (record w { log = log })) (sym (append-nil w.log)), rw e refl)
  run_handlers_order (f ∷ fs) v w last x rest h e =
      let calls : List (Event V X) = map (λ f. called f v) fs in
      let ih = run_handlers_order fs v (logging (called f v ∷ []) w) last x rest h.1 e in
      rw h.0 (
        ih.0 ∙ ap (λ u. done tt u) (logging-append (called f v ∷ []) calls w),
        ih.1
            ∙ ap (λ u. threw (thrown x) u)
                (logging-append (called f v ∷ []) (calls ++ (called last v ∷ [])) w),
      )

  -- Handlers of types that the exception is not of.
  abbrev pub NoneMatch : Exception X → List (ℕ × ℕ) → Type 0
  NoneMatch e [] = Unit
  NoneMatch e ((f, ty) ∷ hs) = (callbacks.is_a ty e ≡ false) × NoneMatch e hs

  abbrev pub typed : List (ℕ × ℕ) → List ExceptionHandler
  typed [] = []
  typed ((f, ty) ∷ hs) = handle_type f ty ∷ typed hs

  -- Of the exception handlers only the first of a matching type is called, and those after it
  -- are not; a handler of a std::exception_ptr matches every exception. If none matches,
  -- none is called.
  pub run_exceptions_first :
      (hs : List (ℕ × ℕ)) (e : Exception X) (f ty : ℕ) (rest : List ExceptionHandler)
      (w : World V X)
      → NoneMatch e hs
      → callbacks.is_a ty e ≡ true
      → callbacks.on_error f e ≡ returns tt
      → (run_exceptions callbacks fulfil (typed hs ++ (handle_type f ty ∷ rest)) e w
          ≡ done tt (logging (handled f e ∷ []) w))
        × (run_exceptions callbacks fulfil (typed hs ++ (handle_any f ∷ rest)) e w
            ≡ done tt (logging (handled f e ∷ []) w))
        × (run_exceptions callbacks fulfil (typed hs) e w ≡ done tt w)
  unfolding run_exceptions invoke_handler
  run_exceptions_first [] e f ty rest w none_match is_a ok = (rw (is_a, ok) refl, rw ok refl, refl)
  run_exceptions_first ((g, other) ∷ hs) e f ty rest w none_match is_a ok =
      rw none_match.0 (run_exceptions_first hs e f ty rest w none_match.1 is_a ok)
