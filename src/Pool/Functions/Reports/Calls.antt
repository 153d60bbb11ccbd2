-- ===== src/Pool/Functions/Reports/Calls.antt =====
-- A call of a task of packaged_task.hpp keeps the reports of the futures of map, and is one if the task
-- is one of map's.
use cplease.Base.{
  ℕ, zero, suc, ◌+◌, ◌<◌, ◌≡◌, sym, ap, ◌∙◌, subst, true, false, if◌then◌else◌, List, [], ◌∷◌, ◌++◌,
  length, get_elem?, get_or, Option, none, some, ◌⊎◌, inl, inr, Bool-cases,
}
use mathlib.Core.Bool.{true≢false}
use cplease.Future.Monad.{
  Exception, called, handled, State, World, M, Run, done, threw, stuck, fault, out_of_fuel, thrown,
  put_state, log_event, after_run, catch_run, SuccessHandler, call_void, ExceptionHandler,
  handle_any,
}
use cplease.Future.{
  Callbacks, Outcome, Reply, returns, throws, result, exception, store, invoke, invoke_success,
  invoke_handler, run_handlers, run_exceptions, on_ready, settle_locked, settle, set_result,
  set_exception,
}
use cplease.Future.Once.{get_elem?-set_self, locked_twice}
use cplease.Future.Kept.{settle_locked-waiting}
use cplease.Future.Ready.{IsReady, ready_at-get_elem?}
use cplease.Future.Returns.{settle-IsReady}
use cplease.Future.Preserves.{Holds, >>=-Preserves, >>-Preserves, try-Preserves, after_run-Holds}
use cplease.Futures.{ResultVariant, monostate}
use cplease.Task.{PackagedTask, call}
use cplease.Pool.Functions.Reports.{outcome_of, Outside, Apart, TameSuccesses, IsWatched}
use cplease.Pool.Functions.Reports.Lambdas.{variant}
use cplease.Pool.Functions.Reports.Stores.{store-Reported}
use cplease.Pool.Functions.Reports.Handlers.{
  Reports, Keeps, with_lock-Holds, log_event-Keeps, invoke-Keeps, run_handlers-Keeps, settle-Keeps,
}

module _ {ℓ κ} {V : Type ℓ} {X : Type κ} (base n : ℕ) (rs : List (ResultVariant V X))
    (callbacks : Callbacks V X) where
  module _ (fuel : ℕ) where
    run_handlers-lambda :
        (f : ℕ) (hs : List SuccessHandler) (v : V) (w : World V X)
        → TameSuccesses base n (length rs) hs
        → Reports base n rs (record w { log = w.log ++ (called f v ∷ []) })
        → Holds
            (Reports base n rs)
            Unit
            (run_handlers callbacks (settle callbacks fuel) (call_void f ∷ hs) v w)
    unfolding run_handlers invoke_success
    run_handlers-lambda f hs v w tame h =
        after_run-Holds (Reports base n rs) Unit _ _
          (invoke-Keeps base n rs (callbacks.on_void f v)
            (record w { log = w.log ++ (called f v ∷ []) }) h)
          λ _.
            run_handlers-Keeps base n rs callbacks (settle callbacks fuel)
              (settle-Keeps base n rs callbacks fuel) hs v tame

    -- The lambda takes every exception, so no other handler is called.
    run_exceptions-lambda :
        (f : ℕ) (hs : List ExceptionHandler) (e : Exception X) (w : World V X)
        → Reports base n rs (record w { log = w.log ++ (handled f e ∷ []) })
        → Holds
            (Reports base n rs)
            Unit
            (run_exceptions callbacks (settle callbacks fuel) (handle_any f ∷ hs) e w)
    unfolding run_exceptions invoke_handler
    run_exceptions-lambda f hs e w h = at_reply (callbacks.on_error f e)
      where
        at_reply :
            (r : Reply (Unit {0}) X)
            → Holds (Reports base n rs) Unit (
                after_run
                  (after_run
                    (invoke r (record w { log = w.log ++ (handled f e ∷ []) }))
                    λ _ w'. done true w')
                  λ b.
                    if b
                    then (λ w'. done tt w')
                    else run_exceptions callbacks (settle callbacks fuel) hs e)
        at_reply (returns b) = h
        at_reply (throws x) = h

    on_ready-result :
        (p : ℕ) (s : State V X) (w : World V X)
        → get_elem? w.states p ≡ some s
        → s.m_exception ≡ none
        → on_ready callbacks (settle callbacks fuel) p w
          ≡ run_handlers callbacks (settle callbacks fuel) s.success_handlers s.m_result w
    unfolding on_ready
    on_ready-result p s w found fresh =
        let handlers : Option (Exception X) → Run V X (Unit {0}) = λ o.
          (elim o as (λ _. M V X (Unit {0})) [
            | none ↦ run_handlers callbacks (settle callbacks fuel) s.success_handlers s.m_result
            | some e ↦ run_exceptions callbacks (settle callbacks fuel) s.exceptions_handlers e
          ])
            w in
        rw found (ap handlers fresh)

    on_ready-report :
        (i : ℕ) (s : State V X) (o : Outcome V X) (w : World V X)
        → i < length rs
        → get_elem? w.states (n + i) ≡ some s
        → s.is_ready ≡ false
        → get_or rs i monostate ≡ variant o
        → Reports base n rs w
        → Holds
            (Reports base n rs)
            Unit
            (on_ready callbacks (settle callbacks fuel) (n + i) (put_state (n + i) (store o s) w))
    unfolding on_ready
    on_ready-report i s (result v) w lt found waits outcome h =
        let watch : IsWatched base n rs (n + i) s = h.watched i s lt found in
        let w' : World V X = put_state (n + i) (store (result v) s) w in
        let there : get_elem? w'.states (n + i) ≡ some (store (result v) s) =
          get_elem?-set_self w.states (n + i) s (store (result v) s) found in
        subst (Holds (Reports base n rs) Unit)
          (sym (
            on_ready-result (n + i) (store (result v) s) w' there (watch.fresh waits)
            ∙ ap (λ hs. run_handlers callbacks (settle callbacks fuel) hs v w') watch.success))
          (run_handlers-lambda (base + (n + i)) watch.successes v w' watch.tame_successes
            (store-Reported base n rs w i s (result v) lt found waits h outcome))
    on_ready-report i s (exception e) w lt found waits outcome h =
        let watch : IsWatched base n rs (n + i) s = h.watched i s lt found in
        let w' : World V X = put_state (n + i) (store (exception e) s) w in
        let there : get_elem? w'.states (n + i) ≡ some (store (exception e) s) =
          get_elem?-set_self w.states (n + i) s (store (exception e) s) found in
        rw there (
          subst
            (λ hs.
              Holds (Reports base n rs) Unit
                (run_exceptions callbacks (settle callbacks fuel) hs e w'))
            (sym watch.failure)
            (run_exceptions-lambda (base + (n + i)) watch.failures e w'
              (store-Reported base n rs w i s (exception e) lt found waits h outcome)))

    settle_locked-report :
        (i : ℕ) (s : State V X) (o : Outcome V X) (w : World V X)
        → i < length rs
        → get_elem? w.states (n + i) ≡ some s
        → (s.is_ready ≡ true) ⊎ (get_or rs i monostate ≡ variant o)
        → Reports base n rs w
        → Holds
            (Reports base n rs)
            Unit
            (settle_locked callbacks (settle callbacks fuel) (n + i) o w)
    settle_locked-report i s o w lt found outcome h = elim (Bool-cases s.is_ready) [
      | inl ready ↦ rw (locked_twice callbacks (settle callbacks fuel) (n + i) o s w found ready) h
      | inr waits ↦
          rw (settle_locked-waiting callbacks (settle callbacks fuel) (n + i) o s w found waits)
            (elim outcome [
              | inl ready ↦ absurd (true≢false (sym ready ∙ waits))
              | inr same ↦ on_ready-report i s o w lt found waits same h
            ])
    ]

  -- One of the futures is fulfilled with its outcome, or is ready.
  settle-report :
      (fuel i : ℕ) (o : Outcome V X) (w : World V X)
      → i < length rs
      → IsReady (n + i) w ⊎ (get_or rs i monostate ≡ variant o)
      → Reports base n rs w
      → Holds (Reports base n rs) Unit (settle callbacks fuel (n + i) o w)
  unfolding settle
  settle-report zero i o w lt outcome h = tt
  settle-report (suc fuel) i o w lt outcome h =
      with_lock-Holds base n rs (n + i) (settle_locked callbacks (settle callbacks fuel) (n + i) o)
        w h
        λ s e locked.
          settle_locked-report fuel i (record s { locked = true }) o
            (put_state (n + i) (record s { locked = true }) w) lt
            (get_elem?-set_self w.states (n + i) s (record s { locked = true }) e)
            (elim outcome [
              | inl ready ↦ inl (sym (ready_at-get_elem? w.states (n + i) s e) ∙ ready)
              | inr same ↦ inr same
            ])
            locked

  catch_run-ready :
      (p : ℕ) (r : Run V X (Unit {0})) (handler : Exception X → M V X (Unit {0}))
      → Holds (Reports base n rs) Unit r
      → Holds (IsReady p) Unit r
      → ((e : Exception X) (w : World V X)
          → Reports base n rs w
          → IsReady p w
          → Holds (Reports base n rs) Unit (handler e w))
      → Holds (Reports base n rs) Unit (catch_run r handler)
  catch_run-ready p (done b w) handler h ready hf = h
  catch_run-ready p (threw e w) handler h ready hf = hf e w h ready
  catch_run-ready p stuck handler h ready hf = tt
  catch_run-ready p fault handler h ready hf = tt
  catch_run-ready p out_of_fuel handler h ready hf = tt

  -- The task of none of the futures, or of the future i, that has the outcome rs i.
  abbrev pub IsOwn : PackagedTask V → Type (ℓ ⊔ κ)
  IsOwn task =
      Outside base n (length rs) task.promise
      ⊎ ((i : ℕ) × ((i < length rs)
            × ((task.promise ≡ n + i)
                × (get_or rs i monostate
                    ≡ outcome_of (callbacks.on_value task.func task.arguments)))))

  module _ (fuel : ℕ) (task : PackagedTask V) (apart : Apart base n (length rs) task.func) where
    call_elsewhere :
        Outside base n (length rs) task.promise → Keeps base n rs (call callbacks fuel task)
    unfolding call set_result set_exception
    call_elsewhere outside =
        try-Preserves (Reports base n rs) Unit _ _
          (>>-Preserves (Reports base n rs) Unit (log_event (called task.func task.arguments)) _
            (log_event-Keeps base n rs (called task.func task.arguments) apart)
            (>>=-Preserves (Reports base n rs) Unit _ _
              (invoke-Keeps base n rs (callbacks.on_value task.func task.arguments))
              λ v. settle-Keeps base n rs callbacks fuel task.promise (result v) outside))
          λ e. settle-Keeps base n rs callbacks fuel task.promise (exception e) outside

    at_reply :
        (i : ℕ) (r : Reply V X) (w : World V X)
        → i < length rs
        → get_or rs i monostate ≡ outcome_of r
        → Reports base n rs w
        → Holds (Reports base n rs) Unit (
            catch_run
              (after_run (invoke r w) λ v. settle callbacks fuel (n + i) (result v))
              λ e. settle callbacks fuel (n + i) (exception e))
    at_reply i (returns v) w lt outcome h =
        catch_run-ready (n + i) (settle callbacks fuel (n + i) (result v) w) _
          (settle-report fuel i (result v) w lt (inr outcome) h)
          (settle-IsReady callbacks fuel (n + i) (result v) w)
          λ e w' h' ready. settle-report fuel i (exception e) w' lt (inl ready) h'
    at_reply i (throws x) w lt outcome h =
        settle-report fuel i (exception (thrown x)) w lt (inr outcome) h

    call_own :
        (i : ℕ)
        → i < length rs
        → task.promise ≡ n + i
        → get_or rs i monostate ≡ outcome_of (callbacks.on_value task.func task.arguments)
        → Keeps base n rs (call callbacks fuel task)
    unfolding call set_result set_exception
    call_own i lt place outcome w h = rw place (
        at_reply i (callbacks.on_value task.func task.arguments)
          (record w { log = w.log ++ (called task.func task.arguments ∷ []) }) lt outcome
          (log_event-Keeps base n rs (called task.func task.arguments) apart w h))

    pub call-Keeps : IsOwn task → Keeps base n rs (call callbacks fuel task)
    call-Keeps own w h = elim own [
      | inl outside ↦ call_elsewhere outside w h
      | inr one ↦ call_own one.0 one.1.0 one.1.1.0 one.1.1.1 w h
    ]
