-- ===== src/Task/Ready.antt =====
-- operator() of packaged_task.hpp fulfils the promise of the task.
use cplease.Base.{[], ◌∷◌, ◌++◌, ℕ, suc, ◌≡◌, refl, ap, ◌∙◌, false, get_elem?, none, some}
use cplease.Future.Monad.{
  State, World, log_event, called, Run, done, threw, stuck, fault, out_of_fuel, ◌>>=◌,
}
use cplease.Future.{
  Callbacks, Outcome, result, exception, invoke, invoke_success, store, get, set_result,
  set_exception,
}
use cplease.Future.Preserves.{
  Preserves, Holds, invoke-Preserves, try-Preserves, >>-Preserves, >>=-Preserves, catch_run-Holds,
}
use cplease.Future.Ready.{
  IsReady, IsReady-IsKept, IsKept, WasCalled, WasCalled-IsKept, settle-Preserves,
}
use mathlib.Core.List.{mem-append_right, mem-cons_self}
use cplease.Future.Stable.{stable-Laws}
use cplease.Future.Returns.{
  Returns, Holds-Returns, after_run-Returns, catch_run-Returns, settle-Returns,
}
use cplease.Future.Chain.{continued, call_value-Holds}
use cplease.Future.Get.{answer, answer_of, get-ready, Holds-map}
use cplease.Task.{PackagedTask, call}

module _ {ℓ κ} {V : Type ℓ} {X : Type κ} where
  abbrev pub IsDone : PackagedTask V → World V X → Type (ℓ ⊔ κ)
  IsDone task w = IsReady task.promise w × WasCalled (called task.func task.arguments) w

  pub IsDone-IsProp : (task : PackagedTask V) (w : World V X) → IsProp (IsDone task w)
  IsDone-IsProp task w = hlevel

  pub IsDone-IsKept : (task : PackagedTask V) → IsKept (IsDone task)
  IsDone-IsKept task =
      let ready : IsKept (IsReady task.promise) = IsReady-IsKept task.promise in
      let logged : IsKept (WasCalled (called task.func task.arguments)) =
        WasCalled-IsKept (called task.func task.arguments) in
      record {
        stable = record {
          one_event = λ w e h. (ready.stable.one_event w e h.0, logged.stable.one_event w e h.1);
          same_ready = λ w q s t e same h. (
            ready.stable.same_ready w q s t e same h.0,
            logged.stable.same_ready w q s t e same h.1,
          );
        };
        stored = λ w q s o e h. (ready.stored w q s o e h.0, logged.stored w q s o e h.1);
      }

  both-Returns {μ ν ι} :
      (P : World V X → Type μ) (Q : World V X → Type ν) {B : Type ι} (r : Run V X B)
      → Returns P r
      → Returns Q r
      → Returns (λ w. P w × Q w) r
  both-Returns P Q (done b w) h k = (h, k)
  both-Returns P Q (threw e w) h k = tt
  both-Returns P Q stuck h k = tt
  both-Returns P Q fault h k = tt
  both-Returns P Q out_of_fuel h k = tt

module _ {ℓ κ} {V : Type ℓ} {X : Type κ} (callbacks : Callbacks V X) (fuel : ℕ)
    (task : PackagedTask V) where
  pub call-Returns : (w : World V X) → Returns (IsReady task.promise) (call callbacks fuel task w)
  unfolding call set_result set_exception
  call-Returns w =
      catch_run-Returns (IsReady task.promise) _ _
        (after_run-Returns (IsReady task.promise) _ _
          λ v w'. settle-Returns callbacks fuel task.promise (result v) w')
        λ e w'. settle-Returns callbacks fuel task.promise (exception e) w'

  -- What follows the call of the function.
  called-Preserves {μ} :
      (P : World V X → Type μ)
      → IsKept P
      → Preserves P Unit (
          invoke (callbacks.on_value task.func task.arguments) >>= λ v.
          set_result callbacks fuel task.promise v)
  unfolding set_result
  called-Preserves P kept =
      >>=-Preserves P Unit _ _
        (invoke-Preserves P Unit (stable-Laws P Unit kept.stable) callbacks
          (callbacks.on_value task.func task.arguments))
        λ v. settle-Preserves callbacks P kept fuel task.promise (result v)

  -- It keeps what a fulfilment keeps.
  pub call-Preserves {μ} :
      (P : World V X → Type μ) → IsKept P → Preserves P Unit (call callbacks fuel task)
  unfolding call set_result set_exception
  call-Preserves P kept =
      try-Preserves P Unit _ _
        (>>-Preserves P Unit (log_event (called task.func task.arguments)) _
          (λ w h. kept.stable.one_event w (called task.func task.arguments) h)
          (called-Preserves P kept))
        λ e. settle-Preserves callbacks P kept fuel task.promise (exception e)

  -- The promise of a task is ready, and its function was called with its arguments.
  pub call-IsDone : (w : World V X) → Returns (IsDone task) (call callbacks fuel task w)
  unfolding call set_result set_exception
  call-IsDone w =
      both-Returns (IsReady task.promise) (WasCalled (called task.func task.arguments)) _
        (call-Returns w)
        (Holds-Returns (WasCalled (called task.func task.arguments)) _ (
          catch_run-Holds (WasCalled (called task.func task.arguments)) Unit _ _
            (called-Preserves (WasCalled (called task.func task.arguments))
              (WasCalled-IsKept (called task.func task.arguments))
              (record w { log = w.log ++ (called task.func task.arguments ∷ []) })
              (mem-append_right w.log mem-cons_self))
            λ e.
              settle-Preserves callbacks _ (WasCalled-IsKept (called task.func task.arguments)) fuel
                task.promise (exception e)))

module _ {ℓ κ} {V : Type ℓ} {X : Type κ} where
  -- get on a state that was free and had no exception before it was fulfilled.
  pub get-stored :
      (p : ℕ) (s : State V X) (o : Outcome V X) (w : World V X)
      → s.locked ≡ false
      → s.m_exception ≡ none
      → get_elem? w.states p ≡ some (store o s)
      → get p w ≡ answer_of o w
  get-stored p s (result v) w free fresh h =
      get-ready p (store (result v) s) w h free refl ∙ ap (λ o. answer o v w) fresh
  get-stored p s (exception e) w free fresh h = get-ready p (store (exception e) s) w h free refl

module _ {ℓ κ} {V : Type ℓ} {X : Type κ} (callbacks : Callbacks V X) where
  -- A task whose promise is new, called with enough fuel: if the call ends, get on its future returns
  -- what the function returned on the arguments, or throws what it threw, whatever
  -- continuations and handlers the future has.
  pub get-call :
      (fuel : ℕ) (task : PackagedTask V) (s : State V X) (w : World V X)
      → get_elem? w.states task.promise ≡ some s
      → s.locked ≡ false
      → s.is_ready ≡ false
      → s.m_exception ≡ none
      → Holds
          (λ w'.
            get task.promise w'
            ≡ answer_of (continued callbacks task.func (result task.arguments)) w')
          Unit
          (call callbacks (suc fuel) task w)
  unfolding call set_result set_exception invoke_success
  get-call fuel task s w h free waits fresh =
      Holds-map _ _ (call callbacks (suc fuel) task w)
        (λ w' h'.
          get-stored task.promise s (continued callbacks task.func (result task.arguments)) w' free
            fresh h')
        (call_value-Holds callbacks fuel task.promise s task.func task.arguments w h free waits)
