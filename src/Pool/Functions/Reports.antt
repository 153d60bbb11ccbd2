-- ===== src/Pool/Functions/Reports.antt =====
-- The calls by which the futures of map of thread_pool.hpp report to the aggregate of futures.hpp: the
-- lambdas of futures::state, among all the calls that were made.
mod Lambdas
mod Writes
mod Stores
mod Births
mod Handlers
mod Calls
mod Programs
mod Owned
mod Continued
mod Leading
mod Amounts
mod Aggregate
mod Examples
use cplease.Base.{
  ℕ, zero, suc, ◌+◌, ◌-◌, ◌≤◌, ◌<◌, ◌≡◌, Bool, true, false, ◌&&◌, if◌then◌else◌, leb, ltb, List, [],
  ◌∷◌, ◌++◌, length, replicate, get_elem?, get_or, Option, none, some,
}
use cplease.Future.Monad.{
  Exception, Event, called, handled, State, World, SuccessHandler, call_void, call_value,
  call_future, forward, ExceptionHandler, pass_on, handle_any, handle_type,
}
use cplease.Future.{Callbacks, Reply, returns, throws}
use cplease.Future.Monad.{thrown}
use cplease.Pool.Functions.{Values}
use cplease.Futures.{ResultVariant, monostate, value, failed}
use cplease.Futures.Counted.{EachOnce, events}
use cplease.Futures.Marked.{marked}

module _ {ℓ κ} {V : Type ℓ} {X : Type κ} (base n len : ℕ) where
  -- Of the futures n, n + 1, … there are len. Each call of one of their lambdas is a call of
  -- handle_future_ready with the index of the future and the result or the exception.
  abbrev pub of_lambda : ℕ → ResultVariant V X → List (ℕ × ResultVariant V X)
  of_lambda f r =
      if leb (base + n) f && ltb f (base + n + len) then (f - (base + n), r) ∷ [] else []

  abbrev pub report_of : Event V X → List (ℕ × ResultVariant V X)
  report_of (called f v) = of_lambda f (value v)
  report_of (handled f e) = of_lambda f (failed e)

  unfoldable pub reports : List (Event V X) → List (ℕ × ResultVariant V X)
  reports [] = []
  reports (event ∷ log) = report_of event ++ reports log

module _ {ℓ κ} {V : Type ℓ} {X : Type κ} where
  -- What a task of a function of this value amounts to.
  abbrev pub outcome_of : Reply V X → ResultVariant V X
  outcome_of (returns v) = value v
  outcome_of (throws x) = failed (thrown x)

  -- What the tasks of a call of map amount to.
  abbrev pub results_of : Values V → Callbacks V X → ℕ → List V → List (ResultVariant V X)
  results_of d callbacks func [] = []
  results_of d callbacks func (v ∷ range) =
      outcome_of (callbacks.on_value func v) ∷ results_of d callbacks (d.moved_functor func) range

  -- Before any of the futures is ready.
  abbrev pub start : List (ResultVariant V X) → List (ResultVariant V X)
  start rs = replicate (length rs) monostate

module _ (base n len : ℕ) where
  -- A promise that is not one of the futures.
  abbrev pub Outside : ℕ → Type 0
  Outside p = n ≤ p → n + len ≤ p

  -- A function that is not one of their lambdas.
  abbrev pub Apart : ℕ → Type 0
  Apart f = base + n ≤ f → base + n + len ≤ f

  -- The functors that a call of map gives to its tasks are none of them.
  abbrev pub AllApart {ℓ} : {V : Type ℓ} → Values V → ℕ → List V → Type 0
  AllApart d func [] = Unit
  AllApart d func (v ∷ range) = Apart func × AllApart d (d.moved_functor func) range

  -- Continuations and handlers that neither report for the futures nor fulfil their promises.
  abbrev pub TameSuccess : SuccessHandler → Type 0
  TameSuccess (call_void f) = Apart f
  TameSuccess (call_value f q) = Apart f × Outside q
  TameSuccess (call_future f q) = Apart f × Outside q
  TameSuccess (forward q) = Outside q

  abbrev pub TameHandler : ExceptionHandler → Type 0
  TameHandler (pass_on q) = Outside q
  TameHandler (handle_any f) = Apart f
  TameHandler (handle_type f ty) = Apart f

  abbrev pub TameSuccesses : List SuccessHandler → Type 0
  TameSuccesses [] = Unit
  TameSuccesses (h ∷ hs) = TameSuccess h × TameSuccesses hs

  abbrev pub TameHandlers : List ExceptionHandler → Type 0
  TameHandlers [] = Unit
  TameHandlers (h ∷ hs) = TameHandler h × TameHandlers hs

  pub TameSuccesses-append :
      (hs gs : List SuccessHandler) → TameSuccesses hs → TameSuccesses gs → TameSuccesses (hs ++ gs)
  TameSuccesses-append [] gs hh hg = hg
  TameSuccesses-append (h ∷ hs) gs hh hg = (hh.0, TameSuccesses-append hs gs hh.1 hg)

  pub TameHandlers-append :
      (hs gs : List ExceptionHandler) → TameHandlers hs → TameHandlers gs → TameHandlers (hs ++ gs)
  TameHandlers-append [] gs hh hg = hg
  TameHandlers-append (h ∷ hs) gs hh hg = (hh.0, TameHandlers-append hs gs hh.1 hg)

module _ {ℓ κ} {V : Type ℓ} {X : Type κ} (base n : ℕ) (rs : List (ResultVariant V X)) where
  abbrev pub IsTame : State V X → Type 0
  IsTame s =
      TameSuccesses base n (length rs) s.success_handlers
      × TameHandlers base n (length rs) s.exceptions_handlers

  -- The state of one of the futures: its lambdas come first.
  pub record IsWatched (p : ℕ) (s : State V X) : Type (ℓ ⊔ κ) where
    pub successes : List SuccessHandler
    pub failures : List ExceptionHandler
    pub success : s.success_handlers ≡ call_void (base + p) ∷ successes
    pub failure : s.exceptions_handlers ≡ handle_any (base + p) ∷ failures
    pub tame_successes : TameSuccesses base n (length rs) successes
    pub tame_failures : TameHandlers base n (length rs) failures
    pub fresh : s.is_ready ≡ false → s.m_exception ≡ none

  -- The futures that are ready have reported, each once, with their outcomes in rs.
  pub record Reported (w : World V X) : Type (ℓ ⊔ κ) where
    pub order : List ℕ
    pub each : EachOnce rs order (start rs)
    pub logged : reports base n (length rs) w.log ≡ events rs order
    pub unborn : length w.states ≤ n → order ≡ []
    pub tame :
        (p : ℕ) (s : State V X)
        → get_elem? w.states p ≡ some s
        → Outside base n (length rs) p
        → IsTame s
    pub watched :
        (i : ℕ) (s : State V X)
        → i < length rs
        → get_elem? w.states (n + i) ≡ some s
        → IsWatched (n + i) s
    pub now :
        (i : ℕ) (s : State V X)
        → i < length rs
        → get_elem? w.states (n + i) ≡ some s
        → get_elem? (marked rs order (start rs)) i
          ≡ some (if s.is_ready then get_or rs i monostate else monostate)
