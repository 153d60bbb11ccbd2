-- ===== src/Pool/Functions/Reports/Writes.antt =====
-- What keeps the reports of the futures of map, thread_pool.hpp, in step with their states.
use cplease.Base.{
  get_elem?-set_cases, ℕ, ◌+◌, ◌<◌, ◌≡◌, sym, ap, ◌∙◌, subst, Bool, if◌then◌else◌, List, [], ◌∷◌,
  ◌++◌, length, length-set, append-nil, set, get_elem?, get_or, some, inl, inr, arith,
}
use mathlib.Core.Bool.{true≢false}
use cplease.Future.Monad.{
  Event, called, handled, State, World, SuccessHandler, ExceptionHandler, put_state,
}
use cplease.Future.{Outcome, result, exception, store}
use cplease.Futures.{ResultVariant, monostate, value, failed}
use cplease.Pool.Functions.Reports.{
  report_of, reports, Outside, TameSuccesses, TameHandlers, TameSuccesses-append,
  TameHandlers-append, IsTame, IsWatched, Reported,
}
use cplease.Pool.Functions.Reports.Lambdas.{reports-one, of_lambda-Apart, ApartEvent}

module _ {ℓ κ} {V : Type ℓ} {X : Type κ} (base n : ℕ) (rs : List (ResultVariant V X)) where
  pub log_event-Reported :
      (w : World V X) (event : Event V X)
      → ApartEvent base n (length rs) event
      → Reported base n rs w
      → Reported base n rs (record w { log = w.log ++ (event ∷ []) })
  log_event-Reported w event apart h = record {
    order = h.order;
    each = h.each;
    logged =
        reports-one base n (length rs) w.log event
        ∙ (ap (λ more. reports base n (length rs) w.log ++ more) (nothing event apart)
            ∙ (append-nil (reports base n (length rs) w.log) ∙ h.logged));
    unborn = h.unborn;
    tame = h.tame;
    watched = h.watched;
    now = h.now;
  }
    where
      nothing :
          (event : Event V X)
          → ApartEvent base n (length rs) event
          → report_of base n (length rs) event ≡ []
      nothing (called f v) apart = of_lambda-Apart base n (length rs) f (value v) apart
      nothing (handled f e) apart = of_lambda-Apart base n (length rs) f (failed e) apart

  -- What a write of a state p may change.
  pub record Grows (p : ℕ) (s t : State V X) : Type (ℓ ⊔ κ) where
    pub tame : IsTame base n rs s → IsTame base n rs t
    pub watched : IsWatched base n rs p s → IsWatched base n rs p t

  pub locked-Grows : (p : ℕ) (s : State V X) (b : Bool) → Grows p s (record s { locked = b })
  locked-Grows p s b = record {
    tame = λ h. h;
    watched = λ h. record {
      successes = h.successes;
      failures = h.failures;
      success = h.success;
      failure = h.failure;
      tame_successes = h.tame_successes;
      tame_failures = h.tame_failures;
      fresh = h.fresh;
    };
  }

  pub continued-Grows :
      (p : ℕ) (s : State V X) (callback : SuccessHandler)
      → TameSuccesses base n (length rs) (callback ∷ [])
      → Grows p s (record s { success_handlers = s.success_handlers ++ (callback ∷ []) })
  continued-Grows p s callback tame = record {
    tame = λ h.
        (TameSuccesses-append base n (length rs) s.success_handlers (callback ∷ []) h.0 tame, h.1);
    watched = λ h. record {
      successes = h.successes ++ (callback ∷ []);
      failures = h.failures;
      success = ap (λ hs. hs ++ (callback ∷ [])) h.success;
      failure = h.failure;
      tame_successes =
          TameSuccesses-append base n (length rs) h.successes (callback ∷ []) h.tame_successes tame;
      tame_failures = h.tame_failures;
      fresh = h.fresh;
    };
  }

  pub handled-Grows :
      (p : ℕ) (s : State V X) (handler : ExceptionHandler)
      → TameHandlers base n (length rs) (handler ∷ [])
      → Grows p s (record s { exceptions_handlers = s.exceptions_handlers ++ (handler ∷ []) })
  handled-Grows p s handler tame = record {
    tame = λ h.
        (h.0, TameHandlers-append base n (length rs) s.exceptions_handlers (handler ∷ []) h.1 tame);
    watched = λ h. record {
      successes = h.successes;
      failures = h.failures ++ (handler ∷ []);
      success = h.success;
      failure = ap (λ hs. hs ++ (handler ∷ [])) h.failure;
      tame_successes = h.tame_successes;
      tame_failures =
          TameHandlers-append base n (length rs) h.failures (handler ∷ []) h.tame_failures tame;
      fresh = h.fresh;
    };
  }

  pub store-Grows : (p : ℕ) (s : State V X) (o : Outcome V X) → Grows p s (store o s)
  store-Grows p s (result v) = record {
    tame = λ h. h;
    watched = λ h. record {
      successes = h.successes;
      failures = h.failures;
      success = h.success;
      failure = h.failure;
      tame_successes = h.tame_successes;
      tame_failures = h.tame_failures;
      fresh = λ e. absurd (true≢false e);
    };
  }
  store-Grows p s (exception x) = record {
    tame = λ h. h;
    watched = λ h. record {
      successes = h.successes;
      failures = h.failures;
      success = h.success;
      failure = h.failure;
      tame_successes = h.tame_successes;
      tame_failures = h.tame_failures;
      fresh = λ e. absurd (true≢false e);
    };
  }

  module _ (w : World V X) (p : ℕ) (s t : State V X) (found : get_elem? w.states p ≡ some s)
      (grows : Grows p s t) (h : Reported base n rs w) where
    pub put-IsTame :
        (q : ℕ) (u : State V X)
        → get_elem? (set w.states p t) q ≡ some u
        → Outside base n (length rs) q
        → IsTame base n rs u
    put-IsTame q u e outside = elim (get_elem?-set_cases w.states p q t u e) [
      | inl here ↦
          subst (IsTame base n rs) (sym here.1)
            (grows.tame (h.tame p s found (subst (Outside base n (length rs)) here.0 outside)))
      | inr there ↦ h.tame q u there.1 outside
    ]

    pub put-IsWatched :
        (i : ℕ) (u : State V X)
        → i < length rs
        → get_elem? (set w.states p t) (n + i) ≡ some u
        → IsWatched base n rs (n + i) u
    put-IsWatched i u lt e = elim (get_elem?-set_cases w.states p (n + i) t u e) [
      | inl here ↦
          let same : get_elem? w.states (n + i) ≡ some s =
            ap (λ q. get_elem? w.states q) here.0 ∙ found in
          subst (IsWatched base n rs (n + i)) (sym here.1)
            ((subst (λ q. Grows q s t) (sym here.0) grows).watched (h.watched i s lt same))
      | inr there ↦ h.watched i u lt there.1
    ]

    pub put_state-Reported :
        ((i : ℕ) → i < length rs → p ≡ n + i → t.is_ready ≡ s.is_ready)
        → Reported base n rs (put_state p t w)
    put_state-Reported same = record {
      order = h.order;
      each = h.each;
      logged = h.logged;
      unborn = λ few. h.unborn (omega (arith, length-set w.states p t));
      tame = put-IsTame;
      watched = put-IsWatched;
      now = λ i u lt e. elim (get_elem?-set_cases w.states p (n + i) t u e) [
        | inl here ↦
            let there : get_elem? w.states (n + i) ≡ some s =
              ap (λ q. get_elem? w.states q) here.0 ∙ found in
            h.now i s lt there
            ∙ ap (λ b. some (if b then get_or rs i monostate else monostate))
                (sym (same i lt (sym here.0)) ∙ sym (ap (λ (r : State V X). r.is_ready) here.1))
        | inr there ↦ h.now i u lt there.1
      ];
    }
