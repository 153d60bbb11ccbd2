-- ===== src/Pool/Functions/Reports/Stores.antt =====
-- A future of map of thread_pool.hpp becomes ready and reports.
use cplease.Base.{
  ℕ, ◌+◌, ◌<◌, ◌≡◌, refl, sym, ap, ap₂, ◌∙◌, true, false, if◌then◌else◌, List, [], ◌∷◌, ◌++◌,
  length, length-set, set, get_elem?, get_elem?-set_cases, get_elem?-lt, get_or, some, inl, inr,
  arith,
}
use cplease.Future.Monad.{State, World}
use cplease.Future.{Outcome, result, exception, store}
use cplease.Future.Ready.{store-is_ready}
use cplease.Future.Once.{get_elem?-set_self, get_elem?-set_ne}
use cplease.Futures.{ResultVariant, monostate, value, failed}
use cplease.Futures.Counted.{events}
use cplease.Futures.Marked.{marked, marked-append, EachOnce-append}
use cplease.Pool.Functions.Reports.{report_of, start, Reported}
use cplease.Pool.Functions.Reports.Lambdas.{of_lambda-inside, reports-one, event_of, variant}
use cplease.Pool.Functions.Reports.Writes.{store-Grows, put-IsTame, put-IsWatched}

module _ {ℓ κ} {V : Type ℓ} {X : Type κ} (base n : ℕ) (rs : List (ResultVariant V X)) where
  events-append :
      (order : List ℕ) (i : ℕ)
      → events rs (order ++ (i ∷ [])) ≡ events rs order ++ ((i, get_or rs i monostate) ∷ [])
  events-append [] i = refl
  events-append (j ∷ order) i = ap (λ es. (j, get_or rs j monostate) ∷ es) (events-append order i)

  report_of-event_of :
      (i : ℕ) (o : Outcome V X)
      → i < length rs
      → report_of base n (length rs) (event_of (base + (n + i)) o) ≡ (i, variant o) ∷ []
  report_of-event_of i (result v) h = of_lambda-inside base n (length rs) i (value v) h
  report_of-event_of i (exception e) h = of_lambda-inside base n (length rs) i (failed e) h

  -- The state of the future gets the outcome, and its lambda is called with it.
  abbrev pub reported : ℕ → State V X → Outcome V X → World V X → World V X
  reported i s o w = record {
    states = set w.states (n + i) (store o s);
    log = w.log ++ (event_of (base + (n + i)) o ∷ []);
  }

  module _ (w : World V X) (i : ℕ) (s : State V X) (o : Outcome V X) (lt : i < length rs)
      (found : get_elem? w.states (n + i) ≡ some s) (waits : s.is_ready ≡ false)
      (h : Reported base n rs w) where
    was_waiting : get_elem? (marked rs h.order (start rs)) i ≡ some monostate
    was_waiting =
        h.now i s lt found ∙ ap (λ b. some (if b then get_or rs i monostate else monostate)) waits

    now_marked :
        (j : ℕ) (u : State V X)
        → j < length rs
        → get_elem? (set w.states (n + i) (store o s)) (n + j) ≡ some u
        → get_elem? (set (marked rs h.order (start rs)) i (get_or rs i monostate)) j
          ≡ some (if u.is_ready then get_or rs j monostate else monostate)
    now_marked j u lt' e = elim (get_elem?-set_cases w.states (n + i) (n + j) (store o s) u e) [
      | inl here ↦
          let same : j ≡ i = omega (arith, here.0) in
          let ready : u.is_ready ≡ true =
            ap (λ (r : State V X). r.is_ready) here.1 ∙ store-is_ready o s in
          ap (get_elem? (set (marked rs h.order (start rs)) i (get_or rs i monostate))) same
          ∙ (get_elem?-set_self (marked rs h.order (start rs)) i monostate _ was_waiting
              ∙ (ap (λ k. some (get_or rs k monostate)) (sym same)
                  ∙ ap (λ b. some (if b then get_or rs j monostate else monostate)) (sym ready)))
      | inr there ↦
          get_elem?-set_ne (marked rs h.order (start rs)) j i _ (λ k. there.0 (ap (λ m. n + m) k))
          ∙ h.now j u lt' there.1
    ]

    pub store-Reported : get_or rs i monostate ≡ variant o → Reported base n rs (reported i s o w)
    store-Reported outcome = record {
      order = h.order ++ (i ∷ []);
      each = EachOnce-append rs h.order i (start rs) h.each was_waiting;
      logged =
          reports-one base n (length rs) w.log (event_of (base + (n + i)) o)
          ∙ (ap₂ (λ es fs. es ++ fs) h.logged
                (report_of-event_of i o lt ∙ ap (λ r. (i, r) ∷ []) (sym outcome))
              ∙ sym (events-append h.order i));
      unborn = λ few. absurd (
          omega (
            arith,
            get_elem?-lt w.states (n + i) s found,
            length-set w.states (n + i) (store o s),
          ));
      tame =
          put-IsTame base n rs w (n + i) s (store o s) found (store-Grows base n rs (n + i) s o) h;
      watched =
          put-IsWatched base n rs w (n + i) s (store o s) found (store-Grows base n rs (n + i) s o)
            h;
      now = λ j u lt' e.
          ap (λ ms. get_elem? ms j) (marked-append rs h.order i (start rs)) ∙ now_marked j u lt' e;
    }
