-- ===== src/Futures/Verdict.antt =====
-- What handle_future_ready of futures.hpp finds in the outcomes when all futures are ready.
use cplease.Base.{◌≡◌, refl, List, [], ◌∷◌, none, some}
use cplease.Future.{Outcome, result, exception}
use cplease.Futures.{
  ResultVariant, monostate, value, failed, FutureElement, first_exception, accumulate,
  aggregate_outcome,
}
use cplease.Futures.Outcomes.{AllReady, expected, with_value, outcomes}

module _ {ℓ κ μ} {K : Type μ} {V : Type ℓ} {X : Type κ} where
  -- What the two searches find when all are ready.
  pub Verdict : List (FutureElement K V X) → Outcome (List V) X → Type (ℓ ⊔ κ)
  Verdict elements (result vs) = (first_exception elements ≡ none) × (accumulate elements ≡ some vs)
  Verdict elements (exception e) = (first_exception elements ≡ some e) × Unit {ℓ}

  pub verdict :
      (elements : List (FutureElement K V X))
      → AllReady (outcomes elements)
      → Verdict elements (expected (outcomes elements))
  unfolding first_exception accumulate Verdict
  verdict [] ready = (refl, refl)
  verdict (element ∷ elements) ready =
      at_outcome element elements element.outcome refl ready (verdict elements)
    where
      value_first :
          (element : FutureElement K V X) (elements : List (FutureElement K V X)) (v : V)
          (o : Outcome (List V) X)
          → element.outcome ≡ value v
          → Verdict elements o
          → Verdict (element ∷ elements) (with_value v o)
      value_first element elements v (result vs) e h = (rw e h.0, rw (e, h.1) refl)
      value_first element elements v (exception x) e h = (rw e h.0, tt)

      at_outcome :
          (element : FutureElement K V X) (elements : List (FutureElement K V X))
          (o : ResultVariant V X)
          → element.outcome ≡ o
          → AllReady (o ∷ outcomes elements)
          → (AllReady (outcomes elements) → Verdict elements (expected (outcomes elements)))
          → Verdict (element ∷ elements) (expected (o ∷ outcomes elements))
      at_outcome element elements monostate e ready later = absurd ready
      at_outcome element elements (value v) e ready later =
          value_first element elements v (expected (outcomes elements)) e (later ready)
      at_outcome element elements (failed x) e ready later = (rw e refl, tt)

  pub aggregate_outcome-Verdict :
      (elements : List (FutureElement K V X)) (o : Outcome (List V) X)
      → Verdict elements o
      → aggregate_outcome elements ≡ some o
  unfolding aggregate_outcome Verdict
  aggregate_outcome-Verdict elements (result vs) h = rw (aggregate_outcome, h.0, h.1) refl
  aggregate_outcome-Verdict elements (exception e) h = rw (aggregate_outcome, h.0) refl
