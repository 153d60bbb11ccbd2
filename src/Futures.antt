-- ===== src/Futures.antt =====
-- include/plz/futures.hpp: futures of one type under keys, and the aggregate promise that is fulfilled
-- when all of them are. The futures are named as in Future, and when each of them is ready is the
-- order of the calls of handle_future_ready. The aggregate promise has a place among the states of its type.
pub mod Outcomes
pub mod Lookup
mod Verdict
pub mod Counted
pub mod Order
pub mod Marked
mod Examples
use cplease.Base.{
  ℕ, zero, suc, ◌+◌, ◌≡◌, refl, Bool, true, false, ◌&&◌, if◌then◌else◌, ◌==◌, ltb, List, [], ◌∷◌,
  ◌++◌, length, get_elem?, Option, none, some, ◌⊎◌, inl, inr, Option-cases,
}
use cplease.Future.Monad.{Exception, thrown, M, throw, pure, ◌>>=◌, ◌>>◌}
use cplease.Future.{Callbacks, Outcome, result, exception, settle}

pub data ResultVariant {ℓ κ} (V : Type ℓ) (X : Type κ) : Type (ℓ ⊔ κ) where
  monostate : ResultVariant V X
  value : V → ResultVariant V X
  failed : Exception X → ResultVariant V X

pub record FutureElement {ℓ κ μ} (K : Type μ) (V : Type ℓ) (X : Type κ) : Type (ℓ ⊔ κ ⊔ μ) where
  pub index : ℕ
  pub key : K
  pub future : ℕ
  pub outcome : ResultVariant V X

-- futures::state, less m_aggregate_promise, which is an argument.
pub record Futures {ℓ κ μ} (K : Type μ) (V : Type ℓ) (X : Type κ) : Type (ℓ ⊔ κ ⊔ μ) where
  pub elements : List (FutureElement K V X)
  pub ready_count : ℕ

-- The runtime_errors of add_future and get_future.
pub data FuturesError : Type 0 where
  all_ready : FuturesError
  no_promise : FuturesError

module _ {ℓ κ μ} {K : Type μ} {V : Type ℓ} {X : Type κ} where
  abbrev pub waiting_element : ℕ → K → ℕ → FutureElement K V X
  waiting_element index key future = record {
    index = index;
    key = key;
    future = future;
    outcome = monostate;
  }

  pub number_from : ℕ → List (K × ℕ) → List (FutureElement K V X)
  number_from index [] = []
  number_from index ((key, future) ∷ futures) =
      waiting_element index key future ∷ number_from (suc index) futures

  pub new_futures : List (K × ℕ) → Futures K V X
  new_futures futures = record { elements = number_from 0 futures; ready_count = 0 }

  pub add_future : Futures K V X → K → ℕ → FuturesError ⊎ Futures K V X
  add_future state key future =
      if ltb 0 (length state.elements) && (state.ready_count == length state.elements)
      then inl all_ready
      else inr (record state {
        elements = state.elements ++ (waiting_element (length state.elements) key future ∷ []);
      })

  -- `it->result = result` at the element that find_if finds by its index, if there is one.
  pub set_outcome :
      List (FutureElement K V X) → ℕ → ResultVariant V X → Option (List (FutureElement K V X))
  set_outcome [] index outcome = none
  set_outcome (element ∷ elements) index outcome =
      let rest = set_outcome elements index outcome in
      if element.index == index
      then some (record element { outcome = outcome } ∷ elements)
      else elim rest [ none ↦ none | some elements' ↦ some (element ∷ elements') ]

  -- The find_if for an exception_ptr.
  pub first_exception : List (FutureElement K V X) → Option (Exception X)
  first_exception [] = none
  first_exception (element ∷ elements) = elim element.outcome [
    | monostate ↦ first_exception elements
    | value v ↦ first_exception elements
    | failed e ↦ some e
  ]

  -- The transform by std::get<result_type>.
  pub accumulate : List (FutureElement K V X) → Option (List V)
  accumulate [] = some []
  accumulate (element ∷ elements) = elim element.outcome [
    | monostate ↦ none
    | value v ↦ elim (accumulate elements) [ none ↦ none | some vs ↦ some (v ∷ vs) ]
    | failed e ↦ none
  ]

  -- What the aggregate promise is fulfilled with; none is the bad_variant_access of std::get.
  pub aggregate_outcome : List (FutureElement K V X) → Option (Outcome (List V) X)
  aggregate_outcome elements = elim (first_exception elements) [
    | some e ↦ some (exception e)
    | none ↦ elim (accumulate elements) [ none ↦ none | some vs ↦ some (result vs) ]
  ]

  -- get_future, by a test of the key, and by the index.
  pub get_future : (K → Bool) → Futures K V X → FuturesError ⊎ ℕ
  get_future is_key state = find state.elements
    where
      find : List (FutureElement K V X) → FuturesError ⊎ ℕ
      find [] = inl no_promise
      find (element ∷ elements) =
          let rest = find elements in if is_key element.key then inr element.future else rest

  pub get_future_by_index : ℕ → Futures K V X → FuturesError ⊎ ℕ
  get_future_by_index index state = elim (get_elem? state.elements index) [
    | none ↦ inl no_promise
    | some element ↦ inr element.future
  ]

-- set_result or set_exception of the aggregate promise.
unfoldable pub fulfil_aggregate {ℓ κ} :
    {V : Type ℓ} {X : Type κ}
    → Callbacks (List V) X
    → X
    → ℕ
    → ℕ
    → Option (Outcome (List V) X)
    → M (List V) X (Unit {0})
fulfil_aggregate callbacks bad_variant_access fuel aggregate none =
    throw (thrown bad_variant_access)
fulfil_aggregate callbacks bad_variant_access fuel aggregate (some outcome) =
    settle callbacks fuel aggregate outcome

module _ {ℓ κ μ} {K : Type μ} {V : Type ℓ} {X : Type κ} (callbacks : Callbacks (List V) X)
    (bad_variant_access : X) (fuel aggregate : ℕ) where
  unfoldable pub handle_future_ready :
      Futures K V X → ℕ → ResultVariant V X → M (List V) X (Futures K V X)
  handle_future_ready state index outcome = elim (set_outcome state.elements index outcome) [
    | none ↦ pure state
    | some elements ↦
        let state' : Futures K V X = record state {
          elements = elements;
          ready_count = suc state.ready_count;
        } in
        if state'.ready_count == length elements
        then (fulfil_aggregate callbacks bad_variant_access fuel aggregate
              (aggregate_outcome elements)
            >> pure state')
        else pure state'
  ]

  -- The futures that become ready, in an order: the lambdas of the constructor and of add_future.
  unfoldable pub deliver :
      List (ℕ × ResultVariant V X) → Futures K V X → M (List V) X (Futures K V X)
  deliver [] state = pure state
  deliver ((index, outcome) ∷ later) state =
      handle_future_ready state index outcome >>= λ state'. deliver later state'
