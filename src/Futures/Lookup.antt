-- ===== src/Futures/Lookup.antt =====
-- How futures.hpp finds a future, and what get and take of one do; the keys that make_futures gives.
pub mod Keys
use cplease.Base.{
  ℕ, ◌+◌, ◌≡◌, Bool, if◌then◌else◌, ◌==◌, List, [], ◌∷◌, ◌++◌, length, ◌⊎◌, inl, inr,
}
use cplease.Future.Monad.{M, ◌>>◌, pure, SuccessHandler, ExceptionHandler}
use cplease.Future.{get, take, make_promise, then_void, on_exception}
use cplease.Futures.{
  Futures, FuturesError, new_futures, add_future, get_future, get_future_by_index,
}

-- The transform by `std::pair{ futures_map.size(), future }`.
pub number_futures : List (ℕ × ℕ) → List ℕ → List (ℕ × ℕ)
number_futures futures_map [] = futures_map
number_futures futures_map (future ∷ futures) =
    number_futures (futures_map ++ ((length futures_map, future) ∷ [])) futures

module _ {ℓ κ} {V : Type ℓ} {X : Type κ} where
  abbrev pub use_future {ν} :
      {B : Type ν} → FuturesError ⊎ ℕ → (ℕ → M V X B) → FuturesError ⊎ M V X B
  use_future (inl e) f = inl e
  use_future (inr future) f = inr (f future)

  -- get, take, then and on_exception of the aggregate, whose promise has a place among the states.
  pub get_aggregate : ℕ → M V X V
  get_aggregate aggregate = get aggregate

  pub take_aggregate : (V → V) → ℕ → M V X V
  take_aggregate moved aggregate = take moved aggregate

  pub then_aggregate : ℕ → SuccessHandler → M V X ℕ
  then_aggregate aggregate callback = then_void aggregate callback >> pure aggregate

  pub on_exception_aggregate : ℕ → ExceptionHandler → M V X ℕ
  on_exception_aggregate aggregate handler = on_exception aggregate handler >> pure aggregate

module _ {ℓ κ μ} {K : Type μ} {V : Type ℓ} {X : Type κ} where
  -- `futures(promises_map)`: promise.get_future() is named as the promise.
  pub promises_futures : List (K × ℕ) → Futures K V X
  promises_futures promises_map = new_futures promises_map

  pub add_promise : Futures K V X → K → ℕ → FuturesError ⊎ Futures K V X
  add_promise state key promise = add_future state key promise

  -- The argument of get_future in get_by_index and take_by_index is an index, but the overload for an
  -- index is there only for keys that are not integral; otherwise it is a key.
  pub get_future_at : Bool → (K → Bool) → ℕ → Futures K V X → FuturesError ⊎ ℕ
  get_future_at integral is_key index state =
      if integral then get_future is_key state else get_future_by_index index state

  pub get_by_index : Bool → (K → Bool) → ℕ → Futures K V X → FuturesError ⊎ M V X V
  get_by_index integral is_key index state =
      use_future (get_future_at integral is_key index state) get

  pub take_by_index : (V → V) → Bool → (K → Bool) → ℕ → Futures K V X → FuturesError ⊎ M V X V
  take_by_index moved integral is_key index state =
      use_future (get_future_at integral is_key index state) (take moved)

  -- `get(key)` and `take(key)`
  pub get_key : (K → Bool) → Futures K V X → FuturesError ⊎ M V X V
  get_key is_key state = use_future (get_future is_key state) get

  pub take_key : (V → V) → (K → Bool) → Futures K V X → FuturesError ⊎ M V X V
  take_key moved is_key state = use_future (get_future is_key state) (take moved)

module _ {ℓ κ} {V : Type ℓ} {X : Type κ} where
  -- make_futures of a range of futures or of promises.
  pub make_futures : List ℕ → Futures ℕ V X
  make_futures futures = new_futures (number_futures [] futures)
