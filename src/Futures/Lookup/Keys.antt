-- ===== src/Futures/Lookup/Keys.antt =====
-- The keys that make_futures of futures.hpp gives.
use cplease.Base.{
  ℕ, zero, suc, ◌+◌, ◌≡◌, refl, sym, ap, ◌∙◌, Bool, true, false, if◌then◌else◌, ◌==◌, ==_iff, List,
  [], ◌∷◌, ◌++◌, length, get_elem?, some, ◌⊎◌, inl, inr, Bool-cases, append_assoc, append-nil,
  length-append, arith,
}
use mathlib.Core.Option.{none-ne-some, some-injective}
use cplease.Futures.{
  Futures, FutureElement, FuturesError, no_promise, new_futures, number_from, get_future,
  get_future_by_index,
}
use cplease.Futures.Lookup.{number_futures, make_futures, get_future_at}

-- The futures with their numbers from n on.
abbrev numbered : ℕ → List ℕ → List (ℕ × ℕ)
numbered n [] = []
numbered n (future ∷ futures) = (n, future) ∷ numbered (suc n) futures

number_futures-eq :
    (done : List (ℕ × ℕ)) (futures : List ℕ)
    → number_futures done futures ≡ done ++ numbered (length done) futures
unfolding number_futures
number_futures-eq done [] = sym (append-nil done)
number_futures-eq done (future ∷ futures) =
    number_futures-eq (done ++ ((length done, future) ∷ [])) futures
    ∙ (append_assoc done ((length done, future) ∷ []) _
        ∙ ap (λ n. done ++ ((length done, future) ∷ numbered n futures)) one_more)
  where
    one_more : length (done ++ ((length done, future) ∷ [])) ≡ suc (length done)
    one_more = omega (arith, length-append done ((length done, future) ∷ []))

-- The future at a place, or the exception.
abbrev pub at_place : List ℕ → ℕ → FuturesError ⊎ ℕ
at_place [] i = inl no_promise
at_place (future ∷ futures) zero = inr future
at_place (future ∷ futures) (suc i) = at_place futures i

module _ {ℓ κ μ} {K : Type μ} (V : Type ℓ) (X : Type κ) where
  get_future_by_index-number_from :
      (futures : List (K × ℕ)) (i m : ℕ) (key : K) (future : ℕ)
      → get_elem? futures i ≡ some (key, future)
      → get_future_by_index i
          (record { elements = number_from {V = V} {X = X} m futures; ready_count = 0 })
        ≡ inr future
  unfolding get_future_by_index number_from
  get_future_by_index-number_from [] i m key future h = absurd (none-ne-some (key, future) h)
  get_future_by_index-number_from (f ∷ futures) zero m key future h =
      ap (λ (p : K × ℕ). inr p.1) (some-injective f (key, future) h)
  get_future_by_index-number_from (f ∷ futures) (suc i) m key future h =
      get_future_by_index-number_from futures i (suc m) key future h

  -- The future at a place of the list that the futures are made of.
  pub get_future_by_index-new_futures :
      (futures : List (K × ℕ)) (i : ℕ) (key : K) (future : ℕ)
      → get_elem? futures i ≡ some (key, future)
      → get_future_by_index i (new_futures {V = V} {X = X} futures) ≡ inr future
  unfolding new_futures
  get_future_by_index-new_futures futures i key future h =
      get_future_by_index-number_from futures i 0 key future h

module _ {ℓ κ} {V : Type ℓ} {X : Type κ} where
  abbrev of_elements : List (FutureElement ℕ V X) → Futures ℕ V X
  of_elements elements = record { elements = elements; ready_count = 0 }

  get_future-cons :
      (is_key : ℕ → Bool) (e : FutureElement ℕ V X) (es : List (FutureElement ℕ V X))
      → get_future is_key (of_elements (e ∷ es))
        ≡ (if is_key e.key then inr e.future else get_future is_key (of_elements es))
  unfolding get_future
  get_future-cons is_key e es = refl

module _ {ℓ κ} (V : Type ℓ) (X : Type κ) where
  get_future-numbered :
      (m n i key : ℕ) (futures : List ℕ)
      → key ≡ n + i
      → get_future
          (λ k. k == key)
          (of_elements (number_from {V = V} {X = X} m (numbered n futures)))
        ≡ at_place futures i
  unfolding number_from get_future
  get_future-numbered m n i key [] e = refl
  get_future-numbered m n zero key (future ∷ futures) e =
      rw ((==_iff n key).1 (omega (arith, e))) refl
  get_future-numbered m n (suc i) key (future ∷ futures) e = elim (Bool-cases (n == key)) [
    | inl same ↦ absurd (omega (arith, e, (==_iff n key).0 same))
    | inr other ↦ rw other (get_future-numbered (suc m) (suc n) i key futures (omega (arith, e)))
  ]

  get_future_by_index-numbered :
      (m n i : ℕ) (futures : List ℕ)
      → get_future_by_index i (of_elements (number_from {V = V} {X = X} m (numbered n futures)))
        ≡ at_place futures i
  unfolding number_from get_future_by_index
  get_future_by_index-numbered m n i [] = refl
  get_future_by_index-numbered m n zero (future ∷ futures) = refl
  get_future_by_index-numbered m n (suc i) (future ∷ futures) =
      get_future_by_index-numbered (suc m) (suc n) i futures

  -- The futures of make_futures have their places as keys: a lookup by the key i and one by the index i
  -- both give the future at the place i of the range, and beyond its end the same exception, so that
  -- get_by_index finds the future of its index whichever overload it calls.
  pub get_future-make_futures :
      (futures : List ℕ) (i : ℕ) (integral : Bool)
      → (get_future (λ k. k == i) (make_futures {V = V} {X = X} futures) ≡ at_place futures i)
        × ((get_future_by_index i (make_futures {V = V} {X = X} futures) ≡ at_place futures i)
            × (get_future_at integral (λ k. k == i) i (make_futures {V = V} {X = X} futures)
                ≡ at_place futures i))
  unfolding make_futures new_futures get_future_at
  get_future-make_futures futures i integral =
      rw (number_futures-eq [] futures) (by_key, (by_index, at_either integral))
    where
      state : Futures ℕ V X
      state = of_elements (number_from 0 (numbered 0 futures))

      by_key : get_future (λ k. k == i) state ≡ at_place futures i
      by_key = get_future-numbered 0 0 i i futures (omega arith)

      by_index : get_future_by_index i state ≡ at_place futures i
      by_index = get_future_by_index-numbered 0 0 i futures

      at_either :
          (b : Bool)
          → (if b then get_future (λ k. k == i) state else get_future_by_index i state)
            ≡ at_place futures i
      at_either true = by_key
      at_either false = by_index
