-- ===== src/Futures/Outcomes.antt =====
-- The elements of the aggregate of futures.hpp by their place, and what they have become.
use cplease.Base.{
  ℕ, zero, suc, ◌+◌, ◌≤◌, ◌<◌, ◌≡◌, refl, ap, ap₂, true, false, ◌==◌, List, [], ◌∷◌, length, set,
  get_elem?, get_or, some, ◌⊎◌, inl, inr, arith,
}
use mathlib.Core.Option.{none-ne-some, some-injective}
use cplease.Future.{Outcome, result, exception}
use cplease.Futures.{ResultVariant, monostate, value, failed, FutureElement, set_outcome}

module _ {ℓ κ} {V : Type ℓ} {X : Type κ} where
  -- What all of the outcomes amount to: the first exception, or the values.
  abbrev pub with_value : V → Outcome (List V) X → Outcome (List V) X
  with_value v (result vs) = result (v ∷ vs)
  with_value v (exception e) = exception e

  abbrev pub expected : List (ResultVariant V X) → Outcome (List V) X
  expected [] = result []
  expected (monostate ∷ outcomes) = expected outcomes
  expected (value v ∷ outcomes) = with_value v (expected outcomes)
  expected (failed e ∷ outcomes) = exception e

  abbrev pub AllReady : List (ResultVariant V X) → Type 0
  AllReady [] = Unit
  AllReady (monostate ∷ outcomes) = ⊥
  AllReady (value v ∷ outcomes) = AllReady outcomes
  AllReady (failed e ∷ outcomes) = AllReady outcomes

  AllReady-tail :
      (r : ResultVariant V X) (rs : List (ResultVariant V X)) → AllReady (r ∷ rs) → AllReady rs
  AllReady-tail monostate rs h = absurd h
  AllReady-tail (value v) rs h = h
  AllReady-tail (failed e) rs h = h

  abbrev pub is_filled : ResultVariant V X → ℕ
  is_filled monostate = 0
  is_filled (value v) = 1
  is_filled (failed e) = 1

  -- How many are ready.
  abbrev pub filled : List (ResultVariant V X) → ℕ
  filled [] = 0
  filled (o ∷ os) = is_filled o + filled os

  is_filled-le : (o : ResultVariant V X) → is_filled o ≤ 1
  is_filled-le monostate = omega arith
  is_filled-le (value v) = omega arith
  is_filled-le (failed e) = omega arith

  pub filled-le-length : (os : List (ResultVariant V X)) → filled os ≤ length os
  filled-le-length [] = omega arith
  filled-le-length (o ∷ os) = omega (arith, is_filled-le o, filled-le-length os)

  -- Every outcome that is there is that of rs.
  abbrev pub Agrees : List (ResultVariant V X) → List (ResultVariant V X) → Type (ℓ ⊔ κ)
  Agrees [] rs = Unit
  Agrees (o ∷ os) [] = Unit
  Agrees (o ∷ os) (r ∷ rs) = ((o ≡ monostate) ⊎ (o ≡ r)) × Agrees os rs

  pub filled-set :
      (os rs : List (ResultVariant V X)) (i : ℕ)
      → AllReady rs
      → length os ≡ length rs
      → get_elem? os i ≡ some monostate
      → filled (set os i (get_or rs i monostate)) ≡ suc (filled os)
  filled-set [] rs i ready same h = absurd (none-ne-some monostate h)
  filled-set (o ∷ os) [] i ready same h = absurd (omega arith)
  filled-set (o ∷ os) (monostate ∷ rs) zero ready same h = absurd ready
  filled-set (o ∷ os) (value v ∷ rs) zero ready same h =
      let none_here : is_filled o ≡ 0 = ap is_filled (some-injective o monostate h) in omega arith
  filled-set (o ∷ os) (failed e ∷ rs) zero ready same h =
      let none_here : is_filled o ≡ 0 = ap is_filled (some-injective o monostate h) in omega arith
  filled-set (o ∷ os) (r ∷ rs) (suc i) ready same h =
      omega (arith, filled-set os rs i (AllReady-tail r rs ready) (omega arith) h)

  -- A place that waits is one that is not ready.
  pub waiting-filled :
      (os : List (ResultVariant V X)) (i : ℕ)
      → get_elem? os i ≡ some monostate
      → filled os < length os
  waiting-filled [] i h = absurd (none-ne-some monostate h)
  waiting-filled (o ∷ os) zero h =
      let none_here : is_filled o ≡ 0 = ap is_filled (some-injective o monostate h) in
      omega (arith, filled-le-length os)
  waiting-filled (o ∷ os) (suc i) h = omega (arith, is_filled-le o, waiting-filled os i h)

  pub Agrees-set :
      (os rs : List (ResultVariant V X)) (i : ℕ)
      → Agrees os rs
      → Agrees (set os i (get_or rs i monostate)) rs
  Agrees-set [] rs i h = tt
  Agrees-set (o ∷ os) [] zero h = tt
  Agrees-set (o ∷ os) [] (suc i) h = tt
  Agrees-set (o ∷ os) (r ∷ rs) zero h = (inr refl, h.1)
  Agrees-set (o ∷ os) (r ∷ rs) (suc i) h = (h.0, Agrees-set os rs i h.1)

  -- When all are ready, they are those of rs.
  pub filled-Agrees :
      (os rs : List (ResultVariant V X))
      → length os ≡ length rs
      → Agrees os rs
      → filled os ≡ length os
      → os ≡ rs
  filled-Agrees [] [] same h full = refl
  filled-Agrees [] (r ∷ rs) same h full = absurd (omega arith)
  filled-Agrees (o ∷ os) [] same h full = absurd (omega arith)
  filled-Agrees (o ∷ os) (r ∷ rs) same h full = elim h.0 [
    | inl waits ↦
        let none_here : is_filled o ≡ 0 = ap is_filled waits in
        absurd (omega (arith, filled-le-length os))
    | inr e ↦
        ap₂ (λ x xs. x ∷ xs) e
          (filled-Agrees os rs (omega arith) h.1
            (omega (arith, filled-le-length os, is_filled-le o)))
  ]

module _ {ℓ κ μ} {K : Type μ} {V : Type ℓ} {X : Type κ} where
  abbrev pub outcomes : List (FutureElement K V X) → List (ResultVariant V X)
  outcomes [] = []
  outcomes (element ∷ elements) = element.outcome ∷ outcomes elements

  -- The elements are numbered by their place, from n on.
  abbrev pub NumberedFrom : ℕ → List (FutureElement K V X) → Type 0
  NumberedFrom n [] = Unit
  NumberedFrom n (element ∷ elements) = (element.index ≡ n) × NumberedFrom (suc n) elements

  pub put_outcome : List (FutureElement K V X) → ℕ → ResultVariant V X → List (FutureElement K V X)
  put_outcome [] i outcome = []
  put_outcome (element ∷ elements) zero outcome = record element { outcome = outcome } ∷ elements
  put_outcome (element ∷ elements) (suc i) outcome = element ∷ put_outcome elements i outcome

  -- The find_if by the index finds the element at that place.
  pub set_outcome-eq-put_outcome :
      (n : ℕ) (elements : List (FutureElement K V X)) (i : ℕ) (outcome : ResultVariant V X)
      → NumberedFrom n elements
      → i < length elements
      → set_outcome elements (n + i) outcome ≡ some (put_outcome elements i outcome)
  unfolding set_outcome put_outcome
  set_outcome-eq-put_outcome n [] i outcome h lt = absurd (omega arith)
  set_outcome-eq-put_outcome n (element ∷ elements) zero outcome h lt =
      let found : (element.index == n + 0) ≡ true = ground (arith, h.0) in rw found refl
  set_outcome-eq-put_outcome n (element ∷ elements) (suc i) outcome h lt =
      let other : (element.index == n + suc i) ≡ false = ground (arith, h.0) in
      let next : n + suc i ≡ suc n + i = omega arith in
      rw (other, next, set_outcome-eq-put_outcome (suc n) elements i outcome h.1 (omega arith)) refl

  pub outcomes-put_outcome :
      (elements : List (FutureElement K V X)) (i : ℕ) (outcome : ResultVariant V X)
      → outcomes (put_outcome elements i outcome) ≡ set (outcomes elements) i outcome
  unfolding put_outcome
  outcomes-put_outcome [] i outcome = refl
  outcomes-put_outcome (element ∷ elements) zero outcome = refl
  outcomes-put_outcome (element ∷ elements) (suc i) outcome =
      ap (λ os. element.outcome ∷ os) (outcomes-put_outcome elements i outcome)

  pub NumberedFrom-put_outcome :
      (n : ℕ) (elements : List (FutureElement K V X)) (i : ℕ) (outcome : ResultVariant V X)
      → NumberedFrom n elements
      → NumberedFrom n (put_outcome elements i outcome)
  unfolding put_outcome
  NumberedFrom-put_outcome n [] i outcome h = tt
  NumberedFrom-put_outcome n (element ∷ elements) zero outcome h = h
  NumberedFrom-put_outcome n (element ∷ elements) (suc i) outcome h =
      (h.0, NumberedFrom-put_outcome (suc n) elements i outcome h.1)
