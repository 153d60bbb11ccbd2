-- ===== src/Pool/Functions/Reports/Lambdas.antt =====
-- Which of the calls of user functions are reports of the futures of map of thread_pool.hpp.
use cplease.Base.{
  ℕ, ◌+◌, ◌-◌, ◌≤◌, ◌<◌, ◌≡◌, refl, sym, ap, ◌∙◌, true, ◌&&◌, leb, ltb, List, [], ◌∷◌, ◌++◌,
  append_assoc, append-nil, ◌⊎◌, inl, inr, Bool-cases, arith,
}
use cplease.Future.Monad.{Event, called, handled}
use cplease.Future.{Outcome, result, exception}
use cplease.Futures.{ResultVariant, value, failed}
use cplease.Pool.Functions.Reports.{of_lambda, report_of, reports, Apart}

-- A promise is one of the futures or none of them.
pub position : (n len p : ℕ) → ((i : ℕ) × ((i < len) × (p ≡ n + i))) ⊎ (n ≤ p → n + len ≤ p)
position n len p = elim (Bool-cases (leb n p && ltb p (n + len))) [
  | inl inside ↦ inl (p - n, (ground arith, ground arith))
  | inr outside ↦ inr λ h. ground arith
]

module _ {ℓ κ} {V : Type ℓ} {X : Type κ} (base n len : ℕ) where
  pub of_lambda-Apart :
      (f : ℕ) (r : ResultVariant V X) → Apart base n len f → of_lambda base n len f r ≡ []
  of_lambda-Apart f r apart = elim (Bool-cases (leb (base + n) f && ltb f (base + n + len))) [
    | inl inside ↦ let behind : base + n + len ≤ f = apart (ground arith) in absurd (ground arith)
    | inr outside ↦ rw outside refl
  ]

  pub of_lambda-inside :
      (i : ℕ) (r : ResultVariant V X)
      → i < len
      → of_lambda base n len (base + (n + i)) r ≡ (i, r) ∷ []
  of_lambda-inside i r h =
      let inside : (leb (base + n) (base + (n + i)) && ltb (base + (n + i)) (base + n + len))
          ≡ true =
        ground arith in
      let index : base + (n + i) - (base + n) ≡ i = omega arith in rw (inside, index) refl

  reports-append :
      (log log' : List (Event V X))
      → reports base n len (log ++ log') ≡ reports base n len log ++ reports base n len log'
  unfolding reports
  reports-append [] log' = refl
  reports-append (event ∷ log) log' =
      ap (λ rs. report_of base n len event ++ rs) (reports-append log log')
      ∙ sym (append_assoc (report_of base n len event) _ _)

  pub reports-one :
      (log : List (Event V X)) (event : Event V X)
      → reports base n len (log ++ (event ∷ []))
        ≡ reports base n len log ++ report_of base n len event
  unfolding reports
  reports-one log event =
      reports-append log (event ∷ [])
      ∙ ap (λ rs. reports base n len log ++ rs) (append-nil (report_of base n len event))

-- Not a call of a lambda.
abbrev pub ApartEvent {ℓ κ} : {V : Type ℓ} {X : Type κ} → ℕ → ℕ → ℕ → Event V X → Type 0
ApartEvent base n len (called f v) = Apart base n len f
ApartEvent base n len (handled f e) = Apart base n len f

-- The call of a lambda.
module _ {ℓ κ} {V : Type ℓ} {X : Type κ} where
  abbrev pub event_of : ℕ → Outcome V X → Event V X
  event_of f (result v) = called f v
  event_of f (exception e) = handled f e

  abbrev pub variant : Outcome V X → ResultVariant V X
  variant (result v) = value v
  variant (exception e) = failed e
