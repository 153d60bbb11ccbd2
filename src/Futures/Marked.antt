-- ===== src/Futures/Marked.antt =====
-- Outcomes of futures.hpp that are filled in one after another.
use cplease.Base.{
  ℕ, zero, suc, ◌+◌, ◌<◌, ◌≡◌, refl, ap, ◌∙◌, List, [], ◌∷◌, ◌++◌, length, length-set,
  length-replicate, set, replicate, get_elem?, get_or, some, arith, same_elements,
}
use cplease.Futures.{ResultVariant, monostate, value, failed, new_futures, number_from}
use cplease.Futures.Outcomes.{AllReady, filled, filled-set, waiting-filled, outcomes}
use cplease.Futures.Counted.{EachOnce}

filled-replicate {ℓ κ} :
    (V : Type ℓ) (X : Type κ) (n : ℕ) → filled {V = V} {X = X} (replicate n monostate) ≡ 0
filled-replicate V X zero = refl
filled-replicate V X (suc n) = omega (arith, filled-replicate V X n)

module _ {ℓ κ} {V : Type ℓ} {X : Type κ} where
  AllReady-filled : (rs : List (ResultVariant V X)) → AllReady rs → filled rs ≡ length rs
  AllReady-filled [] h = refl
  AllReady-filled (monostate ∷ rs) h = absurd h
  AllReady-filled (value v ∷ rs) h = omega (arith, AllReady-filled rs h)
  AllReady-filled (failed e ∷ rs) h = omega (arith, AllReady-filled rs h)

  pub outcomes-number_from {μ} :
      {K : Type μ} (n : ℕ) (futures : List (K × ℕ))
      → outcomes {V = V} {X = X} (number_from n futures) ≡ replicate (length futures) monostate
  unfolding number_from
  outcomes-number_from n [] = refl
  outcomes-number_from n ((key, future) ∷ futures) =
      ap (λ os. monostate ∷ os) (outcomes-number_from (suc n) futures)

  pub outcomes-new_futures {μ} :
      {K : Type μ} (futures : List (K × ℕ))
      → outcomes (new_futures {V = V} {X = X} futures).elements
        ≡ replicate (length futures) monostate
  unfolding new_futures
  outcomes-new_futures futures = outcomes-number_from 0 futures

module _ {ℓ κ} {V : Type ℓ} {X : Type κ} (rs : List (ResultVariant V X)) where
  -- The outcomes once these have become ready.
  abbrev pub marked : List ℕ → List (ResultVariant V X) → List (ResultVariant V X)
  marked [] os = os
  marked (i ∷ order) os = marked order (set os i (get_or rs i monostate))

  pub EachOnce-append :
      (order : List ℕ) (i : ℕ) (os : List (ResultVariant V X))
      → EachOnce rs order os
      → get_elem? (marked order os) i ≡ some monostate
      → EachOnce rs (order ++ (i ∷ [])) os
  EachOnce-append [] i os each h = (h, tt)
  EachOnce-append (j ∷ order) i os each h = (each.0, EachOnce-append order i _ each.1 h)

  pub marked-append :
      (order : List ℕ) (i : ℕ) (os : List (ResultVariant V X))
      → marked (order ++ (i ∷ [])) os ≡ set (marked order os) i (get_or rs i monostate)
  marked-append [] i os = refl
  marked-append (j ∷ order) i os = marked-append order i _

  length-marked :
      (order : List ℕ) (os : List (ResultVariant V X)) → length (marked order os) ≡ length os
  length-marked [] os = refl
  length-marked (i ∷ order) os = length-marked order _ ∙ length-set os i _

  filled-marked :
      (order : List ℕ) (os : List (ResultVariant V X))
      → AllReady rs
      → length os ≡ length rs
      → EachOnce rs order os
      → filled (marked order os) ≡ filled os + length order
  filled-marked [] os ready size each = omega arith
  filled-marked (i ∷ order) os ready size each =
      let r : ResultVariant V X = get_or rs i monostate in
      omega (
        arith,
        filled-set os rs i ready size each.0,
        filled-marked order (set os i r) ready (length-set os i r ∙ size) each.1,
      )

  -- When each outcome is there, all have become ready.
  pub length-marked_all :
      (order : List ℕ)
      → AllReady rs
      → EachOnce rs order (replicate (length rs) monostate)
      → ((i : ℕ)
          → i < length rs
          → get_elem? (marked order (replicate (length rs) monostate)) i ≡ get_elem? rs i)
      → length order ≡ length rs
  length-marked_all order ready each same =
      let os : List (ResultVariant V X) = replicate (length rs) monostate in
      let size : length os ≡ length rs = length-replicate (length rs) monostate in
      let all : marked order os ≡ rs =
        same_elements (marked order os) rs (length-marked order os ∙ size) same in
      omega (
        arith,
        filled-marked order os ready size each,
        ap filled all,
        AllReady-filled rs ready,
        filled-replicate V X (length rs),
      )

  -- While an outcome is missing, some have not.
  pub length-marked_missing :
      (order : List ℕ) (i : ℕ)
      → AllReady rs
      → EachOnce rs order (replicate (length rs) monostate)
      → get_elem? (marked order (replicate (length rs) monostate)) i ≡ some monostate
      → length order < length rs
  length-marked_missing order i ready each missing =
      let os : List (ResultVariant V X) = replicate (length rs) monostate in
      let size : length os ≡ length rs = length-replicate (length rs) monostate in
      omega (
        arith,
        filled-marked order os ready size each,
        waiting-filled (marked order os) i missing,
        length-marked order os,
        filled-replicate V X (length rs),
      )
