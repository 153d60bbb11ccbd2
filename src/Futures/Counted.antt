-- ===== src/Futures/Counted.antt =====
-- handle_future_ready of futures.hpp for one of the futures, and the count of those that are ready.
use cplease.Base.{
  ℕ, suc, ◌+◌, ◌<◌, ◌≡◌, refl, sym, ap, ◌∙◌, subst, if◌then◌else◌, ◌==◌, List, [], ◌∷◌, map, length,
  set, get_elem?, get_or, some, inl, arith, length-set, get_elem?-lt,
}
use cplease.Future.Monad.{pure, ◌>>◌}
use cplease.Future.{Callbacks}
use cplease.Futures.{
  ResultVariant, monostate, FutureElement, Futures, set_outcome, aggregate_outcome,
  fulfil_aggregate, handle_future_ready, number_from,
}
use cplease.Futures.Outcomes.{
  AllReady, expected, filled, Agrees, Agrees-set, filled-set, waiting-filled, filled-Agrees,
  outcomes, NumberedFrom, NumberedFrom-put_outcome, put_outcome, outcomes-put_outcome,
  set_outcome-eq-put_outcome,
}
use cplease.Futures.Verdict.{verdict, aggregate_outcome-Verdict}

module _ {ℓ κ} {V : Type ℓ} {X : Type κ} where
  -- Each of the futures that become ready, in an order, was not ready before; each has its outcome in rs.
  abbrev pub EachOnce : List (ResultVariant V X) → List ℕ → List (ResultVariant V X) → Type (ℓ ⊔ κ)
  EachOnce rs [] os = Unit
  EachOnce rs (i ∷ order) os =
      (get_elem? os i ≡ some monostate) × EachOnce rs order (set os i (get_or rs i monostate))

  abbrev pub events : List (ResultVariant V X) → List ℕ → List (ℕ × ResultVariant V X)
  events rs order = map (λ i. (i, get_or rs i monostate)) order

  pub no_more :
      (rs : List (ResultVariant V X)) (order : List ℕ)
      → EachOnce rs order rs
      → filled rs ≡ length rs
      → order ≡ []
  no_more rs [] each full = refl
  no_more rs (i ∷ order) each full =
      let waits : filled rs < length rs = waiting-filled rs i each.0 in absurd (omega arith)

module _ {ℓ κ μ} {K : Type μ} {V : Type ℓ} {X : Type κ} where
  -- While some future is not ready.
  pub record Waiting (rs : List (ResultVariant V X)) (state : Futures K V X) : Type (ℓ ⊔ κ) where
    pub numbered : NumberedFrom 0 state.elements
    pub counted : state.ready_count ≡ filled (outcomes state.elements)
    pub agrees : Agrees (outcomes state.elements) rs
    pub as_many : length (outcomes state.elements) ≡ length rs
    pub waits : filled (outcomes state.elements) < length rs

  length-outcomes :
      (elements : List (FutureElement K V X)) → length (outcomes elements) ≡ length elements
  length-outcomes [] = refl
  length-outcomes (element ∷ elements) = ap suc (length-outcomes elements)

  -- A future becomes ready, and it is not the last.
  pub Waiting-step :
      (rs : List (ResultVariant V X)) (state : Futures K V X) (i : ℕ)
      → AllReady rs
      → Waiting rs state
      → get_elem? (outcomes state.elements) i ≡ some monostate
      → suc (filled (outcomes state.elements)) < length rs
      → Waiting rs (record state {
        elements = put_outcome state.elements i (get_or rs i monostate);
        ready_count = suc state.ready_count;
      })
  Waiting-step rs state i ready inv h more =
      let r : ResultVariant V X = get_or rs i monostate in
      let os : List (ResultVariant V X) = outcomes state.elements in
      let put : outcomes (put_outcome state.elements i r) ≡ set os i r =
        outcomes-put_outcome state.elements i r in
      let one : filled (outcomes (put_outcome state.elements i r)) ≡ suc (filled os) =
        ap filled put ∙ filled-set os rs i ready inv.as_many h in
      record {
        numbered = NumberedFrom-put_outcome 0 state.elements i r inv.numbered;
        counted = ap suc inv.counted ∙ sym one;
        agrees = subst (λ xs. Agrees xs rs) (sym put) (Agrees-set os rs i inv.agrees);
        as_many = ap length put ∙ (length-set os i r ∙ inv.as_many);
        waits = subst (λ k. k < length rs) (sym one) more;
      }

  -- The last future becomes ready.
  pub last-step :
      (rs : List (ResultVariant V X)) (state : Futures K V X) (i : ℕ)
      → AllReady rs
      → Waiting rs state
      → get_elem? (outcomes state.elements) i ≡ some monostate
      → suc (filled (outcomes state.elements)) ≡ length rs
      → (aggregate_outcome (put_outcome state.elements i (get_or rs i monostate))
          ≡ some (expected rs))
        × (set (outcomes state.elements) i (get_or rs i monostate) ≡ rs)
  last-step rs state i ready inv h last =
      let r : ResultVariant V X = get_or rs i monostate in
      let os : List (ResultVariant V X) = outcomes state.elements in
      let size : length (set os i r) ≡ length os = length-set os i r in
      let all : set os i r ≡ rs =
        filled-Agrees (set os i r) rs (size ∙ inv.as_many) (Agrees-set os rs i inv.agrees)
          (omega (arith, filled-set os rs i ready inv.as_many h)) in
      let elements : List (FutureElement K V X) = put_outcome state.elements i r in
      let outs : outcomes elements ≡ rs = outcomes-put_outcome state.elements i r ∙ all in
      (
        aggregate_outcome-Verdict elements (expected (outcomes elements))
              (verdict elements (subst AllReady (sym outs) ready))
            ∙ ap (λ xs. some (expected xs)) outs,
        all,
      )

  -- The elements of new futures are numbered, and none of them is ready.
  pub number_from-fresh :
      (n : ℕ) (futures : List (K × ℕ)) (rs : List (ResultVariant V X))
      → NumberedFrom {V = V} {X = X} n (number_from n futures)
        × ((filled (outcomes {V = V} {X = X} (number_from n futures)) ≡ 0)
            × (Agrees (outcomes (number_from n futures)) rs
                × (length (outcomes {V = V} {X = X} (number_from n futures)) ≡ length futures)))
  unfolding number_from
  number_from-fresh n [] rs = (tt, (refl, (tt, refl)))
  number_from-fresh n ((key, future) ∷ futures) [] =
      let later = number_from-fresh (suc n) futures [] in
      ((refl, later.0), (omega (arith, later.1.0), (tt, ap suc later.1.1.1)))
  number_from-fresh n ((key, future) ∷ futures) (r ∷ rs) =
      let later = number_from-fresh (suc n) futures rs in
      ((refl, later.0), (omega (arith, later.1.0), ((inl refl, later.1.1.0), ap suc later.1.1.1)))

module _ {ℓ κ μ} {K : Type μ} {V : Type ℓ} {X : Type κ} (callbacks : Callbacks (List V) X)
    (bad_variant_access : X) (fuel aggregate : ℕ) where
  pub handle-eq :
      (rs : List (ResultVariant V X)) (state : Futures K V X) (i : ℕ)
      → Waiting rs state
      → get_elem? (outcomes state.elements) i ≡ some monostate
      → handle_future_ready callbacks bad_variant_access fuel aggregate state i
          (get_or rs i monostate)
        ≡ (let elements = put_outcome state.elements i (get_or rs i monostate) in
            let state' : Futures K V X = record state {
              elements = elements;
              ready_count = suc state.ready_count;
            } in
            if suc state.ready_count == length rs
            then (fulfil_aggregate callbacks bad_variant_access fuel aggregate
                  (aggregate_outcome elements)
                >> pure state')
            else pure state')
  unfolding handle_future_ready
  handle-eq rs state i inv h =
      let r : ResultVariant V X = get_or rs i monostate in
      let os : List (ResultVariant V X) = outcomes state.elements in
      let bound : i < length state.elements =
        omega (arith, get_elem?-lt os i monostate h, length-outcomes state.elements) in
      let found : set_outcome state.elements (0 + i) r ≡ some (put_outcome state.elements i r) =
        set_outcome-eq-put_outcome 0 state.elements i r inv.numbered bound in
      let same : set_outcome state.elements i r ≡ some (put_outcome state.elements i r) =
        ap (λ k. set_outcome state.elements k r) (omega arith) ∙ found in
      let size : length (put_outcome state.elements i r) ≡ length rs =
        sym (length-outcomes (put_outcome state.elements i r))
        ∙ (ap length (outcomes-put_outcome state.elements i r)
            ∙ (length-set os i r ∙ inv.as_many)) in
      rw (handle_future_ready, same, size) refl
