-- ===== src/Futures/Order.antt =====
-- The aggregate promise of futures.hpp does not depend on the order in which the futures become ready.
use cplease.Base.{
  ℕ, suc, ◌+◌, ◌<◌, ◌≡◌, refl, sym, ap, ◌∙◌, subst, Bool, true, false, ◌==◌, List, [], ◌∷◌, length,
  set, get_elem?, get_or, Option, none, some, inl, inr, Bool-cases, arith,
}
use cplease.Future.Monad.{
  State, World, Run, done, threw, stuck, fault, out_of_fuel, pure, ◌>>=◌, ◌>>◌, after_run,
}
use cplease.Future.{Callbacks, Outcome, settle, get}
use cplease.Future.Preserves.{Holds}
use cplease.Future.Ends.{pending, Ended}
use cplease.Future.Fuel.{settle_ends}
use cplease.Future.Get.{answer_of, get-settle}
use cplease.Futures.{
  ResultVariant, monostate, Futures, fulfil_aggregate, handle_future_ready, deliver, number_from,
  new_futures,
}
use cplease.Futures.Outcomes.{
  AllReady, expected, filled, filled-set, outcomes, put_outcome, outcomes-put_outcome,
}
use cplease.Futures.Counted.{
  EachOnce, events, no_more, Waiting, Waiting-step, last-step, number_from-fresh, handle-eq,
}

module _ {ℓ κ} {V : Type ℓ} {X : Type κ} where
  -- The states after a call that returns.
  abbrev pub after_return {ι} : {B : Type ι} → Run (List V) X B → Option (World (List V) X)
  after_return (done b w) = some w
  after_return (threw e w) = none
  after_return stuck = none
  after_return fault = none
  after_return out_of_fuel = none

  -- Once all futures have reported, if that ends, get on the future of the aggregate promise gives
  -- the outcome, and the fuel does not run out; before that the reports return and no state changes.
  abbrev pub Told {ι} :
      {B : Type ι}
      → ℕ
      → Bool
      → Outcome (List V) X
      → World (List V) X
      → Run (List V) X B
      → Type (ℓ ⊔ κ)
  Told aggregate true o w r =
      Holds (λ w'. get aggregate w' ≡ answer_of o w') Unit r × Ended (pending w.states) r
  Told aggregate false o w r = after_return r ≡ some w

-- The aggregate promise is free, not ready and has no exception, whatever its continuations are, and the
-- fuel is above the number of the states that are not ready.
pub record IsWaiting {ℓ κ} {V : Type ℓ} {X : Type κ} (aggregate fuel : ℕ) (w : World (List V) X)
    : Type (ℓ ⊔ κ) where
  pub state : State (List V) X
  pub found : get_elem? w.states aggregate ≡ some state
  pub free : state.locked ≡ false
  pub waits : state.is_ready ≡ false
  pub fresh : state.m_exception ≡ none
  pub enough : pending w.states < suc fuel

module _ {ℓ κ μ} {K : Type μ} {V : Type ℓ} {X : Type κ} (callbacks : Callbacks (List V) X)
    (bad_variant_access : X) (fuel aggregate : ℕ) (w : World (List V) X)
    (h : IsWaiting aggregate fuel w) where
  -- After the last report.
  settled-Told :
      (o : Outcome (List V) X) (state : Futures K V X)
      → Told aggregate true o w
          ((settle callbacks (suc fuel) aggregate o >> pure state >>= λ state'. pure state') w)
  settled-Told o state =
      at_run (settle callbacks (suc fuel) aggregate o w)
        (get-settle callbacks fuel aggregate o h.state w h.found h.free h.waits h.fresh)
        (settle_ends callbacks (suc fuel) aggregate o w h.enough)
    where
      at_run :
          (r : Run (List V) X (Unit {0}))
          → Holds (λ w'. get aggregate w' ≡ answer_of o w') Unit r
          → Ended (pending w.states) r
          → Told aggregate true o w (after_run (after_run r λ _. pure state) λ state'. pure state')
      at_run (done b w') given ends = (given, ends)
      at_run (threw e w') given ends = (given, ends)
      at_run stuck given ends = (tt, tt)
      at_run fault given ends = (tt, tt)
      at_run out_of_fuel given ends = absurd ends

  deliver-step :
      (i : ℕ) (r : ResultVariant V X) (later : List (ℕ × ResultVariant V X))
      (state state' : Futures K V X)
      → handle_future_ready callbacks bad_variant_access (suc fuel) aggregate state i r
        ≡ pure state'
      → deliver callbacks bad_variant_access (suc fuel) aggregate ((i, r) ∷ later) state w
        ≡ deliver callbacks bad_variant_access (suc fuel) aggregate later state' w
  unfolding deliver
  deliver-step i r later state state' e = rw (deliver, e) refl

  deliver-last :
      (i : ℕ) (r : ResultVariant V X) (state state' : Futures K V X) (o : Outcome (List V) X)
      → handle_future_ready callbacks bad_variant_access (suc fuel) aggregate state i r
        ≡ (settle callbacks (suc fuel) aggregate o >> pure state')
      → Told aggregate true o w
          (deliver callbacks bad_variant_access (suc fuel) aggregate ((i, r) ∷ []) state w)
  unfolding deliver
  deliver-last i r state state' o e = rw (deliver, e) (settled-Told o state')

  -- The last future reports: no other is left.
  last_report-Told :
      (rs : List (ResultVariant V X)) (i : ℕ) (order : List ℕ) (state : Futures K V X)
      → AllReady rs
      → Waiting rs state
      → EachOnce rs (i ∷ order) (outcomes state.elements)
      → (suc state.ready_count == length rs) ≡ true
      → Told aggregate
          (filled (outcomes state.elements) + suc (length order) == length rs)
          (expected rs)
          w
          (deliver callbacks bad_variant_access
            (suc fuel)
            aggregate
            (events rs (i ∷ order))
            state
            w)
  unfolding fulfil_aggregate
  last_report-Told rs i order state ready inv each last =
      let r : ResultVariant V X = get_or rs i monostate in
      let os : List (ResultVariant V X) = outcomes state.elements in
      let all : suc (filled os) ≡ length rs = ground (arith, inv.counted) in
      let one : filled (set os i r) ≡ suc (filled os) =
        filled-set os rs i ready inv.as_many each.0 in
      let next : Futures K V X = record {
        elements = put_outcome state.elements i r;
        ready_count = suc state.ready_count;
      } in
      let done = last-step rs state i ready inv each.0 all in
      let none_left : order ≡ [] =
        no_more rs order (subst (λ xs. EachOnce rs order xs) done.1 each.1)
          (ap filled (sym done.1) ∙ (one ∙ all)) in
      let full : (filled os + suc (length order) == length rs) ≡ true =
        ground (arith, ap length none_left) in
      let handled : handle_future_ready callbacks bad_variant_access (suc fuel) aggregate state i r
          ≡ (settle callbacks (suc fuel) aggregate (expected rs) >> pure next) =
        handle-eq callbacks bad_variant_access (suc fuel) aggregate rs state i inv each.0
        ∙ rw (last, done.0, fulfil_aggregate) refl in
      rw (full, none_left) (deliver-last i r state next (expected rs) handled)

  deliver-Told :
      (rs : List (ResultVariant V X)) (order : List ℕ) (state : Futures K V X)
      → AllReady rs
      → Waiting rs state
      → EachOnce rs order (outcomes state.elements)
      → Told aggregate
          (filled (outcomes state.elements) + length order == length rs)
          (expected rs)
          w
          (deliver callbacks bad_variant_access (suc fuel) aggregate (events rs order) state w)
  unfolding deliver
  deliver-Told rs [] state ready inv each =
      let early : (filled (outcomes state.elements) + 0 == length rs) ≡ false =
        ground (arith, inv.waits) in
      rw early refl
  deliver-Told rs (i ∷ order) state ready inv each =
      let r : ResultVariant V X = get_or rs i monostate in
      let os : List (ResultVariant V X) = outcomes state.elements in
      let one : filled (set os i r) ≡ suc (filled os) =
        filled-set os rs i ready inv.as_many each.0 in
      let next : Futures K V X = record {
        elements = put_outcome state.elements i r;
        ready_count = suc state.ready_count;
      } in
      elim (Bool-cases (suc state.ready_count == length rs)) [
        | inl last ↦ last_report-Told rs i order state ready inv each last
        | inr more ↦
            let fewer : suc (filled os) < length rs = ground (arith, inv.counted, inv.waits) in
            let put : outcomes (put_outcome state.elements i r) ≡ set os i r =
              outcomes-put_outcome state.elements i r in
            let count : filled (outcomes (put_outcome state.elements i r)) + length order
                ≡ filled os + suc (length order) =
              omega (arith, ap filled put, one) in
            let handled : handle_future_ready callbacks bad_variant_access (suc fuel) aggregate
                  state i r
                ≡ pure next =
              handle-eq callbacks bad_variant_access (suc fuel) aggregate rs state i inv each.0
              ∙ rw more refl in
            subst
              (λ q. Told aggregate (filled os + suc (length order) == length rs) (expected rs) w q)
              (sym (deliver-step i r (events rs order) state next handled))
              (subst
                (λ k. Told aggregate (k == length rs) (expected rs) w (
                  deliver callbacks bad_variant_access (suc fuel) aggregate (events rs order) next
                    w))
                count
                (deliver-Told rs order next ready (Waiting-step rs state i ready inv each.0 fewer)
                  (subst (λ xs. EachOnce rs order xs) (sym put) each.1)))
      ]

  -- Some futures, at least one, that become ready in any order, each once, with the outcomes rs in the
  -- order of the futures; the aggregate promise is free, not ready and has no exception, and the fuel is
  -- above the number of the states that are not ready. Once all have reported, if that ends, whatever
  -- the continuations of the aggregate promise are, get on its future returns the values in the order of
  -- the futures, or throws the exception of the first future in that order that has one, and the fuel does
  -- not run out. While one is missing the reports return and have changed no state.
  pub deliver-new_futures :
      (futures : List (K × ℕ)) (rs : List (ResultVariant V X)) (order : List ℕ)
      → 0 < length futures
      → length futures ≡ length rs
      → AllReady rs
      → EachOnce rs order (outcomes (new_futures {V = V} {X = X} futures).elements)
      → Told aggregate (length order == length rs) (expected rs) w (
          deliver callbacks bad_variant_access
            (suc fuel)
            aggregate
            (events rs order)
            (new_futures futures)
            w)
  unfolding new_futures
  deliver-new_futures futures rs order some_future same ready each =
      let fresh_elements = number_from-fresh 0 futures rs in
      let nothing : filled (outcomes {V = V} {X = X} (number_from 0 futures)) ≡ 0 =
        fresh_elements.1.0 in
      let start : Waiting rs (new_futures futures) = record {
        numbered = fresh_elements.0;
        counted = sym nothing;
        agrees = fresh_elements.1.1.0;
        as_many = fresh_elements.1.1.1 ∙ same;
        waits = omega (arith, nothing);
      } in
      subst
        (λ k. Told aggregate (k == length rs) (expected rs) w (
          deliver callbacks bad_variant_access (suc fuel) aggregate (events rs order)
            (new_futures futures) w))
        (omega (arith, nothing)) (deliver-Told rs order (new_futures futures) ready start each)
