-- ===== src/Pool/Functions/Reports/Amounts.antt =====
-- What the reports of the futures of map of thread_pool.hpp amount to.
use cplease.Base.{
  ℕ, zero, suc, ◌+◌, ◌<◌, ◌≡◌, refl, sym, ap, ◌∙◌, subst, true, false, if◌then◌else◌, ◌==◌, List,
  [], ◌∷◌, length, replicate, get_elem?, get_elem?-eq-get_or, get_or, some, arith,
}
use mathlib.Core.Bool.{true≢false}
use mathlib.Core.Option.{none-ne-some, some-injective}
use mathlib.Core.List.{Mem, mem-cons}
use mathlib.Core.Logic.Or
use cplease.Future.Monad.{State, World}
use cplease.Future.{Callbacks, Reply, returns, throws}
use cplease.Future.Ready.{IsReady, ready_at}
use cplease.Futures.{ResultVariant, monostate, new_futures, deliver}
use cplease.Futures.Outcomes.{AllReady, expected, outcomes}
use cplease.Futures.Counted.{EachOnce}
use cplease.Futures.Order.{IsWaiting, Told, deliver-new_futures}
use cplease.Futures.Marked.{outcomes-new_futures, length-marked_all, length-marked_missing}
use cplease.Pool.Functions.Observed.{keyed}
use cplease.Pool.Functions.Maps.{mapped, functor_at}
use cplease.Pool.Functions.{Values}
use cplease.Pool.Functions.Reports.{reports, outcome_of, results_of, start, Reported}

module _ {ℓ κ} {V : Type ℓ} {X : Type κ} where
  ready_at-found :
      (ss : List (State V X)) (p : ℕ)
      → ready_at ss p ≡ true
      → (s : State V X) × ((get_elem? ss p ≡ some s) × (s.is_ready ≡ true))
  ready_at-found [] p h = absurd (true≢false (sym h))
  ready_at-found (s ∷ ss) zero h = (s, (refl, h))
  ready_at-found (s ∷ ss) (suc p) h = ready_at-found ss p h

module _ {ℓ} {V : Type ℓ} (d : Values V) where
  length-keyed : (n : ℕ) (range : List V) → length (keyed d n range) ≡ length range
  length-keyed n [] = refl
  length-keyed n (v ∷ range) = ap suc (length-keyed (suc n) range)

  pub mapped-Mem :
      (func : ℕ) (range : List V) (k i : ℕ) (v : V)
      → get_elem? range i ≡ some v
      → Mem
          (record { func = functor_at d func i; arguments = v; promise = k + i })
          (mapped d func k range)
  mapped-Mem func [] k i v e = absurd (none-ne-some v e)
  mapped-Mem func (u ∷ range) k zero v e = mem-cons.1 (
      Or.inl (
        ap (λ x. record { func = func; arguments = x; promise = k + 0 })
          (sym (some-injective u v e))
        ∙ ap (λ p. record { func = func; arguments = u; promise = p }) (omega arith)))
  mapped-Mem func (u ∷ range) k (suc i) v e = mem-cons.1 (
      Or.inr (
        subst
          (λ p.
            Mem
              (record { func = functor_at d (d.moved_functor func) i; arguments = v; promise = p })
              (mapped d (d.moved_functor func) (suc k) range))
          (omega arith) (mapped-Mem (d.moved_functor func) range (suc k) i v e)))

module _ {ℓ κ} {V : Type ℓ} {X : Type κ} (d : Values V) (callbacks : Callbacks V X) where
  pub length-results_of :
      (func : ℕ) (range : List V) → length (results_of d callbacks func range) ≡ length range
  length-results_of func [] = refl
  length-results_of func (v ∷ range) = ap suc (length-results_of (d.moved_functor func) range)

  pub results_of-AllReady :
      (func : ℕ) (range : List V) → AllReady (results_of d callbacks func range)
  results_of-AllReady func [] = tt
  results_of-AllReady func (v ∷ range) =
      first (callbacks.on_value func v) (results_of d callbacks (d.moved_functor func) range)
        (results_of-AllReady (d.moved_functor func) range)
    where
      first :
          (r : Reply V X) (rs : List (ResultVariant V X))
          → AllReady rs
          → AllReady (outcome_of r ∷ rs)
      first (returns v) rs h = h
      first (throws x) rs h = h

  pub get_or-results_of :
      (func : ℕ) (range : List V) (i : ℕ) (v : V)
      → get_elem? range i ≡ some v
      → get_or (results_of d callbacks func range) i monostate
        ≡ outcome_of (callbacks.on_value (functor_at d func i) v)
  get_or-results_of func [] i v e = absurd (none-ne-some v e)
  get_or-results_of func (u ∷ range) zero v e =
      ap (λ x. outcome_of (callbacks.on_value func x)) (some-injective u v e)
  get_or-results_of func (u ∷ range) (suc i) v e =
      get_or-results_of (d.moved_functor func) range i v e

module _ {ℓ κ} {V : Type ℓ} {X : Type κ} (d : Values V) (base n : ℕ)
    (rs : List (ResultVariant V X)) where
  -- What the reports amount to.
  pub reported-aggregate :
      (callbacks : Callbacks (List V) X) (bad_variant_access : X) (fuel aggregate : ℕ)
      (u : World (List V) X) (range : List V) {w : World V X}
      → IsWaiting aggregate fuel u
      → 0 < length rs
      → length range ≡ length rs
      → AllReady rs
      → (h : Reported base n rs w)
      → Told aggregate (length h.order == length rs) (expected rs) u (
          deliver callbacks bad_variant_access
            (suc fuel)
            aggregate
            (reports base n (length rs) w.log)
            (new_futures {V = V} {X = X} (keyed d n range))
            u)
  reported-aggregate callbacks bad_variant_access fuel aggregate u range waiting some_future size
        ready h =
      let fresh : outcomes (new_futures {V = V} {X = X} (keyed d n range)).elements ≡ start rs =
        outcomes-new_futures (keyed d n range)
        ∙ ap (λ k. replicate k monostate) (length-keyed d n range ∙ size) in
      subst
        (λ es. Told aggregate (length h.order == length rs) (expected rs) u (
          deliver callbacks bad_variant_access (suc fuel) aggregate es
            (new_futures {V = V} {X = X} (keyed d n range)) u))
        (sym h.logged)
        (deliver-new_futures callbacks bad_variant_access fuel aggregate u waiting (keyed d n range)
          rs h.order (omega (arith, length-keyed d n range)) (length-keyed d n range ∙ size) ready
          (subst (EachOnce rs h.order) (sym fresh) h.each))

  pub all_reported :
      (w : World V X)
      → AllReady rs
      → (h : Reported base n rs w) → ((i : ℕ) → i < length rs → IsReady (n + i) w)
      → length h.order ≡ length rs
  all_reported w ready h all = length-marked_all rs h.order ready h.each λ i lt.
      let (s, found) = ready_at-found w.states (n + i) (all i lt) in
      h.now i s lt found.0
      ∙ (ap (λ b. some (if b then get_or rs i monostate else monostate)) found.1
          ∙ sym (get_elem?-eq-get_or rs i monostate lt))

  pub one_missing :
      (w : World V X) (i : ℕ) (s : State V X)
      → AllReady rs
      → (h : Reported base n rs w) → i < length rs
      → get_elem? w.states (n + i) ≡ some s
      → s.is_ready ≡ false
      → length h.order < length rs
  one_missing w i s ready h lt found waits =
      length-marked_missing rs h.order i ready h.each
        (h.now i s lt found ∙ ap (λ b. some (if b then get_or rs i monostate else monostate)) waits)
