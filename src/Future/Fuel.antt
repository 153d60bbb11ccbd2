-- ===== src/Future/Fuel.antt =====
-- set_result, set_ready and set_exception of future.hpp end: how deep their continuations fulfil
-- promises is bounded by the number of states that are not ready, since each of them makes one ready
-- before its continuations run.
use cplease.Base.{
  ℕ, zero, suc, ◌≤◌, ◌<◌, ◌≡◌, refl, true, if◌then◌else◌, List, set, get_elem?, inl, inr,
  Bool-cases, Option, none, some, arith,
}
use cplease.Future.Monad.{
  already_ready, with_state, State, World, M, Run, done, threw, stuck, fault, out_of_fuel, throw,
  ◌>>◌, after_run, put_state, update_state,
}
use cplease.Future.{Callbacks, Outcome, result, exception, on_ready, settle_locked, settle, store}
use cplease.Future.Preserves.{on_ready-Preserves}
use cplease.Future.Ends.{pending, pending-set_ready, Ended, Ends, few-IsStable}
use cplease.Future.Stable.{stable-Laws, with_lock-Preserves}

module _ {ℓ κ} {V : Type ℓ} {X : Type κ} (callbacks : Callbacks V X) where
  Ended-mono {ι} : {B : Type ι} (j k : ℕ) (r : Run V X B) → j ≤ k → Ended j r → Ended k r
  Ended-mono j k (done b w) le h = omega arith
  Ended-mono j k (threw e w) le h = omega arith
  Ended-mono j k stuck le h = tt
  Ended-mono j k fault le h = tt
  Ended-mono j k out_of_fuel le h = h

  store-ready : (o : Outcome V X) (s : State V X) → (store o s).is_ready ≡ true
  store-ready (result v) s = refl
  store-ready (exception e) s = refl

  settle_locked-Ends :
      (k : ℕ) (fulfil : ℕ → Outcome V X → M V X (Unit {0}))
      → ((j : ℕ) → j < k → (q : ℕ) (o : Outcome V X) → Ends j (fulfil q o))
      → (p : ℕ) (o : Outcome V X) → Ends k (settle_locked callbacks fulfil p o)
  unfolding settle_locked
  settle_locked-Ends k fulfil hf p o w h = at_state w h (get_elem? w.states p) refl
    where
      at_state :
          (w : World V X)
          → pending w.states ≤ k
          → (found : Option (State V X)) → get_elem? w.states p ≡ found
          → Ended k (
              after_run (with_state found λ s. done s w) λ s.
                if s.is_ready
                then throw already_ready
                else update_state p (store o) >> on_ready callbacks fulfil p)
      at_state w h none e = tt
      at_state w h (some s) e = elim (Bool-cases s.is_ready) [
        | inl ready ↦ rw ready h
        | inr waits ↦
            let next : List (State V X) = set w.states p (store o s) in
            let fewer : suc (pending next) ≡ pending w.states =
              pending-set_ready w.states p s (store o s) e waits (store-ready o s) in
            rw (waits, e)
              (Ended-mono (pending next) k (on_ready callbacks fulfil p (put_state p (store o s) w))
                (omega arith)
                (on_ready-Preserves (λ w. pending w.states ≤ pending next) ⊥
                  (stable-Laws _ _ (few-IsStable (pending next))) callbacks fulfil
                  (hf (pending next) (omega arith)) p (put_state p (store o s) w) (omega arith)))
      ]

  settle-Ends :
      (fuel k : ℕ) → k < fuel → (p : ℕ) (o : Outcome V X) → Ends k (settle callbacks fuel p o)
  unfolding settle
  settle-Ends zero k h p o = absurd (omega arith)
  settle-Ends (suc fuel) k h p o =
      with_lock-Preserves _ _ (few-IsStable k) p
        (settle_locked callbacks (settle callbacks fuel) p o)
        (settle_locked-Ends k (settle callbacks fuel) (λ j lt. settle-Ends fuel j (omega arith)) p
          o)

  -- Fuel above the number of the states that are not ready is enough to fulfil a promise, whatever
  -- continuations and handlers there are: the fulfilment returns, throws, or stops at a mutex that the
  -- thread holds itself or at a state that is not there, but does not run out of fuel; and when it
  -- returns or throws, no more states are not ready than before.
  pub settle_ends :
      (fuel p : ℕ) (outcome : Outcome V X) (w : World V X)
      → pending w.states < fuel
      → Ended (pending w.states) (settle callbacks fuel p outcome w)
  settle_ends fuel p outcome w h = settle-Ends fuel (pending w.states) h p outcome w (omega arith)
