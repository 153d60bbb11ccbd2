-- ===== src/Future/Ends.antt =====
-- The states of future.hpp that are not ready, and what changes their number.
use cplease.Base.{
  ℕ, zero, suc, ◌+◌, ◌≤◌, ◌≡◌, refl, sym, ap, ◌∙◌, Bool, true, false, if◌then◌else◌, List, [], ◌∷◌,
  set, get_elem?, Option, none, some, arith,
}
use mathlib.Core.Option.{none-ne-some}
use cplease.Future.Monad.{State, M, Run}
use cplease.Future.Preserves.{Holds, Preserves}
use cplease.Future.Stable.{IsStable}

module _ {ℓ κ} {V : Type ℓ} {X : Type κ} where
  -- The number of the states that are not ready.
  abbrev pub pending : List (State V X) → ℕ
  pending [] = 0
  pending (s ∷ ss) = (if s.is_ready then 0 else 1) + pending ss

  pub ready_or : Bool → Option (State V X) → Bool
  ready_or d none = d
  ready_or d (some s) = s.is_ready

  -- Replacing a state by one that is as ready keeps the count.
  pub pending-set :
      (ss : List (State V X)) (p : ℕ) (s t : State V X)
      → get_elem? ss p ≡ some s
      → t.is_ready ≡ s.is_ready
      → pending (set ss p t) ≡ pending ss
  unfolding ready_or
  pending-set [] p s t h e = refl
  pending-set (x ∷ ss) zero s t h e =
      ap (λ b. (if b then 0 else 1) + pending ss) (e ∙ sym (ap (ready_or true) h))
  pending-set (x ∷ ss) (suc p) s t h e =
      ap (λ n. (if x.is_ready then 0 else 1) + n) (pending-set ss p s t h e)

  -- Making a state ready lowers it.
  pub pending-set_ready :
      (ss : List (State V X)) (p : ℕ) (s t : State V X)
      → get_elem? ss p ≡ some s
      → s.is_ready ≡ false
      → t.is_ready ≡ true
      → suc (pending (set ss p t)) ≡ pending ss
  unfolding ready_or
  pending-set_ready [] p s t h e f = absurd (none-ne-some s h)
  pending-set_ready (x ∷ ss) zero s t h e f =
      let waits : x.is_ready ≡ false = ap (ready_or false) h ∙ e in rw (f, waits) (omega arith)
  pending-set_ready (x ∷ ss) (suc p) s t h e f =
      let rest : suc (pending (set ss p t)) ≡ pending ss = pending-set_ready ss p s t h e f in
      omega arith

  -- A step has ended, and has left at most k states that are not ready.
  abbrev pub Ended {ι} : {B : Type ι} → ℕ → Run V X B → Type 0
  Ended k = Holds (λ w. pending w.states ≤ k) ⊥

  -- It does so from at most k states that are not ready.
  abbrev pub Ends {ι} : {B : Type ι} → ℕ → M V X B → Type (ℓ ⊔ κ)
  Ends k = Preserves (λ w. pending w.states ≤ k) ⊥

  pub few-IsStable : (k : ℕ) → IsStable {V = V} {X = X} (λ w. pending w.states ≤ k)
  few-IsStable k = record {
    one_event = λ w e h. h;
    same_ready = λ w q s t e same h.
        let kept : pending (set w.states q t) ≡ pending w.states =
          pending-set w.states q s t e same in
        omega arith;
  }
