-- ===== src/Future/Ready.antt =====
-- A state of future.hpp that is ready stays so, and a call stays made, while promises are fulfilled.
use cplease.Base.{
  ℕ, zero, suc, ◌≡◌, refl, sym, ap, ◌∙◌, Bool, true, false, List, [], ◌∷◌, set, get_elem?, some,
}
use mathlib.Core.Option.{none-ne-some, some-injective}
use mathlib.Core.List.{Mem, mem-append_left}
use cplease.Future.Monad.{Event, put_state, State, World, M, state_of, update_state}
use cplease.Future.{Callbacks, Outcome, result, exception, settle_locked, settle, store}
use cplease.Future.Preserves.{
  Preserves, >>=-Preserves, >>-Preserves, if_Preserves, with_state-Holds, on_ready-Preserves,
}
use cplease.Future.Stable.{IsStable, stable-Laws, with_lock-Preserves}

module _ {ℓ κ} {V : Type ℓ} {X : Type κ} where
  -- m_is_ready of a state; there is such a state.
  abbrev pub ready_at : List (State V X) → ℕ → Bool
  ready_at [] p = false
  ready_at (s ∷ ss) zero = s.is_ready
  ready_at (s ∷ ss) (suc p) = ready_at ss p

  abbrev pub IsReady : ℕ → World V X → Type 0
  IsReady p w = ready_at w.states p ≡ true

  ready_at-set :
      (ss : List (State V X)) (p q : ℕ) (s t : State V X)
      → get_elem? ss q ≡ some s
      → (s.is_ready ≡ true → t.is_ready ≡ true)
      → ready_at ss p ≡ true
      → ready_at (set ss q t) p ≡ true
  ready_at-set [] p q s t e keeps h = h
  ready_at-set (x ∷ ss) zero zero s t e keeps h =
      keeps (sym (ap (λ y. y.is_ready) (some-injective x s e)) ∙ h)
  ready_at-set (x ∷ ss) zero (suc q) s t e keeps h = h
  ready_at-set (x ∷ ss) (suc p) zero s t e keeps h = h
  ready_at-set (x ∷ ss) (suc p) (suc q) s t e keeps h = ready_at-set ss p q s t e keeps h

  pub ready_at-get_elem? :
      (ss : List (State V X)) (p : ℕ) (s : State V X)
      → get_elem? ss p ≡ some s
      → ready_at ss p ≡ s.is_ready
  ready_at-get_elem? [] p s e = absurd (none-ne-some s e)
  ready_at-get_elem? (x ∷ ss) zero s e = ap (λ y. y.is_ready) (some-injective x s e)
  ready_at-get_elem? (x ∷ ss) (suc p) s e = ready_at-get_elem? ss p s e

  pub ready_at-set_self :
      (ss : List (State V X)) (p : ℕ) (s t : State V X)
      → get_elem? ss p ≡ some s
      → t.is_ready ≡ true
      → ready_at (set ss p t) p ≡ true
  ready_at-set_self [] p s t e h = absurd (none-ne-some s e)
  ready_at-set_self (x ∷ ss) zero s t e h = h
  ready_at-set_self (x ∷ ss) (suc p) s t e h = ready_at-set_self ss p s t e h

  pub IsReady-IsStable : (p : ℕ) → IsStable (IsReady p)
  IsReady-IsStable p = record {
    one_event = λ w e h. h;
    same_ready = λ w q s t e same h. ready_at-set w.states p q s t e (λ r. same ∙ r) h;
  }

  pub store-is_ready : (o : Outcome V X) (s : State V X) → (store o s).is_ready ≡ true
  store-is_ready (result v) s = refl
  store-is_ready (exception e) s = refl

  -- A property that a fulfilment keeps too.
  pub record IsKept {μ} (P : World V X → Type μ) : Type (ℓ ⊔ κ ⊔ μ) where
    pub stable : IsStable P
    pub stored :
        (w : World V X) (q : ℕ) (s : State V X) (o : Outcome V X)
        → get_elem? w.states q ≡ some s
        → P w
        → P (put_state q (store o s) w)

  pub IsReady-IsKept : (p : ℕ) → IsKept (IsReady p)
  IsReady-IsKept p = record {
    stable = IsReady-IsStable p;
    stored = λ w q s o e h. ready_at-set w.states p q s (store o s) e (λ _. store-is_ready o s) h;
  }

  -- A user function was called, with what.
  abbrev pub WasCalled : Event V X → World V X → Type (ℓ ⊔ κ)
  WasCalled event w = Mem event w.log

  pub WasCalled-IsKept : (event : Event V X) → IsKept (WasCalled event)
  WasCalled-IsKept event = record {
    stable = record {
      one_event = λ w e h. mem-append_left (e ∷ []) h;
      same_ready = λ w q s t e same h. h;
    };
    stored = λ w q s o e h. h;
  }

module _ {ℓ κ μ} {V : Type ℓ} {X : Type κ} (callbacks : Callbacks V X) (P : World V X → Type μ)
    (kept : IsKept P) where
  store-Preserves : (q : ℕ) (o : Outcome V X) → Preserves P Unit (update_state q (store o))
  store-Preserves q o w h =
      with_state-Holds P Unit (get_elem? w.states q) _ λ s e. kept.stored w q s o e h

  settle_locked-Preserves :
      (fulfil : ℕ → Outcome V X → M V X (Unit {0}))
      → ((q : ℕ) (o : Outcome V X) → Preserves P Unit (fulfil q o))
      → (q : ℕ) (o : Outcome V X) → Preserves P Unit (settle_locked callbacks fulfil q o)
  unfolding settle_locked
  settle_locked-Preserves fulfil hf q o =
      >>=-Preserves P Unit (state_of q) _
        (λ w h. with_state-Holds P Unit (get_elem? w.states q) _ λ t e. h)
        λ (t : State V X).
          if_Preserves P Unit t.is_ready _ _ (λ w h. h)
            (>>-Preserves P Unit _ _ (store-Preserves q o)
              (on_ready-Preserves P Unit (stable-Laws P Unit kept.stable) callbacks fulfil hf q))

  pub settle-Preserves :
      (fuel q : ℕ) (o : Outcome V X) → Preserves P Unit (settle callbacks fuel q o)
  unfolding settle
  settle-Preserves zero q o = λ w h. tt
  settle-Preserves (suc fuel) q o =
      with_lock-Preserves P Unit kept.stable q _
        (settle_locked-Preserves (settle callbacks fuel) (settle-Preserves fuel) q o)
