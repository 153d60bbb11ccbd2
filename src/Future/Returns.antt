-- ===== src/Future/Returns.antt =====
-- A fulfilment of future.hpp that returns has made its promise ready.
use cplease.Base.{
  ℕ, zero, suc, ◌≡◌, ◌∙◌, refl, true, if◌then◌else◌, get_elem?, Option, none, some, Bool-cases, inl,
  inr,
}
use cplease.Future.Monad.{
  Exception, State, World, M, Run, done, threw, stuck, fault, out_of_fuel, already_ready, throw,
  ◌>>◌, after_run, catch_run, put_state, update_state, with_state,
}
use cplease.Future.{Callbacks, Outcome, on_ready, settle_locked, settle, store}
use cplease.Future.Preserves.{
  Holds, on_ready-Preserves, with_state-Holds, if_Holds, unlock_run-Holds,
}
use cplease.Future.Stable.{stable-Laws, unlock-P}
use cplease.Future.Ready.{
  ready_at-get_elem?, IsReady, IsReady-IsStable, ready_at-set_self, IsReady-IsKept,
  settle-Preserves, store-is_ready,
}

module _ {ℓ κ μ} {V : Type ℓ} {X : Type κ} (P : World V X → Type μ) where
  -- The states have P if the step returns.
  abbrev pub Returns {ι} : {B : Type ι} → Run V X B → Type μ
  Returns (done b w) = P w
  Returns (threw e w) = Unit
  Returns stuck = Unit
  Returns fault = Unit
  Returns out_of_fuel = Unit

  pub Holds-Returns {ι} : {B : Type ι} (r : Run V X B) → Holds P Unit r → Returns r
  Holds-Returns (done b w) h = h
  Holds-Returns (threw e w) h = tt
  Holds-Returns stuck h = tt
  Holds-Returns fault h = tt
  Holds-Returns out_of_fuel h = tt

  pub after_run-Returns {ι ν} :
      {B : Type ι} {C : Type ν} (r : Run V X B) (f : B → M V X C)
      → ((b : B) (w : World V X) → Returns (f b w))
      → Returns (after_run r f)
  after_run-Returns (done b w) f h = h b w
  after_run-Returns (threw e w) f h = tt
  after_run-Returns stuck f h = tt
  after_run-Returns fault f h = tt
  after_run-Returns out_of_fuel f h = tt

  pub catch_run-Returns {ι} :
      {B : Type ι} (r : Run V X B) (handler : Exception X → M V X B)
      → Returns r
      → ((e : Exception X) (w : World V X) → Returns (handler e w))
      → Returns (catch_run r handler)
  catch_run-Returns (done b w) handler h hf = h
  catch_run-Returns (threw e w) handler h hf = hf e w
  catch_run-Returns stuck handler h hf = tt
  catch_run-Returns fault handler h hf = tt
  catch_run-Returns out_of_fuel handler h hf = tt

module _ {ℓ κ} {V : Type ℓ} {X : Type κ} (callbacks : Callbacks V X) (fuel p : ℕ)
    (o : Outcome V X) where
  settle_locked-IsReady :
      (w : World V X)
      → Holds (IsReady p) Unit (settle_locked callbacks (settle callbacks fuel) p o w)
  unfolding settle_locked
  settle_locked-IsReady w = at_state (get_elem? w.states p) refl
    where
      at_state :
          (found : Option (State V X))
          → get_elem? w.states p ≡ found
          → Holds (IsReady p) Unit (
              after_run (with_state found λ s. done s w) λ s.
                if s.is_ready
                then throw already_ready
                else update_state p (store o) >> on_ready callbacks (settle callbacks fuel) p)
      at_state none e = tt
      at_state (some s) e = elim (Bool-cases s.is_ready) [
        | inl ready ↦ rw ready (ready_at-get_elem? w.states p s e ∙ ready)
        | inr waits ↦
            rw (waits, e)
              (on_ready-Preserves (IsReady p) Unit
                (stable-Laws (IsReady p) Unit (IsReady-IsStable p)) callbacks
                (settle callbacks fuel)
                (settle-Preserves callbacks (IsReady p) (IsReady-IsKept p) fuel) p
                (put_state p (store o s) w)
                (ready_at-set_self w.states p s (store o s) e (store-is_ready o s)))
      ]

  settle-suc-IsReady : (w : World V X) → Holds (IsReady p) Unit (settle callbacks (suc fuel) p o w)
  unfolding settle
  settle-suc-IsReady w = with_state-Holds (IsReady p) Unit (get_elem? w.states p) _ λ s e.
      if_Holds (IsReady p) Unit s.locked stuck _ tt (
        unlock_run-Holds (IsReady p) Unit p _
          (λ w' h.
            unlock-P (IsReady p) Unit (IsReady-IsStable p) (get_elem? w'.states p) p w' refl h)
          (settle_locked-IsReady (put_state p (record s { locked = true }) w)))

module _ {ℓ κ} {V : Type ℓ} {X : Type κ} (callbacks : Callbacks V X) where
  -- A promise is ready after a fulfilment, also when that throws.
  pub settle-IsReady :
      (fuel p : ℕ) (o : Outcome V X) (w : World V X)
      → Holds (IsReady p) Unit (settle callbacks fuel p o w)
  unfolding settle
  settle-IsReady zero p o w = tt
  settle-IsReady (suc fuel) p o w = settle-suc-IsReady callbacks fuel p o w

  pub settle-Returns :
      (fuel p : ℕ) (o : Outcome V X) (w : World V X)
      → Returns (IsReady p) (settle callbacks fuel p o w)
  settle-Returns fuel p o w =
      Holds-Returns (IsReady p) (settle callbacks fuel p o w) (settle-IsReady fuel p o w)
