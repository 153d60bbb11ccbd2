-- ===== src/Future/Stable.antt =====
-- Properties of the states of future.hpp that look only at which of them are ready and at what was called.
use cplease.Base.{ℕ, ◌≡◌, refl, true, false, [], ◌∷◌, ◌++◌, get_elem?, Option, none, some}
use cplease.Future.Monad.{
  Event, State, World, M, Run, stuck, put_state, put_unlocked, update_state, with_lock, unlock_run,
  SuccessHandler, ExceptionHandler,
}
use cplease.Future.{then_void, on_exception}
use cplease.Future.Preserves.{Holds, Preserves, Laws, with_state-Holds, if_Holds, unlock_run-Holds}

-- A longer log keeps them, and what else than m_is_ready a state has does not matter.
pub record IsStable {ℓ κ μ} {V : Type ℓ} {X : Type κ} (P : World V X → Type μ)
    : Type (ℓ ⊔ κ ⊔ μ) where
  pub one_event : (w : World V X) (e : Event V X) → P w → P (record w { log = w.log ++ (e ∷ []) })
  pub same_ready :
      (w : World V X) (q : ℕ) (s t : State V X)
      → get_elem? w.states q ≡ some s
      → t.is_ready ≡ s.is_ready
      → P w
      → P (put_state q t w)

module _ {ℓ κ μ} {V : Type ℓ} {X : Type κ} (P : World V X → Type μ) (E : Type μ)
    (stable : IsStable P) where
  pub update_state-Preserves :
      (q : ℕ) (f : State V X → State V X)
      → ((s : State V X) → (f s).is_ready ≡ s.is_ready)
      → Preserves P E (update_state q f)
  update_state-Preserves q f keeps w h =
      with_state-Holds P E (get_elem? w.states q) _
        λ s e. stable.same_ready w q s (f s) e (keeps s) h

  pub unlock-P :
      (o : Option (State V X)) (q : ℕ) (w : World V X)
      → get_elem? w.states q ≡ o
      → P w
      → P (put_unlocked o q w)
  unlock-P none q w e h = h
  unlock-P (some s) q w e h = stable.same_ready w q s (record s { locked = false }) e refl h

  pub unlock_run-P {ι} :
      {B : Type ι} (q : ℕ) (r : Run V X B) → Holds P E r → Holds P E (unlock_run q r)
  unlock_run-P q r h =
      unlock_run-Holds P E q r (λ w h'. unlock-P (get_elem? w.states q) q w refl h') h

  pub with_lock-Preserves {ι} :
      {B : Type ι} (q : ℕ) (body : M V X B) → Preserves P E body → Preserves P E (with_lock q body)
  with_lock-Preserves q body hb w h = with_state-Holds P E (get_elem? w.states q) _ λ s e.
      if_Holds P E s.locked stuck _ tt (
        unlock_run-P q _ (
          hb (put_state q (record s { locked = true }) w)
            (stable.same_ready w q s (record s { locked = true }) e refl h)))

  then_void-Preserves : (q : ℕ) (h : SuccessHandler) → Preserves P E (then_void q h)
  unfolding then_void
  then_void-Preserves q h = with_lock-Preserves q _ (update_state-Preserves q _ λ s. refl)

  on_exception-Preserves : (q : ℕ) (h : ExceptionHandler) → Preserves P E (on_exception q h)
  unfolding on_exception
  on_exception-Preserves q h = with_lock-Preserves q _ (update_state-Preserves q _ λ s. refl)

  pub stable-Laws : Laws P E
  stable-Laws = record {
    log_event-Preserves = λ e w h. stable.one_event w e h;
    then_void-Preserves = then_void-Preserves;
    on_exception-Preserves = on_exception-Preserves;
  }
