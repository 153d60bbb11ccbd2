-- ===== src/Future/Kept.antt =====
-- While a thread holds the mutex of a shared state of future.hpp, the continuations and handlers that
-- it runs do not change that state; so a promise keeps what it was fulfilled with.
use cplease.Base.{
  ℕ, zero, suc, ◌<◌, ◌≡◌, ◌≢◌, refl, sym, ap, ◌∙◌, subst, true, false, if◌then◌else◌, set,
  get_elem?, Option, none, some, inl, inr, Bool-cases,
}
use mathlib.Core.Option.{some-injective}
use mathlib.Core.Bool.{true≢false}
use cplease.Future.Monad.{
  ◌>>◌, after_run, SuccessHandler, ExceptionHandler, already_ready, State, World, M, Run, done,
  threw, stuck, fault, out_of_fuel, state_of, throw, with_state, put_state, put_unlocked,
  update_state, with_lock, unlock_run,
}
use cplease.Future.{
  Callbacks, Outcome, result, exception, then_void, on_exception, on_ready, settle_locked, settle,
  store,
}
use cplease.Future.Preserves.{
  unlock_run-Holds, Holds, Preserves, Laws, >>=-Preserves, >>-Preserves, if_Preserves,
  with_state-Holds, on_ready-Preserves,
}
use cplease.Future.Ends.{pending, Ended}
use cplease.Future.Fuel.{settle_ends}
use cplease.Future.Once.{get_elem?-set_self, get_elem?-set_ne}

module _ {ℓ κ} {V : Type ℓ} {X : Type κ} (p : ℕ) (s : State V X) (locked : s.locked ≡ true) where
  -- The state p is s.
  abbrev Is : World V X → Type (ℓ ⊔ κ)
  Is w = get_elem? w.states p ≡ some s

  abbrev Keeps {ι} : {B : Type ι} → M V X B → Type (ℓ ⊔ κ)
  Keeps = Preserves Is Unit

  unlock-Is :
      (q : ℕ) (o : Option (State V X)) (w : World V X) → q ≢ p → Is w → Is (put_unlocked o q w)
  unlock-Is q none w ne h = h
  unlock-Is q (some t) w ne h =
      get_elem?-set_ne w.states p q (record t { locked = false }) (λ e. ne (sym e)) ∙ h

  update_state-Keeps : (q : ℕ) (f : State V X → State V X) → q ≢ p → Keeps (update_state q f)
  update_state-Keeps q f ne w h =
      with_state-Holds Is Unit (get_elem? w.states q) _
        λ t e. get_elem?-set_ne w.states p q (f t) (λ e. ne (sym e)) ∙ h

  -- A mutex that is free is another one.
  with_lock-Keeps {ι} :
      {B : Type ι} (q : ℕ) (body : M V X B) → (q ≢ p → Keeps body) → Keeps (with_lock q body)
  with_lock-Keeps q body hb w h = with_state-Holds Is Unit (get_elem? w.states q) _ λ t e.
      elim (Bool-cases t.locked) [
        | inl held ↦ rw held tt
        | inr free ↦
            let other : q ≢ p = other_state q t w h e free in
            rw free (
              unlock_run-Holds Is Unit q _ (λ w'. unlock-Is q (get_elem? w'.states q) w' other)
                (hb other (put_state q (record t { locked = true }) w)
                  (get_elem?-set_ne w.states p q _ (λ e. other (sym e)) ∙ h)))
      ]
    where
      other_state :
          (q : ℕ) (t : State V X) (w : World V X)
          → Is w
          → get_elem? w.states q ≡ some t
          → t.locked ≡ false
          → q ≢ p
      other_state q t w h e free same =
          let found : some t ≡ some s = sym e ∙ (ap (λ k. get_elem? w.states k) same ∙ h) in
          let both : t.locked ≡ s.locked = ap (λ r. r.locked) (some-injective t s found) in
          true≢false (sym locked ∙ (sym both ∙ free))

  then_void-Keeps : (q : ℕ) (h : SuccessHandler) → Keeps (then_void q h)
  unfolding then_void
  then_void-Keeps q h = with_lock-Keeps q _ (update_state-Keeps q _)

  on_exception-Keeps : (q : ℕ) (h : ExceptionHandler) → Keeps (on_exception q h)
  unfolding on_exception
  on_exception-Keeps q h = with_lock-Keeps q _ (update_state-Keeps q _)

  keeps-Laws : Laws Is Unit
  keeps-Laws = record {
    log_event-Preserves = λ e w h. h;
    then_void-Preserves = then_void-Keeps;
    on_exception-Preserves = on_exception-Keeps;
  }

  module _ (callbacks : Callbacks V X) where
    settle_locked-Keeps :
        (fulfil : ℕ → Outcome V X → M V X (Unit {0}))
        → ((q : ℕ) (o : Outcome V X) → Keeps (fulfil q o))
        → (q : ℕ) (o : Outcome V X) → q ≢ p
        → Keeps (settle_locked callbacks fulfil q o)
    unfolding settle_locked
    settle_locked-Keeps fulfil hf q o ne =
        >>=-Preserves Is Unit (state_of q) _
          (λ w h. with_state-Holds Is Unit (get_elem? w.states q) _ λ t e. h)
          λ (t : State V X).
            if_Preserves Is Unit t.is_ready _ _ (λ w h. h)
              (>>-Preserves Is Unit _ _ (update_state-Keeps q (store o) ne)
                (on_ready-Preserves Is Unit keeps-Laws callbacks fulfil hf q))

    settle-Keeps : (fuel q : ℕ) (o : Outcome V X) → Keeps (settle callbacks fuel q o)
    unfolding settle
    settle-Keeps zero q o = λ w h. tt
    settle-Keeps (suc fuel) q o =
        with_lock-Keeps q _ (settle_locked-Keeps (settle callbacks fuel) (settle-Keeps fuel) q o)

module _ {ℓ κ} {V : Type ℓ} {X : Type κ} (callbacks : Callbacks V X) where
  store-locked : (o : Outcome V X) (s : State V X) → (store o s).locked ≡ s.locked
  store-locked (result v) s = refl
  store-locked (exception e) s = refl

  -- Locking, storing and unlocking.
  unlock-store :
      (o : Outcome V X) (s : State V X)
      → s.locked ≡ false
      → record (store o (record s { locked = true })) { locked = false } ≡ store o s
  unlock-store (result v) s free = rw free refl
  unlock-store (exception e) s free = rw free refl

  -- The state after a step that keeps p locked, and the unlocking.
  unlock-kept {ι} :
      {B : Type ι} (p : ℕ) (s : State V X) (r : Run V X B)
      → Holds (λ w. get_elem? w.states p ≡ some s) Unit r
      → Holds (λ w. get_elem? w.states p ≡ some (record s { locked = false })) Unit (unlock_run p r)
  unlock-kept p s (done b w) h = rw h (get_elem?-set_self w.states p s _ h)
  unlock-kept p s (threw e w) h = rw h (get_elem?-set_self w.states p s _ h)
  unlock-kept p s stuck h = tt
  unlock-kept p s fault h = tt
  unlock-kept p s out_of_fuel h = tt

  pub settle_locked-waiting :
      (fulfil : ℕ → Outcome V X → M V X (Unit {0})) (p : ℕ) (o : Outcome V X) (s : State V X)
      (w : World V X)
      → get_elem? w.states p ≡ some s
      → s.is_ready ≡ false
      → settle_locked callbacks fulfil p o w
        ≡ on_ready callbacks fulfil p (put_state p (store o s) w)
  unfolding settle_locked
  settle_locked-waiting fulfil p o s w h waits = rw h (
      ap
        (λ b.
          (if b
              then throw already_ready
              else update_state p (store o) >> on_ready callbacks fulfil p)
            w)
        waits
      ∙ ap
          (λ found.
            after_run (with_state found λ t. done tt (put_state p (store o t) w))
              λ _. on_ready callbacks fulfil p)
          h)

  settle_locked-keeps :
      (fuel p : ℕ) (o : Outcome V X) (s : State V X) (w : World V X)
      → get_elem? w.states p ≡ some s
      → s.locked ≡ true
      → s.is_ready ≡ false
      → Holds
          (λ w'. get_elem? w'.states p ≡ some (store o s))
          Unit
          (settle_locked callbacks (settle callbacks fuel) p o w)
  settle_locked-keeps fuel p o s w h held waits =
      let t : State V X = store o s in
      let t_held : t.locked ≡ true = store-locked o s ∙ held in
      subst (λ r. Holds (λ w'. get_elem? w'.states p ≡ some t) Unit r)
        (sym (settle_locked-waiting (settle callbacks fuel) p o s w h waits))
        (on_ready-Preserves (Is p t t_held) Unit (keeps-Laws p t t_held) callbacks
          (settle callbacks fuel) (settle-Keeps p t t_held callbacks fuel) p (put_state p t w)
          (get_elem?-set_self w.states p s t h))

  pub settle-free :
      (fuel p : ℕ) (o : Outcome V X) (s : State V X) (w : World V X)
      → get_elem? w.states p ≡ some s
      → s.locked ≡ false
      → settle callbacks (suc fuel) p o w
        ≡ unlock_run p (
            settle_locked callbacks
              (settle callbacks fuel)
              p
              o
              (put_state p (record s { locked = true }) w))
  unfolding settle
  settle-free fuel p o s w h free = rw (h, free) refl

  pub settle_stores :
      (fuel p : ℕ) (outcome : Outcome V X) (s : State V X) (w : World V X)
      → get_elem? w.states p ≡ some s
      → s.locked ≡ false
      → s.is_ready ≡ false
      → Holds
          (λ w'. get_elem? w'.states p ≡ some (store outcome s))
          Unit
          (settle callbacks (suc fuel) p outcome w)
  settle_stores fuel p outcome s w h free waits =
      let locked : State V X = record s { locked = true } in
      let found : get_elem? (set w.states p locked) p ≡ some locked =
        get_elem?-set_self w.states p s locked h in
      let r : Run V X (Unit {0}) =
        settle_locked callbacks (settle callbacks fuel) p outcome (put_state p locked w) in
      let kept : Holds
          (λ w'. get_elem? w'.states p ≡ some (record (store outcome locked) { locked = false }))
          Unit (unlock_run p r) =
        unlock-kept p (store outcome locked) r
          (settle_locked-keeps fuel p outcome locked (put_state p locked w) found refl waits) in
      let stored : Holds (λ w'. get_elem? w'.states p ≡ some (store outcome s)) Unit
          (unlock_run p r) =
        subst (λ t. Holds (λ w'. get_elem? w'.states p ≡ some t) Unit (unlock_run p r))
          (unlock-store outcome s free) kept in
      subst (λ q. Holds (λ w'. get_elem? w'.states p ≡ some (store outcome s)) Unit q)
        (sym (settle-free fuel p outcome s w h free)) stored

  -- set_result, set_ready or set_exception on a state that is not ready and whose mutex is free,
  -- with fuel for the states that are not ready: whatever continuations and handlers there are, and
  -- whether they throw or not, if the call ends then the state has the result (or the exception)
  -- it was given, is ready, and is unlocked; its handlers are those it had. The fuel does not run out.
  pub settle_fulfils :
      (fuel p : ℕ) (outcome : Outcome V X) (s : State V X) (w : World V X)
      → get_elem? w.states p ≡ some s
      → s.locked ≡ false
      → s.is_ready ≡ false
      → pending w.states < suc fuel
      → Holds
          (λ w'. get_elem? w'.states p ≡ some (store outcome s))
          Unit
          (settle callbacks (suc fuel) p outcome w)
        × Ended (pending w.states) (settle callbacks (suc fuel) p outcome w)
  settle_fulfils fuel p outcome s w h free waits enough = (
    settle_stores fuel p outcome s w h free waits,
    settle_ends callbacks (suc fuel) p outcome w enough,
  )
