-- ===== src/Future/Chain.antt =====
-- What then of future.hpp does for the future that it returns: its promise is fulfilled when the state
-- it was called on is.
use cplease.Base.{
  ℕ, suc, ◌≡◌, ◌≢◌, refl, sym, ◌∙◌, subst, true, false, [], ◌∷◌, ◌++◌, get_elem?, Option, none,
  some,
}
use cplease.Future.Monad.{
  State, World, called, thrown, after_run, catch_run, pure, put_state, put_unlocked, new_state,
  call_value, pass_on,
}
use cplease.Future.{
  Callbacks, Outcome, result, exception, Reply, returns, throws, invoke, invoke_success,
  invoke_handler, run_handlers, run_exceptions, on_ready, settle_locked, settle, store,
}
use cplease.Future.Preserves.{
  Holds, if_Preserves, after_run-Holds, catch_run-Holds, unlock_run-Holds,
}
use cplease.Future.Once.{get_elem?-set_self, get_elem?-set_ne, settle_twice}
use cplease.Future.Kept.{settle_stores, settle-free, settle_locked-waiting}

-- What the promise of a continuation is fulfilled with, from what its function did, or from the
-- exception that passes it by.
unfoldable pub continued {ℓ κ} :
    {V : Type ℓ} {X : Type κ} → Callbacks V X → ℕ → Outcome V X → Outcome V X
continued callbacks f (exception e) = exception e
continued callbacks f (result v) = elim (callbacks.on_value f v) [
  | returns b ↦ result b
  | throws x ↦ exception (thrown x)
]

-- A state on which `then` was called once, with the function f; q is the promise of its future.
abbrev pub continuing {ℓ κ} : {V : Type ℓ} {X : Type κ} → V → ℕ → ℕ → Option ℕ → State V X
continuing d f q pool = record (new_state d) {
  success_handlers = call_value f q ∷ [];
  exceptions_handlers = pass_on q ∷ [];
  pool = pool;
}

module _ {ℓ κ} {V : Type ℓ} {X : Type κ} where
  unlock-other :
      (p q : ℕ) (o : Option (State V X)) (w : World V X) (t : State V X)
      → p ≢ q
      → get_elem? w.states q ≡ some t
      → get_elem? (put_unlocked o p w).states q ≡ some t
  unlock-other p q none w t ne h = h
  unlock-other p q (some s) w t ne h =
      get_elem?-set_ne w.states q p (record s { locked = false }) (λ e. ne (sym e)) ∙ h

module _ {ℓ κ} {V : Type ℓ} {X : Type κ} (callbacks : Callbacks V X) (fuel q : ℕ)
    (t : State V X) where
  abbrev Has : Outcome V X → World V X → Type (ℓ ⊔ κ)
  Has o w = get_elem? w.states q ≡ some (store o t)

  -- Fulfilling q again throws, and leaves it.
  again-Holds :
      (o o' : Outcome V X) (w : World V X)
      → t.locked ≡ false
      → Has o w
      → Holds (Has o) Unit (settle callbacks (suc fuel) q o' w)
  again-Holds o o' w free h =
      subst (λ r. Holds (Has o) Unit r)
        (sym (
          settle_twice callbacks fuel q o' (store o t) w h (store_free o t free) (store_ready o t)))
        h
    where
      store_free : (o : Outcome V X) (s : State V X) → s.locked ≡ false → (store o s).locked ≡ false
      store_free (result v) s free = free
      store_free (exception e) s free = free

      store_ready : (o : Outcome V X) (s : State V X) → (store o s).is_ready ≡ true
      store_ready (result v) s = refl
      store_ready (exception e) s = refl

  -- After the call of a function whose result or exception the promise is to get.
  pub reply-Holds :
      (reply : Reply V X) (w : World V X)
      → get_elem? w.states q ≡ some t
      → t.locked ≡ false
      → t.is_ready ≡ false
      → Holds
          (Has (elim reply as (λ _. Outcome V X) [
            | returns b ↦ result b
            | throws x ↦ exception (thrown x)
          ]))
          Unit
          (catch_run
            (after_run (invoke reply w) (λ b. settle callbacks (suc fuel) q (result b)))
            (λ e. settle callbacks (suc fuel) q (exception e)))
  reply-Holds (returns b) w h free waits =
      catch_run-Holds (Has (result b)) Unit _ _
        (settle_stores callbacks fuel q (result b) t w h free waits)
        λ e w' h'. again-Holds (result b) (exception e) w' free h'
  reply-Holds (throws x) w h free waits =
      settle_stores callbacks fuel q (exception (thrown x)) t w h free waits

  -- The call of the continuation, or of the handler that passes the exception on.
  pub call_value-Holds :
      (f : ℕ) (v : V) (w : World V X)
      → get_elem? w.states q ≡ some t
      → t.locked ≡ false
      → t.is_ready ≡ false
      → Holds
          (Has (continued callbacks f (result v)))
          Unit
          (invoke_success callbacks (settle callbacks (suc fuel)) (call_value f q) v w)
  unfolding invoke_success continued
  call_value-Holds f v w h free waits =
      reply-Holds (callbacks.on_value f v) (record w { log = w.log ++ (called f v ∷ []) }) h free
        waits

  -- What the loops of on_ready do with the one continuation and the one handler of a `then`.
  on_ready-Holds :
      (p f : ℕ) (d : V) (pool : Option ℕ) (o : Outcome V X) (w : World V X)
      → get_elem? w.states p ≡ some (store o (record (continuing d f q pool) { locked = true }))
      → get_elem? w.states q ≡ some t
      → t.locked ≡ false
      → t.is_ready ≡ false
      → Holds
          (Has (continued callbacks f o))
          Unit
          (on_ready callbacks (settle callbacks (suc fuel)) p w)
  unfolding on_ready run_handlers run_exceptions invoke_handler continued
  on_ready-Holds p f d pool (result v) w h hq free waits = rw h (
      after_run-Holds (Has (continued callbacks f (result v))) Unit _ _
        (call_value-Holds f v w hq free waits) λ u w' h'. h')
  on_ready-Holds p f d pool (exception e) w h hq free waits = rw h (
      after_run-Holds (Has (exception e)) Unit _ _
        (after_run-Holds (Has (exception e)) Unit _ _
          (settle_stores callbacks fuel q (exception e) t w hq free waits) λ u w' h'. h')
        λ b. if_Preserves (Has (exception e)) Unit b (pure tt) (pure tt) (λ w' h'. h') λ w' h'. h')

  -- A `then` with a function of a value on a state that had none: when that state is fulfilled,
  -- with enough fuel and if the call ends, the future that `then` returned is ready with
  -- what the function returned, with the exception that it threw, or with the exception that the
  -- state was given; and this is so whatever continuations that future has, and if they throw.
  pub then-propagates :
      (p f : ℕ) (d : V) (pool : Option ℕ) (outcome : Outcome V X) (w : World V X)
      → get_elem? w.states p ≡ some (continuing d f q pool)
      → p ≢ q
      → get_elem? w.states q ≡ some t
      → t.locked ≡ false
      → t.is_ready ≡ false
      → Holds
          (λ w'. get_elem? w'.states q ≡ some (store (continued callbacks f outcome) t))
          Unit
          (settle callbacks (suc (suc fuel)) p outcome w)
  then-propagates p f d pool outcome w h ne hq free waits =
      let locked : State V X = record (continuing d f q pool) { locked = true } in
      let w1 : World V X = put_state p locked w in
      let found : get_elem? w1.states p ≡ some locked =
        get_elem?-set_self w.states p (continuing d f q pool) locked h in
      let w2 : World V X = put_state p (store outcome locked) w1 in
      let other : get_elem? w2.states q ≡ some t =
        get_elem?-set_ne w1.states q p (store outcome locked) (λ e. ne (sym e))
        ∙ (get_elem?-set_ne w.states q p locked (λ e. ne (sym e)) ∙ hq) in
      let P : World V X → Type (ℓ ⊔ κ) = Has (continued callbacks f outcome) in
      let ready : Holds P Unit (on_ready callbacks (settle callbacks (suc fuel)) p w2) =
        on_ready-Holds p f d pool outcome w2
          (get_elem?-set_self w1.states p locked (store outcome locked) found) other free waits in
      let body : Holds P Unit (settle_locked callbacks (settle callbacks (suc fuel)) p outcome w1) =
        subst (λ r. Holds P Unit r)
          (sym (
            settle_locked-waiting callbacks (settle callbacks (suc fuel)) p outcome locked w1 found
              refl))
          ready in
      subst (λ r. Holds P Unit r)
        (sym (settle-free callbacks (suc fuel) p outcome (continuing d f q pool) w h refl))
        (unlock_run-Holds P Unit p _ (λ w' h'. unlock-other p q (get_elem? w'.states p) w' _ ne h')
          body)
