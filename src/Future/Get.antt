-- ===== src/Future/Get.antt =====
-- What get and take of future.hpp give once a promise is fulfilled.
use cplease.Base.{ℕ, suc, ◌≡◌, refl, ap, ◌∙◌, true, false, set, get_elem?, Option, none, some}
use cplease.Future.Monad.{
  Exception, State, World, M, Run, done, threw, stuck, fault, out_of_fuel, put_state, unlock,
  unlock_run, throw, pure, ◌>>=◌, ◌>>◌, update_state,
}
use cplease.Future.{Callbacks, Outcome, result, exception, settle, store, get, take, ready_state}
use cplease.Future.Preserves.{Holds}
use cplease.Future.Once.{get_elem?-set_self, set-set, unlock-put_state}
use cplease.Future.Kept.{settle_stores}

module _ {ℓ κ} {V : Type ℓ} {X : Type κ} where
  -- How get ends on a state that is ready.
  abbrev pub answer : Option (Exception X) → V → World V X → Run V X V
  answer none v w = done v w
  answer (some e) v w = threw e w

  -- How get ends for what a promise was fulfilled with.
  abbrev pub answer_of : Outcome V X → World V X → Run V X V
  answer_of (result v) w = done v w
  answer_of (exception e) w = threw e w

  -- Under the lock, and then unlocked.
  locked_answer :
      (o : Option (Exception X)) (p : ℕ) (v : V) (w w' : World V X)
      → unlock p w ≡ w'
      → unlock_run p ((elim o as (λ _. M V X V) [ none ↦ pure v | some e ↦ throw e ]) w)
        ≡ answer o v w'
  locked_answer none p v w w' h = ap (λ u. done v u) h
  locked_answer (some e) p v w w' h = ap (λ u. threw e u) h

  locked_get :
      (p : ℕ) (s : State V X) (w : World V X)
      → get_elem? w.states p ≡ some s
      → s.is_ready ≡ true
      → (ready_state p >>= λ t. elim t.m_exception [ none ↦ pure t.m_result | some e ↦ throw e ]) w
        ≡ (elim s.m_exception as (λ _. M V X V) [ none ↦ pure s.m_result | some e ↦ throw e ]) w
  locked_get p s w h ready = rw (h, ready) refl

  pub get-ready :
      (p : ℕ) (s : State V X) (w : World V X)
      → get_elem? w.states p ≡ some s
      → s.locked ≡ false
      → s.is_ready ≡ true
      → get p w ≡ answer s.m_exception s.m_result w
  unfolding get
  get-ready p s w h free ready =
      let l : State V X = record s { locked = true } in
      let found : get_elem? (set w.states p l) p ≡ some l = get_elem?-set_self w.states p s l h in
      rw (h, free)
        (ap (unlock_run p) (locked_get p l (put_state p l w) found ready)
          ∙ locked_answer s.m_exception p s.m_result (put_state p l w) w
              (unlock-put_state p s w h free))

  locked_take :
      (moved : V → V) (p : ℕ) (s : State V X) (w : World V X)
      → get_elem? w.states p ≡ some s
      → s.is_ready ≡ true
      → (ready_state p >>= λ t.
            update_state p (λ u. record u { is_ready = false; m_result = moved u.m_result })
            >> pure t.m_result)
          w
        ≡ done s.m_result
            (put_state p (record s { is_ready = false; m_result = moved s.m_result }) w)
  locked_take moved p s w h ready = rw (h, ready, h) refl

  take-ready :
      (moved : V → V) (p : ℕ) (s : State V X) (w : World V X)
      → get_elem? w.states p ≡ some s
      → s.locked ≡ false
      → s.is_ready ≡ true
      → take moved p w
        ≡ done s.m_result
            (put_state p (record s { is_ready = false; m_result = moved s.m_result }) w)
  unfolding take
  take-ready moved p s w h free ready =
      let l : State V X = record s { locked = true } in
      let l' : State V X = record l { is_ready = false; m_result = moved s.m_result } in
      let found : get_elem? (set w.states p l) p ≡ some l = get_elem?-set_self w.states p s l h in
      let states : set (set (set w.states p l) p l') p (record l' { locked = false })
          ≡ set w.states p (record l' { locked = false }) =
        set-set (set w.states p l) p l' (record l' { locked = false })
        ∙ set-set w.states p l (record l' { locked = false }) in
      rw (h, free)
        (ap (unlock_run p) (locked_take moved p l (put_state p l w) found ready)
          ∙ rw (get_elem?-set_self (set w.states p l) p l l' found)
              (ap (λ ss. done s.m_result (record w { states = ss })) states))

  pub Holds-map {ι} :
      {B : Type ι} (P Q : World V X → Type (ℓ ⊔ κ)) (r : Run V X B)
      → ((w : World V X) → P w → Q w)
      → Holds P Unit r
      → Holds Q Unit r
  Holds-map P Q (done b w) f h = f w h
  Holds-map P Q (threw e w) f h = f w h
  Holds-map P Q stuck f h = tt
  Holds-map P Q fault f h = tt
  Holds-map P Q out_of_fuel f h = tt

module _ {ℓ κ} {V : Type ℓ} {X : Type κ} (callbacks : Callbacks V X) where
  -- After a promise was fulfilled, get returns the result, or throws the exception, that it was given,
  -- and leaves everything as it is. This holds of a state that is free, not ready and has had no
  -- exception, if the fulfilment ends, whatever its continuations and handlers are, and whether
  -- they throw or not.
  pub get-settle :
      (fuel p : ℕ) (outcome : Outcome V X) (s : State V X) (w : World V X)
      → get_elem? w.states p ≡ some s
      → s.locked ≡ false
      → s.is_ready ≡ false
      → s.m_exception ≡ none
      → Holds (λ w'. get p w' ≡ answer_of outcome w') Unit (settle callbacks (suc fuel) p outcome w)
  get-settle fuel p (result v) s w h free waits fresh =
      Holds-map _ _ _
        (λ w' h'. get-ready p (store (result v) s) w' h' free refl ∙ ap (λ o. answer o v w') fresh)
        (settle_stores callbacks fuel p (result v) s w h free waits)
  get-settle fuel p (exception e) s w h free waits fresh =
      Holds-map _ _ _ (λ w' h'. get-ready p (store (exception e) s) w' h' free refl)
        (settle_stores callbacks fuel p (exception e) s w h free waits)

  -- take does not look at the exception: on a state that was given an exception it moves m_result
  -- out, which nobody has set. The exception stays, so that after a new result was set, which take makes
  -- possible, get throws the old exception.
  pub take-keeps_exception :
      (moved : V → V) (fuel p : ℕ) (v : V) (e : Exception X) (s : State V X) (w : World V X)
      → get_elem? w.states p ≡ some s
      → s.locked ≡ false
      → s.is_ready ≡ true
      → s.m_exception ≡ some e
      → (take moved p w
          ≡ done s.m_result
              (put_state p (record s { is_ready = false; m_result = moved s.m_result }) w))
        × Holds
            (λ w'. get p w' ≡ threw e w')
            Unit
            (settle callbacks
              (suc fuel)
              p
              (result v)
              (put_state p (record s { is_ready = false; m_result = moved s.m_result }) w))
  take-keeps_exception moved fuel p v e s w h free ready had =
      let taken : State V X = record s { is_ready = false; m_result = moved s.m_result } in
      (
        take-ready moved p s w h free ready,
        Holds-map _ _ _
            (λ w' h'.
              get-ready p (store (result v) taken) w' h' free refl ∙ ap (λ o. answer o v w') had)
            (settle_stores callbacks fuel p (result v) taken (put_state p taken w)
              (get_elem?-set_self w.states p s taken h) free refl),
      )
