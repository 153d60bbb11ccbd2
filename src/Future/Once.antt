-- ===== src/Future/Once.antt =====
-- A promise of future.hpp is fulfilled at most once.
use cplease.Base.{
  ℕ, zero, suc, ◌≡◌, ◌≢◌, refl, sym, ap, ◌∙◌, true, false, List, [], ◌∷◌, set, get_elem?, some,
}
use mathlib.Core.Option.{none-ne-some, some-injective}
use cplease.Future.Monad.{State, World, M, threw, already_ready, put_state, unlock_run, unlock}
use cplease.Future.{Callbacks, Outcome, settle, settle_locked}

module _ {ℓ} {A : Type ℓ} where
  pub get_elem?-set_self :
      (xs : List A) (p : ℕ) (s t : A) → get_elem? xs p ≡ some s → get_elem? (set xs p t) p ≡ some t
  get_elem?-set_self [] p s t h = absurd (none-ne-some s h)
  get_elem?-set_self (x ∷ xs) zero s t h = refl
  get_elem?-set_self (x ∷ xs) (suc p) s t h = get_elem?-set_self xs p s t h

  pub get_elem?-set_ne :
      (xs : List A) (p q : ℕ) (t : A) → p ≢ q → get_elem? (set xs q t) p ≡ get_elem? xs p
  get_elem?-set_ne [] p q t h = refl
  get_elem?-set_ne (x ∷ xs) zero zero t h = absurd (h refl)
  get_elem?-set_ne (x ∷ xs) zero (suc q) t h = refl
  get_elem?-set_ne (x ∷ xs) (suc p) zero t h = refl
  get_elem?-set_ne (x ∷ xs) (suc p) (suc q) t h = get_elem?-set_ne xs p q t λ e. h (ap suc e)

  pub set-set : (xs : List A) (p : ℕ) (s t : A) → set (set xs p s) p t ≡ set xs p t
  set-set [] p s t = refl
  set-set (x ∷ xs) zero s t = refl
  set-set (x ∷ xs) (suc p) s t = ap (λ r. x ∷ r) (set-set xs p s t)

  pub set-get_elem? : (xs : List A) (p : ℕ) (s : A) → get_elem? xs p ≡ some s → set xs p s ≡ xs
  set-get_elem? [] p s h = refl
  set-get_elem? (x ∷ xs) zero s h = ap (λ r. r ∷ xs) (sym (some-injective x s h))
  set-get_elem? (x ∷ xs) (suc p) s h = ap (λ r. x ∷ r) (set-get_elem? xs p s h)

module _ {ℓ κ} {V : Type ℓ} {X : Type κ} where
  -- Locking and unlocking changes nothing.
  pub unlock-put_state :
      (p : ℕ) (s : State V X) (w : World V X)
      → get_elem? w.states p ≡ some s
      → s.locked ≡ false
      → unlock p (put_state p (record s { locked = true }) w) ≡ w
  unlock-put_state p s w h free =
      rw (get_elem?-set_self w.states p s (record s { locked = true }) h) (
        ap (λ states. record w { states = states })
          (set-set w.states p (record s { locked = true }) (record s { locked = false })
            ∙ (ap (λ b. set w.states p (record s { locked = b })) (sym free)
                ∙ set-get_elem? w.states p s h)))

module _ {ℓ κ} {V : Type ℓ} {X : Type κ} (callbacks : Callbacks V X) where
  pub locked_twice :
      (fulfil : ℕ → Outcome V X → M V X (Unit {0})) (p : ℕ) (outcome : Outcome V X) (s : State V X)
      (w : World V X)
      → get_elem? w.states p ≡ some s
      → s.is_ready ≡ true
      → settle_locked callbacks fulfil p outcome w ≡ threw already_ready w
  unfolding settle_locked
  locked_twice fulfil p outcome s w h ready = rw (h, ready) refl

  -- On a ready state whose mutex is free, set_result, set_ready and set_exception throw the
  -- library's runtime_error, run nothing, and leave every state as it was.
  pub settle_twice :
      (fuel p : ℕ) (outcome : Outcome V X) (s : State V X) (w : World V X)
      → get_elem? w.states p ≡ some s
      → s.locked ≡ false
      → s.is_ready ≡ true
      → settle callbacks (suc fuel) p outcome w ≡ threw already_ready w
  unfolding settle settle_locked
  settle_twice fuel p outcome s w h free ready =
      let locked : State V X = record s { locked = true } in
      let found : get_elem? (set w.states p locked) p ≡ some locked =
        get_elem?-set_self w.states p s locked h in
      rw (h, free)
        (ap (unlock_run p) (locked_twice (settle callbacks fuel) p outcome locked _ found ready)
          ∙ ap (threw already_ready) (unlock-put_state p s w h free))
