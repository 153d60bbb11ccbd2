-- ===== src/Future/Then.antt =====
-- The calls of then of future.hpp that return a future.
use cplease.Base.{
  ℕ, zero, suc, ◌≡◌, refl, ap, ◌∙◌, true, false, List, [], ◌∷◌, ◌++◌, length, set, get_elem?, some,
  length-set,
}
use mathlib.Core.Option.{none-ne-some}
use cplease.Future.Monad.{
  State, World, done, SuccessHandler, ExceptionHandler, call_value, call_future, pass_on, new_state,
  put_state, unlock, unlock_run, pure, ◌>>=◌, ◌>>◌,
}
use cplease.Future.{then_value, then_future, make_promise, copy_pool, add_continuation}
use cplease.Future.Once.{get_elem?-set_self, set-set}

module _ {ℓ} {A : Type ℓ} where
  get_elem?-append_left :
      (xs ys : List A) (p : ℕ) (s : A) → get_elem? xs p ≡ some s → get_elem? (xs ++ ys) p ≡ some s
  get_elem?-append_left [] ys p s h = absurd (none-ne-some s h)
  get_elem?-append_left (x ∷ xs) ys zero s h = h
  get_elem?-append_left (x ∷ xs) ys (suc p) s h = get_elem?-append_left xs ys p s h

  pub get_elem?-append_last :
      (xs : List A) (y : A) → get_elem? (xs ++ (y ∷ [])) (length xs) ≡ some y
  get_elem?-append_last [] y = refl
  get_elem?-append_last (x ∷ xs) y = get_elem?-append_last xs y

  set-append_left :
      (xs ys : List A) (p : ℕ) (s t : A)
      → get_elem? xs p ≡ some s
      → set (xs ++ ys) p t ≡ set xs p t ++ ys
  set-append_left [] ys p s t h = absurd (none-ne-some s h)
  set-append_left (x ∷ xs) ys zero s t h = refl
  set-append_left (x ∷ xs) ys (suc p) s t h = ap (λ r. x ∷ r) (set-append_left xs ys p s t h)

  pub set-append_last :
      (xs : List A) (y z : A) → set (xs ++ (y ∷ [])) (length xs) z ≡ xs ++ (z ∷ [])
  set-append_last [] y z = refl
  set-append_last (x ∷ xs) y z = ap (λ r. x ∷ r) (set-append_last xs y z)

module _ {ℓ κ} {V : Type ℓ} {X : Type κ} where
  -- A state with a further continuation and a further handler.
  abbrev pub with_continuation : SuccessHandler → ExceptionHandler → State V X → State V X
  with_continuation callback handler s = record s {
    success_handlers = s.success_handlers ++ (callback ∷ []);
    exceptions_handlers = s.exceptions_handlers ++ (handler ∷ []);
  }

  -- The states after a `then` on p: a new one, last, and the continuation on p.
  abbrev pub after_then : V → ℕ → SuccessHandler → State V X → World V X → World V X
  after_then d p callback s w = record w {
    states =
        set w.states p (with_continuation callback (pass_on (length w.states)) s)
        ++ (record (new_state d) { pool = s.pool } ∷ []);
  }

  make-copy :
      (d : V) (p : ℕ) (s : State V X) (w : World V X)
      → get_elem? w.states p ≡ some s
      → (make_promise d >>= λ q. copy_pool p q >> pure q) w
        ≡ done
            (length w.states)
            (record w { states = w.states ++ (record (new_state d) { pool = s.pool } ∷ []) })
  unfolding make_promise
  make-copy d p s w h =
      rw
        (
          get_elem?-append_left w.states (new_state d ∷ []) p s h,
          get_elem?-append_last w.states (new_state {X = X} d),
          set-append_last w.states (new_state {X = X} d) (record (new_state d) { pool = s.pool }),
        )
        refl

  then_value-locked :
      (d : V) (p func : ℕ) (s : State V X) (w : World V X)
      → get_elem? w.states p ≡ some s
      → (make_promise d >>= λ q.
            copy_pool p q >> add_continuation p (call_value func q) (pass_on q) >> pure q)
          w
        ≡ done (length w.states) (after_then d p (call_value func (length w.states)) s w)
  unfolding make_promise
  then_value-locked d p func s w h =
      let n : State V X = record (new_state d) { pool = s.pool } in
      rw
        (
          get_elem?-append_left w.states (new_state d ∷ []) p s h,
          get_elem?-append_last w.states (new_state {X = X} d),
          set-append_last w.states (new_state {X = X} d) n,
          get_elem?-append_left w.states (n ∷ []) p s h,
          set-append_left w.states (n ∷ []) p s
              (with_continuation (call_value func (length w.states)) (pass_on (length w.states)) s)
              h,
        )
        refl

  -- Unlocking a state that was changed under its lock, with new states after it.
  unlock-changed :
      (p : ℕ) (s t : State V X) (ns : List (State V X)) (w : World V X)
      → get_elem? w.states p ≡ some s
      → unlock p (record w { states = set (set w.states p (record s { locked = true })) p t ++ ns })
        ≡ record w { states = set w.states p (record t { locked = false }) ++ ns }
  unlock-changed p s t ns w h =
      let l : State V X = record s { locked = true } in
      let here : get_elem? (set w.states p t) p ≡ some t = get_elem?-set_self w.states p s t h in
      rw
        (
          set-set w.states p l t,
          get_elem?-append_left (set w.states p t) ns p t here,
          set-append_left (set w.states p t) ns p t (record t { locked = false }) here,
          set-set w.states p t (record t { locked = false }),
        )
        refl

  -- `then` of a function of a value, on a state whose mutex is free: the new promise has the
  -- next name and the pool of the state, its continuation and a handler that passes exceptions on
  -- come last on the state, and nothing else changes, also when the state is ready already.
  -- The same holds of a function that returns a future.
  pub then_value-after_then :
      (d : V) (p func : ℕ) (s : State V X) (w : World V X)
      → get_elem? w.states p ≡ some s
      → s.locked ≡ false
      → (then_value d p func w
          ≡ done (length w.states) (after_then d p (call_value func (length w.states)) s w))
        × (then_future d p func w
            ≡ done (length w.states) (after_then d p (call_future func (length w.states)) s w))
  unfolding then_value then_future make_promise
  then_value-after_then d p func s w h free =
      let l : State V X = record s { locked = true } in
      let w1 : World V X = put_state p l w in
      let found : get_elem? w1.states p ≡ some l = get_elem?-set_self w.states p s l h in
      let n : State V X = record (new_state d) { pool = s.pool } in
      let name : length w1.states ≡ length w.states = length-set w.states p l in
      let continued : ℕ → SuccessHandler → State V X =
        λ m callback. with_continuation callback (pass_on m) l in
      let unlocked : (callback : SuccessHandler)
          → unlock p (record w {
            states = set w1.states p (continued (length w.states) callback) ++ (n ∷ []);
          })
            ≡ record w {
              states =
                  set w.states p (record (continued (length w.states) callback) { locked = false })
                  ++ (n ∷ []);
            } =
        λ callback. unlock-changed p s (continued (length w.states) callback) (n ∷ []) w h in
      (
        rw (h, free)
            (ap (unlock_run p) (then_value-locked d p func l w1 found)
              ∙ (ap
                    (λ m. done m (
                      unlock p (record w {
                        states = set w1.states p (continued m (call_value func m)) ++ (n ∷ []);
                      })))
                    name
                  ∙ ap (λ u. done (length w.states) u)
                      (unlocked (call_value func (length w.states))))),
        rw
            (
              get_elem?-append_left w.states (new_state d ∷ []) p s h,
              get_elem?-append_last w.states (new_state {X = X} d),
              set-append_last w.states (new_state {X = X} d) n,
              get_elem?-append_left w.states (n ∷ []) p s h,
              free,
              set-append_left w.states (n ∷ []) p s l h,
              get_elem?-append_left w1.states (n ∷ []) p l found,
              set-append_left w1.states (n ∷ []) p l
                  (continued (length w.states) (call_future func (length w.states))) found,
            )
            (ap (λ u. done (length w.states) u) (unlocked (call_future func (length w.states)))),
      )
