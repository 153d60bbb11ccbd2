-- ===== src/Pool/Functions/Observed.antt =====
-- The continuations and handlers by which the futures of map of thread_pool.hpp report to the aggregate.
use cplease.Base.{
  ℕ, suc, ◌+◌, ◌≡◌, refl, sym, ap, ◌∙◌, true, false, List, [], ◌∷◌, ◌++◌, length, get_elem?, some,
  append_assoc, length-append, get_elem?-append_here, set-append_here, arith,
}
use cplease.Future.Monad.{
  State, World, Event, done, new_state, SuccessHandler, call_void, ExceptionHandler, handle_any,
  put_state,
}
use cplease.Future.{then_void, on_exception}
use cplease.Future.Once.{get_elem?-set_self, set-set}
use cplease.Pool.Functions.{Values, observe}

module _ {ℓ} {V : Type ℓ} (d : Values V) where
  -- The keys that map gives to these promises.
  abbrev pub keyed : ℕ → List V → List (V × ℕ)
  keyed n [] = []
  keyed n (v ∷ range) = (d.moved_value v, n) ∷ keyed (suc n) range

module _ {ℓ κ} {V : Type ℓ} {X : Type κ} where
  -- A continuation or a handler is added to a state whose mutex is free.
  then_void-free :
      (p : ℕ) (h : SuccessHandler) (s : State V X) (w : World V X)
      → get_elem? w.states p ≡ some s
      → s.locked ≡ false
      → then_void p h w
        ≡ done tt (put_state p (record s { success_handlers = s.success_handlers ++ (h ∷ []) }) w)
  unfolding then_void
  then_void-free p h s w found free =
      let l : State V X = record s { locked = true } in
      rw
        (
          found,
          free,
          get_elem?-set_self w.states p s l found,
          set-set w.states p l (record l { success_handlers = s.success_handlers ++ (h ∷ []) }),
          get_elem?-set_self w.states p s
              (record l { success_handlers = s.success_handlers ++ (h ∷ []) }) found,
          set-set w.states p (record l { success_handlers = s.success_handlers ++ (h ∷ []) }),
        )
        refl

  on_exception-free :
      (p : ℕ) (h : ExceptionHandler) (s : State V X) (w : World V X)
      → get_elem? w.states p ≡ some s
      → s.locked ≡ false
      → on_exception p h w
        ≡ done tt
            (put_state p (record s { exceptions_handlers = s.exceptions_handlers ++ (h ∷ []) }) w)
  unfolding on_exception
  on_exception-free p h s w found free =
      let l : State V X = record s { locked = true } in
      rw
        (
          found,
          free,
          get_elem?-set_self w.states p s l found,
          set-set w.states p l
              (record l { exceptions_handlers = s.exceptions_handlers ++ (h ∷ []) }),
          get_elem?-set_self w.states p s
              (record l { exceptions_handlers = s.exceptions_handlers ++ (h ∷ []) }) found,
          set-set w.states p (record l { exceptions_handlers = s.exceptions_handlers ++ (h ∷ []) }),
        )
        refl

  -- The state of a promise of the pool self, and once map has observed it.
  abbrev pub fresh_state : Values V → ℕ → State V X
  fresh_state d self = record (new_state d.default_value) { pool = some self }

  abbrev pub observed_state : ℕ → Values V → ℕ → ℕ → State V X
  observed_state base d self p = record (fresh_state d self) {
    success_handlers = call_void (base + p) ∷ [];
    exceptions_handlers = handle_any (base + p) ∷ [];
  }

  abbrev pub fresh_states : Values V → ℕ → List V → List (State V X)
  fresh_states d self [] = []
  fresh_states d self (v ∷ range) = fresh_state d self ∷ fresh_states d self range

  abbrev pub observed_states : ℕ → Values V → ℕ → ℕ → List V → List (State V X)
  observed_states base d self p [] = []
  observed_states base d self p (v ∷ range) =
      observed_state base d self p ∷ observed_states base d self (suc p) range

  pub observe-fresh_states :
      (d : Values V) (self base : ℕ) (range : List V) (old : List (State V X))
      (log : List (Event V X))
      → observe base
          (keyed d (length old) range)
          (record { states = old ++ fresh_states d self range; log = log })
        ≡ done tt
            (record { states = old ++ observed_states base d self (length old) range; log = log })
  unfolding observe
  observe-fresh_states d self base [] old log = refl
  observe-fresh_states d self base (v ∷ range) old log =
      let p : ℕ = length old in
      let s : State V X = fresh_state d self in
      let t : State V X = record s { success_handlers = call_void (base + p) ∷ [] } in
      let u : State V X = observed_state base d self p in
      let later : List (State V X) = fresh_states d self range in
      let size : length (old ++ (u ∷ [])) ≡ suc p = omega (arith, length-append old (u ∷ [])) in
      let joined : (ss : List (State V X)) → (old ++ (u ∷ [])) ++ ss ≡ old ++ (u ∷ ss) =
        λ ss. append_assoc old (u ∷ []) ss in
      rw
        (
          then_void-free p (call_void (base + p)) s
              (record { states = old ++ (s ∷ later); log = log })
              (get_elem?-append_here old later s) refl,
          set-append_here old later s t,
          on_exception-free p (handle_any (base + p)) t
              (record { states = old ++ (t ∷ later); log = log })
              (get_elem?-append_here old later t) refl,
          set-append_here old later t u,
        )
        (ap (λ ss. observe base (keyed d (suc p) range) (record { states = ss; log = log }))
            (sym (joined later))
          ∙ (ap
                (λ k.
                  observe base (keyed d k range)
                    (record { states = (old ++ (u ∷ [])) ++ later; log = log }))
                (sym size)
              ∙ (observe-fresh_states d self base range (old ++ (u ∷ [])) log
                  ∙ (ap
                        (λ k. done tt (record {
                          states = (old ++ (u ∷ [])) ++ observed_states base d self k range;
                          log = log;
                        }))
                        size
                      ∙ ap (λ ss. done tt (record { states = ss; log = log }))
                          (joined (observed_states base d self (suc p) range))))))
