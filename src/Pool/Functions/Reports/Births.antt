-- ===== src/Pool/Functions/Reports/Births.antt =====
-- New promises, and those of map, in thread_pool.hpp.
use cplease.Base.{
  ℕ, zero, suc, ◌+◌, ◌≤◌, ◌<◌, ◌≡◌, refl, sym, ap, ◌∙◌, subst, if◌then◌else◌, List, [], ◌∷◌, ◌++◌,
  length, length-append, get_elem?, get_elem?-append_cases, get_elem?-replicate, get_or, some, inl,
  inr, arith,
}
use mathlib.Core.Option.{none-ne-some, some-injective}
use cplease.Future.Monad.{State, World}
use cplease.Futures.{ResultVariant, monostate}
use cplease.Futures.Marked.{marked}
use cplease.Pool.Functions.Observed.{observed_state, observed_states}
use cplease.Pool.Functions.Reports.{Outside, IsTame, IsWatched, start, Reported}
use cplease.Pool.Functions.{Values}

module _ {ℓ κ} {V : Type ℓ} {X : Type κ} where
  pub get_elem?-observed_states :
      (base : ℕ) (d : Values V) (self : ℕ) (range : List V) (p j : ℕ) (s : State V X)
      → get_elem? (observed_states base d self p range) j ≡ some s
      → (s ≡ observed_state base d self (p + j)) × (j < length range)
  get_elem?-observed_states base d self [] p j s e = absurd (none-ne-some s e)
  get_elem?-observed_states base d self (v ∷ range) p zero s e = (
    sym (some-injective (observed_state base d self p) s e)
        ∙ ap (observed_state base d self) (omega arith),
    omega arith,
  )
  get_elem?-observed_states base d self (v ∷ range) p (suc j) s e =
      let later = get_elem?-observed_states base d self range (suc p) j s e in
      (later.0 ∙ ap (observed_state base d self) (omega arith), omega (arith, later.1))

module _ {ℓ κ} {V : Type ℓ} {X : Type κ} (base n : ℕ) (rs : List (ResultVariant V X)) where
  -- Promises that are none of the futures.
  pub append-Reported :
      (w : World V X) (news : List (State V X))
      → ((j : ℕ) (s : State V X)
          → get_elem? news j ≡ some s
          → IsTame base n rs s × Outside base n (length rs) (length w.states + j))
      → Reported base n rs w
      → Reported base n rs (record w { states = w.states ++ news })
  append-Reported w news apart h = record {
    order = h.order;
    each = h.each;
    logged = h.logged;
    unborn = λ few. h.unborn (omega (arith, length-append w.states news));
    tame = λ p s e outside. elim (get_elem?-append_cases w.states news p s e) [
      | inl old ↦ h.tame p s old.1 outside
      | inr new ↦ (apart new.0 s new.1.1).0
    ];
    watched = λ i s lt e. elim (get_elem?-append_cases w.states news (n + i) s e) [
      | inl old ↦ h.watched i s lt old.1
      | inr new ↦
          let behind : n + length rs ≤ length w.states + new.0 =
            (apart new.0 s new.1.1).1 (omega (arith, new.1.0)) in
          absurd (omega (arith, new.1.0))
    ];
    now = λ i s lt e. elim (get_elem?-append_cases w.states news (n + i) s e) [
      | inl old ↦ h.now i s lt old.1
      | inr new ↦
          let behind : n + length rs ≤ length w.states + new.0 =
            (apart new.0 s new.1.1).1 (omega (arith, new.1.0)) in
          absurd (omega (arith, new.1.0))
    ];
  }

  observed_state-IsWatched :
      (d : Values V) (self p : ℕ) → IsWatched base n rs p (observed_state base d self p)
  observed_state-IsWatched d self p = record {
    successes = [];
    failures = [];
    success = refl;
    failure = refl;
    tame_successes = tt;
    tame_failures = tt;
    fresh = λ e. refl;
  }

  -- The futures themselves, when map makes them.
  pub observed-Reported :
      (d : Values V) (self : ℕ) (range : List V) (w : World V X)
      → length w.states ≡ n
      → length range ≡ length rs
      → Reported base n rs w
      → Reported base n rs (record w { states = w.states ++ observed_states base d self n range })
  observed-Reported d self range w born size h = record {
    order = h.order;
    each = h.each;
    logged = h.logged;
    unborn = λ few. h.unborn (omega (arith, born));
    tame = λ p s e outside. elim (get_elem?-append_cases w.states _ p s e) [
      | inl old ↦ h.tame p s old.1 outside
      | inr new ↦
          let inside : new.0 < length range =
            (get_elem?-observed_states base d self range n new.0 s new.1.1).1 in
          let behind : n + length rs ≤ p = outside (omega (arith, new.1.0)) in
          absurd (omega (arith, new.1.0, inside))
    ];
    watched = λ i s lt e. elim (get_elem?-append_cases w.states _ (n + i) s e) [
      | inl old ↦ absurd (omega (arith, old.0))
      | inr new ↦
          let here : s ≡ observed_state base d self (n + new.0) =
            (get_elem?-observed_states base d self range n new.0 s new.1.1).0 in
          let place : n + new.0 ≡ n + i = omega (arith, new.1.0) in
          subst (IsWatched base n rs (n + i)) (sym (here ∙ ap (observed_state base d self) place))
            (observed_state-IsWatched d self (n + i))
    ];
    now = λ i s lt e. elim (get_elem?-append_cases w.states _ (n + i) s e) [
      | inl old ↦ absurd (omega (arith, old.0))
      | inr new ↦
          let here : s ≡ observed_state base d self (n + new.0) =
            (get_elem?-observed_states base d self range n new.0 s new.1.1).0 in
          let none_yet : h.order ≡ [] = h.unborn (omega (arith, born)) in
          ap (λ order. get_elem? (marked rs order (start rs)) i) none_yet
          ∙ (get_elem?-replicate (length rs) i monostate lt
              ∙ ap
                  (λ (r : State V X).
                    some (if r.is_ready then get_or rs i monostate else monostate))
                  (sym here))
    ];
  }
