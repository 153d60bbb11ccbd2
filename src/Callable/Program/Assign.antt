-- ===== src/Callable/Program/Assign.antt =====
-- The owners of the stores after an assignment of a functor in callable.hpp.
use cplease.Base.{
  ℕ, ◌+◌, ◌≤◌, ◌≡◌, refl, ap, subst, Bool, true, false, if◌then◌else◌, ◌||◌, ltb, List, [], ◌∷◌,
  ◌++◌, length, set, get_elem?, some, >>=-eq-some, arith,
}
use mathlib.Core.Option.{some-injective}
use cplease.Callable.{
  FunctorType, functor_type, Functor, Store, Callable, holding_functor, destroy_as, release,
  new_store, uses, count_of, assign_in_new_store, assign_in_place, assign_functor,
}
use cplease.Callable.Program.Owners.{
  equal, owns_store, uses-append, uses-place, uses-set_same, destroy_as-use_count, uses-release,
}

module _ {ℓ} {V : Type ℓ} (sizeof : FunctorType → ℕ) where
  -- The owners after an assignment from a functor.
  abbrev pub Assigned : List (Store V) → Callable → List (Store V) × Callable → Type 0
  Assigned stores c (stores', c') =
      (b : ℕ) → uses stores' b + owns_store c.store b ≡ uses stores b + owns_store c'.store b

  assign_in_new_store-uses :
      (stores : List (Store V)) (c : Callable) (f : Functor V) (r : List (Store V) × Callable)
      → ((b : ℕ) → owns_store c.store b ≤ uses stores b)
      → assign_in_new_store sizeof stores c f ≡ some r
      → Assigned stores c r
  unfolding assign_in_new_store holding_functor new_store
  assign_in_new_store-uses stores c f r h e =
      let ty = functor_type f in
      let grown = stores ++ (new_store ty (sizeof ty) ∷ []) in
      let (stores', released, last) = >>=-eq-some (release grown c.store) _ e in
      let more : (b : ℕ) → uses grown b ≡ uses stores b + equal (length stores) b =
        λ b. uses-append stores (new_store ty (sizeof ty)) b refl in
      subst (Assigned stores c) (some-injective _ r last) λ b. omega (
        arith,
        more b,
        uses-place stores' (length stores) f b,
        uses-release grown stores' c.store b (λ a. omega (arith, h a, more a)) released,
      )

  assign_in_place-uses :
      (stores : List (Store V)) (c : Callable) (n : ℕ) (f : Functor V)
      (r : List (Store V) × Callable)
      → assign_in_place stores c n f ≡ some r
      → Assigned stores c r
  unfolding assign_in_place holding_functor
  assign_in_place-uses stores c n f r e =
      let (deleter, _, e1) = >>=-eq-some c.deleter _ e in
      let (b, owned, e2) = >>=-eq-some c.store _ e1 in
      let (s, found, e3) = >>=-eq-some (get_elem? stores b) _ e2 in
      let (s', destroyed, last) = >>=-eq-some (destroy_as deleter s) _ e3 in
      subst (Assigned stores c) (some-injective _ r last) λ a. omega (
        arith,
        ap (λ o. owns_store o a) owned,
        uses-place (set stores b s') b f a,
        uses-set_same stores b s s' a found (destroy_as-use_count deleter s s' destroyed),
      )

  pub assign_functor-uses :
      (stores : List (Store V)) (c : Callable) (f : Functor V) (r : List (Store V) × Callable)
      → ((b : ℕ) → owns_store c.store b ≤ uses stores b)
      → assign_functor sizeof stores c f ≡ some r
      → Assigned stores c r
  unfolding assign_functor
  assign_functor-uses stores c f r h e =
      let (n, _, e1) = >>=-eq-some c.store_size _ e in
      at_test n (ltb n (sizeof (functor_type f)) || ltb 1 (count_of stores c.store)) e1
    where
      at_test :
          (n : ℕ) (test : Bool)
          → (if test then assign_in_new_store sizeof stores c f else assign_in_place stores c n f)
            ≡ some r
          → Assigned stores c r
      at_test n true e = assign_in_new_store-uses stores c f r h e
      at_test n false e = assign_in_place-uses stores c n f r e
