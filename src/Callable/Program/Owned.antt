-- ===== src/Callable/Program/Owned.antt =====
-- The operations of callable.hpp destroy a functor with its last owner.
use cplease.Base.{
  ℕ, ◌≤◌, ◌≡◌, refl, subst, Bool, true, false, if◌then◌else◌, ◌||◌, ltb, List, [], ◌∷◌, ◌++◌, set,
  get_elem?, Option, some, >>=-eq-some,
}
use mathlib.Core.Option.{some-injective}
use cplease.Callable.{
  FunctorType, functor_type, Functor, Store, Callable, destroy_as, acquire, release, new_store,
  uses, count_of, construct_functor, assign_in_new_store, assign_in_place, assign_functor,
}
use cplease.Callable.Program.{
  Program, callable_at, moved_from, move_callable, Operation, default, from_object, from_function,
  from_method, from_functor, copy_of, move_of, destroy, copy_assign, move_assign, assign, reset,
  reset_stub, swap, operate, operate_all,
}
use cplease.Callable.Program.Owners.{owns_store}
use cplease.Callable.Program.Counted.{IsCounted, at_least, operate-IsCounted}
use cplease.Callable.Program.Content.{
  AllFull, acquire-AllFull, release-AllFull, place_last-AllFull, release-place-AllFull,
  replace-AllFull,
}

module _ {ℓ} {V : Type ℓ} (sizeof : FunctorType → ℕ) where
  assign_functor-AllFull :
      (stores : List (Store V)) (c : Callable) (f : Functor V) (r : List (Store V) × Callable)
      → ((b : ℕ) → owns_store c.store b ≤ uses stores b)
      → AllFull stores
      → assign_functor sizeof stores c f ≡ some r
      → AllFull r.0
  unfolding assign_functor assign_in_new_store assign_in_place new_store
  assign_functor-AllFull stores c f r h full e =
      let (n, _, e1) = >>=-eq-some c.store_size _ e in
      at_test n (ltb n (sizeof (functor_type f)) || ltb 1 (count_of stores c.store)) e1
    where
      at_test :
          (n : ℕ) (test : Bool)
          → (if test then assign_in_new_store sizeof stores c f else assign_in_place stores c n f)
            ≡ some r
          → AllFull r.0
      at_test n true e =
          let ty = functor_type f in
          let (stores', released, last) =
            >>=-eq-some (release (stores ++ (new_store ty (sizeof ty) ∷ [])) c.store) _ e in
          subst (λ (q : List (Store V) × Callable). AllFull q.0) (some-injective _ r last)
            (release-place-AllFull stores stores' (new_store ty (sizeof ty)) c.store f refl h
              released full)
      at_test n false e =
          let (deleter, _, e1) = >>=-eq-some c.deleter _ e in
          let (b, _, e2) = >>=-eq-some c.store _ e1 in
          let (s, found, e3) = >>=-eq-some (get_elem? stores b) _ e2 in
          let (s', destroyed, last) = >>=-eq-some (destroy_as deleter s) _ e3 in
          subst (λ (q : List (Store V) × Callable). AllFull q.0) (some-injective _ r last)
            (replace-AllFull stores s s' b deleter f found destroyed full)

  released :
      (program : Program V) (c : Callable) (stores : List (Store V))
      (callables : List (Option Callable)) (program' : Program V)
      → AllFull program.stores
      → release program.stores c.store ≡ some stores
      → some (record { stores = stores; callables = callables }) ≡ some program'
      → AllFull program'.stores
  released program c stores callables program' full e last =
      subst (λ (q : Program V). AllFull q.stores) (some-injective _ program' last)
        (release-AllFull program.stores stores c.store e full)

  operate-AllFull :
      (operation : Operation V) (program program' : Program V)
      → IsCounted program
      → AllFull program.stores
      → operate sizeof operation program ≡ some program'
      → AllFull program'.stores
  unfolding operate construct_functor move_callable new_store
  operate-AllFull default program program' h full e =
      subst (λ (q : Program V). AllFull q.stores) (some-injective _ program' e) full
  operate-AllFull (from_object o) program program' h full e =
      subst (λ (q : Program V). AllFull q.stores) (some-injective _ program' e) full
  operate-AllFull (from_function f) program program' h full e =
      subst (λ (q : Program V). AllFull q.stores) (some-injective _ program' e) full
  operate-AllFull (from_method o m) program program' h full e =
      subst (λ (q : Program V). AllFull q.stores) (some-injective _ program' e) full
  operate-AllFull (from_functor f) program program' h full e =
      let ty = functor_type f in
      subst (λ (q : Program V). AllFull q.stores) (some-injective _ program' e)
        (place_last-AllFull program.stores (new_store ty (sizeof ty)) f refl full)
  operate-AllFull (copy_of j) program program' h full e =
      let (c, found, last) = >>=-eq-some (callable_at program.callables j) _ e in
      subst (λ (q : Program V). AllFull q.stores) (some-injective _ program' last)
        (acquire-AllFull program.stores c.store (at_least program j c h found) full)
  operate-AllFull (move_of j) program program' h full e =
      let (c, found, last) = >>=-eq-some (callable_at program.callables j) _ e in
      subst (λ (q : Program V). AllFull q.stores) (some-injective _ program' last) full
  operate-AllFull (destroy i) program program' h full e =
      let (c, found, e1) = >>=-eq-some (callable_at program.callables i) _ e in
      let (stores, freed, last) = >>=-eq-some (release program.stores c.store) _ e1 in
      released program c stores _ program' full freed last
  operate-AllFull (copy_assign i j) program program' h full e =
      let (from, found, e1) = >>=-eq-some (callable_at program.callables j) _ e in
      let (to, found', e2) = >>=-eq-some (callable_at program.callables i) _ e1 in
      let (stores, freed, last) =
        >>=-eq-some (release (acquire program.stores from.store) to.store) _ e2 in
      released (record program { stores = acquire program.stores from.store }) to stores _ program'
        (acquire-AllFull program.stores from.store (at_least program j from h found) full) freed
        last
  operate-AllFull (move_assign i j) program program' h full e =
      let (from, found, e1) = >>=-eq-some (callable_at program.callables j) _ e in
      let (to, found', e2) =
        >>=-eq-some (callable_at (set program.callables j (some (moved_from from))) i) _ e1 in
      let (stores, freed, last) = >>=-eq-some (release program.stores to.store) _ e2 in
      released program to stores _ program' full freed last
  operate-AllFull (assign i f) program program' h full e =
      let (c, found, e1) = >>=-eq-some (callable_at program.callables i) _ e in
      let (r, assigned, last) = >>=-eq-some (assign_functor sizeof program.stores c f) _ e1 in
      subst (λ (q : Program V). AllFull q.stores) (some-injective _ program' last)
        (assign_functor-AllFull program.stores c f r (at_least program i c h found) full assigned)
  operate-AllFull (reset i) program program' h full e =
      let (c, found, e1) = >>=-eq-some (callable_at program.callables i) _ e in
      let (stores, freed, last) = >>=-eq-some (release program.stores c.store) _ e1 in
      released program c stores _ program' full freed last
  operate-AllFull (reset_stub i) program program' h full e =
      let (c, found, last) = >>=-eq-some (callable_at program.callables i) _ e in
      subst (λ (q : Program V). AllFull q.stores) (some-injective _ program' last) full
  operate-AllFull (swap i j) program program' h full e =
      let (a, found, e1) = >>=-eq-some (callable_at program.callables i) _ e in
      let (b, found', last) = >>=-eq-some (callable_at program.callables j) _ e1 in
      subst (λ (q : Program V). AllFull q.stores) (some-injective _ program' last) full

  pub operate_all-Owned :
      (operations : List (Operation V)) (program program' : Program V)
      → IsCounted program
      → AllFull program.stores
      → operate_all sizeof operations program ≡ some program'
      → IsCounted program' × AllFull program'.stores
  unfolding operate_all
  operate_all-Owned [] program program' h full e =
      subst (λ (q : Program V). IsCounted q × AllFull q.stores) (some-injective program program' e)
        (h, full)
  operate_all-Owned (operation ∷ operations) program program' h full e =
      let (next, first, later) = >>=-eq-some (operate sizeof operation program) _ e in
      operate_all-Owned operations next program'
        (operate-IsCounted sizeof operation program next h first)
        (operate-AllFull operation program next h full first) later
