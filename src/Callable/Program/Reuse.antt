-- ===== src/Callable/Program/Reuse.antt =====
-- A second functor in a callable of callable.hpp.
use cplease.Base.{
  is_some, ℕ, ◌≡◌, refl, true, ◌||◌, ltb, List, [], ◌∷◌, ◌==◌, ==_iff, Bool-cases, inl, inr,
}
use cplease.Callable.{
  FunctorType, class_type, pair_type, update_store, drop_owner, same_type, functor_type, Functor,
  holding_functor, destroy_as, acquire, release, new_store, uses, count_of, place,
  construct_functor, assign_in_new_store, assign_in_place, assign_functor,
}
use cplease.Callable.Program.{
  Operation, from_functor, reset, move_of, moved_from, destroy, assign, operate, operate_all,
  no_callables,
}

==_self : (n : ℕ) → (n == n) ≡ true
==_self n = (==_iff n n).1 refl

pub same_type_self : (ty : FunctorType) → same_type ty ty ≡ true
unfolding same_type
same_type_self (class_type a) = ==_self a
same_type_self (pair_type a) = ==_self a

module _ {ℓ} {V : Type ℓ} (sizeof : FunctorType → ℕ) where
  abbrev pub two_functors : Functor V → Functor V → List (Operation V)
  two_functors f g = from_functor f ∷ (assign 0 g ∷ (destroy 0 ∷ []))

  -- A callable of a functor f that is assigned a functor g, and then destroyed: this is defined exactly
  -- if g is larger than f or has the type of f. A g of another type that fits into the store is put
  -- there, but the store keeps functor_deleter of the type of f, which then destroys g.
  pub two_functors-defined :
      (f g : Functor V)
      → is_some (operate_all sizeof (two_functors f g) no_callables) ≡ (
          ltb (sizeof (functor_type f)) (sizeof (functor_type g))
          || same_type (functor_type g) (functor_type f))
  unfolding operate_all operate construct_functor place update_store new_store holding_functor
      assign_functor count_of uses assign_in_new_store assign_in_place release drop_owner destroy_as
      acquire
  two_functors-defined f g =
      elim (Bool-cases (ltb (sizeof (functor_type f)) (sizeof (functor_type g)))) [
        | inl larger ↦
            rw (larger, same_type_self (functor_type f), same_type_self (functor_type g)) refl
        | inr fits ↦ elim (Bool-cases (same_type (functor_type g) (functor_type f))) [
          | inl same ↦ rw (fits, same_type_self (functor_type f), same) refl
          | inr other ↦ rw (fits, same_type_self (functor_type f), other) refl
        ]
      ]

  -- A callable of a functor f that was reset or moved from, and is then assigned a functor g: either is
  -- defined exactly if g is larger than f, since m_store_size is kept while the store is gone.
  pub assign-emptied :
      (f g : Functor V)
      → (is_some (operate_all sizeof (from_functor f ∷ (reset 0 ∷ (assign 0 g ∷ []))) no_callables)
          ≡ ltb (sizeof (functor_type f)) (sizeof (functor_type g)))
        × (is_some
              (operate_all sizeof (from_functor f ∷ (move_of 0 ∷ (assign 0 g ∷ []))) no_callables)
            ≡ ltb (sizeof (functor_type f)) (sizeof (functor_type g)))
  unfolding operate_all operate construct_functor place update_store new_store holding_functor
      assign_functor count_of uses assign_in_new_store assign_in_place release drop_owner destroy_as
      acquire moved_from
  assign-emptied f g = elim (Bool-cases (ltb (sizeof (functor_type f)) (sizeof (functor_type g)))) [
    | inl larger ↦ (rw (same_type_self (functor_type f), larger) refl, rw larger refl)
    | inr fits ↦ (rw (same_type_self (functor_type f), fits) refl, rw fits refl)
  ]
