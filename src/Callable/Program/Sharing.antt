-- ===== src/Callable/Program/Sharing.antt =====
-- Copies of a callable of callable.hpp.
use cplease.Base.{ℕ, ◌≡◌, refl, ltb, List, [], ◌∷◌, Option, none, some, ◌>>=◌, Bool-cases, inl, inr}
use cplease.Callable.{
  FunctorType, functor_type, Functor, holding_functor, destroy_as, drop_owner, update_store,
  acquire, release, new_store, uses, count_of, place, construct_functor, assign_in_new_store,
  assign_functor, Functions, pair_type, functor_type,
}
use cplease.Callable.Program.{
  Program, Operation, from_functor, copy_of, destroy, assign, operate, operate_all, no_callables,
  call, call_stub, call_in_store, call_functor, construct_member, move_callable, moved_from,
}
use cplease.Callable.Program.Reuse.{same_type_self}

module _ {ℓ κ ι} {V : Type ℓ} {A : Type κ} {R : Type ι} (sizeof : FunctorType → ℕ)
    (functions : Functions V A R) where
  -- What a call returns after some operations, if both are defined.
  abbrev pub result_of : Option (Program V × R) → Option R
  result_of none = none
  result_of (some (program, r)) = some r

  abbrev pub call_after : List (Operation V) → ℕ → A → Option R
  call_after operations i args = operate_all sizeof operations no_callables >>= λ program.
      result_of (call functions i args program)

  -- A functor in a callable is copied, and the copy is assigned another functor: then the callable
  -- still calls the first functor and the copy the second, also after the callable was destroyed.
  pub copy-assign_call :
      (f g : Functor V) (args : A)
      → (call_after (from_functor f ∷ (copy_of 0 ∷ (assign 1 g ∷ []))) 0 args
          ≡ some (call_functor functions f args).1)
        × ((call_after (from_functor f ∷ (copy_of 0 ∷ (assign 1 g ∷ []))) 1 args
              ≡ some (call_functor functions g args).1)
            × (call_after (from_functor f ∷ (copy_of 0 ∷ (assign 1 g ∷ (destroy 0 ∷ [])))) 1 args
                ≡ some (call_functor functions g args).1))
  unfolding operate_all operate construct_functor place update_store new_store holding_functor
      assign_functor count_of uses assign_in_new_store release drop_owner destroy_as acquire call
      call_stub call_in_store
  copy-assign_call f g args =
      elim (Bool-cases (ltb (sizeof (functor_type f)) (sizeof (functor_type g)))) [
        | inl larger ↦ (
          rw (larger, same_type_self (functor_type f)) refl,
          (
            rw (larger, same_type_self (functor_type g)) refl,
            rw (larger, same_type_self (functor_type f), same_type_self (functor_type g)) refl,
          ),
        )
        | inr fits ↦ (
          rw (fits, same_type_self (functor_type f)) refl,
          (
            rw (fits, same_type_self (functor_type g)) refl,
            rw (fits, same_type_self (functor_type f), same_type_self (functor_type g)) refl,
          ),
        )
      ]

  -- The callable of an object and a method calls that method of it.
  call-construct_member :
      (ty object_ptr method_ptr : ℕ) (args : A)
      → (construct_member sizeof ty object_ptr method_ptr no_callables >>= λ program.
          result_of (call functions 1 args program))
        ≡ some (functions.method method_ptr object_ptr args)
  unfolding construct_member operate_all operate construct_functor place update_store new_store
      holding_functor move_callable moved_from release call call_stub call_in_store call_functor
      functor_type
  call-construct_member ty object_ptr method_ptr args = rw (same_type_self (pair_type ty)) refl
