-- ===== src/Callable/Program/Examples.antt =====
-- callable.hpp at functors of two classes.
use cplease.Base.{arith, is_some, ℕ, ◌+◌, ◌≡◌, refl, [], ◌∷◌, some, ◌||◌, ltb}
use cplease.Callable.{
  FunctorType, class_type, pair_type, Functor, object, functor_type, same_type, Functions, uses,
  place, update_store, construct_functor, new_store, holding_functor, acquire, assign_functor,
  assign_in_new_store, release, drop_owner, count_of,
}
use cplease.Callable.Program.{
  Program, from_functor, copy_of, move_of, reset, assign, destroy, operate, operate_all,
  no_callables, call_functor,
}
use cplease.Callable.Program.Spared.{operate-content_at}
use cplease.Callable.Program.Content.{content_at}
use cplease.Callable.Program.Reuse.{two_functors, two_functors-defined, assign-emptied}
use cplease.Callable.Program.Sharing.{call_after, copy-assign_call}

-- A class n takes n bytes and a member_pair 24.
abbrev sizes : FunctorType → ℕ
sizes (class_type n) = n
sizes (pair_type n) = 24

-- A functor counts its calls, and returns its argument and the count.
abbrev counting : Functions ℕ ℕ ℕ
counting = record {
  function = λ f a. f + a;
  method = λ m o a. m + o + a;
  functor = λ ty n a. (n + 1, n + a);
}

abbrev big : Functor ℕ
big = object 16 100

abbrev small : Functor ℕ
small = object 8 200

-- One functor with two owners.
abbrev shared : Program ℕ
shared = record {
  stores =
      record { size = 16; content = some big; functor_deleter = class_type 16; use_count = 2 } ∷ [];
  callables =
      some (holding_functor (class_type 16) 0 16)
      ∷ (some (holding_functor (class_type 16) 0 16) ∷ []);
}

shared-comes : operate_all sizes (from_functor big ∷ (copy_of 0 ∷ [])) no_callables ≡ some shared
unfolding operate_all operate construct_functor place update_store new_store functor_type acquire
    holding_functor
shared-comes = refl

-- The first callable gets another functor, which would fit into the store.
abbrev reassigned : Program ℕ
reassigned = record {
  stores =
      record { size = 16; content = some big; functor_deleter = class_type 16; use_count = 1 }
      ∷ record { size = 8; content = some small; functor_deleter = class_type 8; use_count = 1 }
      ∷ [];
  callables =
      some (holding_functor (class_type 8) 1 8)
      ∷ (some (holding_functor (class_type 16) 0 16) ∷ []);
}

operate-content_at_example : content_at reassigned.stores 0 ≡ content_at shared.stores 0
unfolding operate assign_functor assign_in_new_store place update_store new_store functor_type
    holding_functor release drop_owner uses count_of
operate-content_at_example =
    operate-content_at sizes (from_functor big ∷ (copy_of 0 ∷ [])) (assign 0 small) shared
      reassigned 1 (holding_functor (class_type 16) 0 16) 0 shared-comes refl refl
      (λ e. absurd (omega arith)) refl

two_functors-defined_example :
    is_some (operate_all sizes (two_functors sizes big small) no_callables) ≡ (
      ltb (sizes (functor_type big)) (sizes (functor_type small))
      || same_type (functor_type small) (functor_type big))
two_functors-defined_example = two_functors-defined sizes big small

assign-emptied_example :
    (is_some (operate_all sizes (from_functor big ∷ (reset 0 ∷ (assign 0 small ∷ []))) no_callables)
      ≡ ltb (sizes (functor_type big)) (sizes (functor_type small)))
    × (is_some
          (operate_all sizes (from_functor big ∷ (move_of 0 ∷ (assign 0 small ∷ []))) no_callables)
        ≡ ltb (sizes (functor_type big)) (sizes (functor_type small)))
assign-emptied_example = assign-emptied sizes big small

copy-assign_call_example :
    (call_after sizes counting (from_functor big ∷ (copy_of 0 ∷ (assign 1 small ∷ []))) 0 5
      ≡ some (call_functor counting big 5).1)
    × ((call_after sizes counting (from_functor big ∷ (copy_of 0 ∷ (assign 1 small ∷ []))) 1 5
          ≡ some (call_functor counting small 5).1)
        × (call_after sizes counting
              (from_functor big ∷ (copy_of 0 ∷ (assign 1 small ∷ (destroy 0 ∷ []))))
              1
              5
            ≡ some (call_functor counting small 5).1))
copy-assign_call_example = copy-assign_call sizes counting big small 5
