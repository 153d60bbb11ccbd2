-- ===== src/Callable/Program.antt =====
-- The operations of callable.hpp on a program with any number of callables.
mod Owners
mod Content
mod Assign
mod Counted
mod Owned
mod Spared
mod Reuse
mod Sharing
mod Examples
use cplease.Base.{
  ℕ, ◌≡◌, Bool, true, false, if◌then◌else◌, List, [], ◌∷◌, ◌++◌, set, get_elem?, Option, none, some,
  ◌>>=◌, suc, length,
}
use cplease.Callable.{
  FunctorType, same_type, Functor, object, member_pair, functor_type, ObjectPtr, indeterminate,
  null, of_user, of_store, Stub, functor_stub, function_stub, method_stub, Store, Callable,
  new_callable, object_callable, function_callable, method_callable, construct_functor,
  assign_functor, acquire, release, place, Functions,
}

-- The stores, and the callables by their numbers, none once they are destroyed.
pub record Program {ℓ} (V : Type ℓ) : Type ℓ where
  pub stores : List (Store V)
  pub callables : List (Option Callable)

pub data Operation {ℓ} (V : Type ℓ) : Type ℓ where
  -- constructors
  default : Operation V
  from_object : ℕ → Operation V
  from_function : ℕ → Operation V
  from_method : ℕ → ℕ → Operation V
  from_functor : Functor V → Operation V
  copy_of : ℕ → Operation V
  move_of : ℕ → Operation V
  -- the destructor
  destroy : ℕ → Operation V
  -- operator= of a copy, of a temporary, of a functor
  copy_assign : ℕ → ℕ → Operation V
  move_assign : ℕ → ℕ → Operation V
  assign : ℕ → Functor V → Operation V
  reset : ℕ → Operation V
  reset_stub : ℕ → Operation V
  swap : ℕ → ℕ → Operation V

abbrev pub callable_at : List (Option Callable) → ℕ → Option Callable
callable_at cs i = get_elem? cs i >>= λ c. c

-- What is left of a callable whose members were moved from: of them only m_store changes.
pub moved_from : Callable → Callable
moved_from c = record c { store = none }

module _ {ℓ} {V : Type ℓ} where
  abbrev pub add_callable : Program V → Callable → Program V
  add_callable program c = record program { callables = program.callables ++ (some c ∷ []) }

  pub move_callable : ℕ → ℕ → Program V → Option (Program V)
  move_callable i j program = do
    from ← callable_at program.callables j
    to ← callable_at (set program.callables j (some (moved_from from))) i
    stores ← release program.stores to.store
    some (record {
      stores = stores;
      callables = set (set program.callables j (some (moved_from from))) i (some from);
    })

  pub operate : (FunctorType → ℕ) → Operation V → Program V → Option (Program V)
  operate sizeof default program = some (add_callable program new_callable)
  operate sizeof (from_object o) program = some (add_callable program (object_callable o))
  operate sizeof (from_function f) program = some (add_callable program (function_callable f))
  operate sizeof (from_method o m) program = some (add_callable program (method_callable o m))
  operate sizeof (from_functor f) program =
      let (stores, c) = construct_functor sizeof program.stores f in
      some (add_callable (record program { stores = stores }) c)
  operate sizeof (copy_of j) program = do
    c ← callable_at program.callables j
    some (add_callable (record program { stores = acquire program.stores c.store }) c)
  operate sizeof (move_of j) program = do
    c ← callable_at program.callables j
    some (
        add_callable (record program { callables = set program.callables j (some (moved_from c)) })
          c)
  operate sizeof (destroy i) program = do
    c ← callable_at program.callables i
    stores ← release program.stores c.store
    some (record { stores = stores; callables = set program.callables i none })
  operate sizeof (copy_assign i j) program = do
    from ← callable_at program.callables j
    to ← callable_at program.callables i
    stores ← release (acquire program.stores from.store) to.store
    some (record { stores = stores; callables = set program.callables i (some from) })
  operate sizeof (move_assign i j) program = move_callable i j program
  operate sizeof (assign i f) program = do
    c ← callable_at program.callables i
    (stores, c') ← assign_functor sizeof program.stores c f
    some (record { stores = stores; callables = set program.callables i (some c') })
  operate sizeof (reset i) program = do
    c ← callable_at program.callables i
    stores ← release program.stores c.store
    some (record {
      stores = stores;
      callables = set program.callables i (some (record c { stub_ptr = none; store = none }));
    })
  operate sizeof (reset_stub i) program = do
    c ← callable_at program.callables i
    some (record program {
      callables = set program.callables i (some (record c { stub_ptr = none }));
    })
  operate sizeof (swap i j) program = do
    a ← callable_at program.callables i
    b ← callable_at program.callables j
    some (record program { callables = set (set program.callables i (some b)) j (some a) })

  pub operate_all : (FunctorType → ℕ) → List (Operation V) → Program V → Option (Program V)
  operate_all sizeof [] program = some program
  operate_all sizeof (operation ∷ operations) program =
      operate sizeof operation program >>= operate_all sizeof operations

  -- `callable(object, method_ptr)`: from makes a temporary with a member_pair, which is moved into the new
  -- callable and destroyed. The temporary has the next number, and the new callable the one after it.
  pub construct_member : (FunctorType → ℕ) → ℕ → ℕ → ℕ → Program V → Option (Program V)
  construct_member sizeof ty object_ptr method_ptr program =
      let temporary = length program.callables in
      operate_all sizeof
        (from_functor (member_pair ty object_ptr method_ptr)
          ∷ default
          ∷ move_assign (suc temporary) temporary
          ∷ destroy temporary
          ∷ [])
        program

  abbrev pub no_callables : Program V
  no_callables = record { stores = []; callables = [] }

module _ {ℓ κ ι} {V : Type ℓ} {A : Type κ} {R : Type ι} (functions : Functions V A R) where
  -- functor_stub, of a functor and of a member_pair
  pub call_functor : Functor V → A → Functor V × R
  call_functor (object ty state) args =
      let (state', r) = functions.functor ty state args in (object ty state', r)
  call_functor (member_pair ty object_ptr method_ptr) args =
      (member_pair ty object_ptr method_ptr, functions.method method_ptr object_ptr args)

  -- The functor at a pointer, used as one of a type.
  pub call_in_store : List (Store V) → FunctorType → ObjectPtr → A → Option (List (Store V) × R)
  call_in_store stores ty indeterminate args = none
  call_in_store stores ty null args = none
  call_in_store stores ty (of_user o) args = none
  call_in_store stores ty (of_store b) args = do
    s ← get_elem? stores b
    f ← s.content
    if same_type (functor_type f) ty
        then (let (f', r) = call_functor f args in some (place stores b f', r))
        else none

  pub call_method : ℕ → ObjectPtr → A → Option R
  call_method m indeterminate args = none
  call_method m null args = none
  call_method m (of_user o) args = some (functions.method m o args)
  call_method m (of_store b) args = none

  pub call_stub : List (Store V) → ObjectPtr → Stub → A → Option (List (Store V) × R)
  call_stub stores p (functor_stub ty) args = call_in_store stores ty p args
  call_stub stores p (function_stub f) args = some (stores, functions.function f args)
  call_stub stores p (method_stub m) args = call_method m p args >>= λ r. some (stores, r)

  -- operator()
  pub call : ℕ → A → Program V → Option (Program V × R)
  call i args program = do
    c ← callable_at program.callables i
    stub ← c.stub_ptr
    (stores, r) ← call_stub program.stores c.object_ptr stub args
    some (record program { stores = stores }, r)
