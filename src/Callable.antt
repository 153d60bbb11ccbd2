-- ===== src/Callable.antt =====
-- include/plz/help/callable.hpp: a type-erased function, with its functor in a store that copies share.
-- Undefined behaviour (a call through a null stub, the use of an object as one of another type, the use
-- of a value that was never set) is `none`.
pub mod Program
use cplease.Base.{
  ℕ, zero, suc, ◌+◌, ◌-◌, ◌≡◌, Bool, true, false, ◌&&◌, ◌||◌, if◌then◌else◌, ◌==◌, ltb, List, [],
  ◌∷◌, ◌++◌, length, set, get_elem?, Option, none, some, ◌>>=◌,
}

-- The type of a functor: a class of the user, or member_pair of a class.
pub data FunctorType : Type 0 where
  class_type : ℕ → FunctorType
  pair_type : ℕ → FunctorType

pub same_type : FunctorType → FunctorType → Bool
same_type (class_type a) (class_type b) = a == b
same_type (class_type a) (pair_type b) = false
same_type (pair_type a) (class_type b) = false
same_type (pair_type a) (pair_type b) = a == b

-- An object of a user class with its state, or a member_pair: class, object and method.
pub data Functor {ℓ} (V : Type ℓ) : Type ℓ where
  object : ℕ → V → Functor V
  member_pair : ℕ → ℕ → ℕ → Functor V

pub functor_type {ℓ} : {V : Type ℓ} → Functor V → FunctorType
functor_type (object ty state) = class_type ty
functor_type (member_pair ty object_ptr method_ptr) = pair_type ty

-- What m_object_ptr points to: nothing, an object of the user, or a store. It may be indeterminate.
pub data ObjectPtr : Type 0 where
  indeterminate : ObjectPtr
  null : ObjectPtr
  of_user : ℕ → ObjectPtr
  of_store : ℕ → ObjectPtr

pub data Stub : Type 0 where
  functor_stub : FunctorType → Stub
  function_stub : ℕ → Stub
  method_stub : ℕ → Stub

-- What m_store owns: the memory, the functor in it, the type whose functor_deleter deletes it, and the
-- number of the owners. It is deleted once there are none.
pub record Store {ℓ} (V : Type ℓ) : Type ℓ where
  pub size : ℕ
  pub content : Option (Functor V)
  pub functor_deleter : FunctorType
  pub use_count : ℕ

-- deleter and store_size are none while they are indeterminate.
pub record Callable : Type 0 where
  pub object_ptr : ObjectPtr
  pub stub_ptr : Option Stub
  pub deleter : Option FunctorType
  pub store : Option ℕ
  pub store_size : Option ℕ

-- `callable()`
abbrev pub new_callable : Callable
new_callable = record {
  object_ptr = indeterminate;
  stub_ptr = none;
  deleter = none;
  store = none;
  store_size = none;
}

-- `callable(C* o)`, without a stub
pub object_callable : ℕ → Callable
object_callable o = record new_callable { object_ptr = of_user o }

-- `from<function_ptr>()`
pub function_callable : ℕ → Callable
function_callable function_ptr = record new_callable {
  object_ptr = null;
  stub_ptr = some (function_stub function_ptr);
}

-- `from<C, method_ptr>(object_ptr)`
pub method_callable : ℕ → ℕ → Callable
method_callable o method_ptr = record new_callable {
  object_ptr = of_user o;
  stub_ptr = some (method_stub method_ptr);
}

-- The members that both functor constructors and assignments set last.
pub holding_functor : FunctorType → ℕ → ℕ → Callable
holding_functor ty store size = record {
  object_ptr = of_store store;
  stub_ptr = some (functor_stub ty);
  deleter = some ty;
  store = some store;
  store_size = some size;
}

pub operator_bool : Callable → Bool
operator_bool c = is_set c.stub_ptr
  where
    is_set : Option Stub → Bool
    is_set none = false
    is_set (some stub) = true

-- The functions of the user: of the arguments and, of a functor, of its state, which they may change.
pub record Functions {ℓ κ ι} (V : Type ℓ) (A : Type κ) (R : Type ι) : Type (ℓ ⊔ κ ⊔ ι) where
  pub function : ℕ → A → R
  pub method : ℕ → ℕ → A → R
  pub functor : ℕ → V → A → V × R

module _ {ℓ} {V : Type ℓ} where
  pub update_store : List (Store V) → ℕ → (Store V → Store V) → List (Store V)
  update_store [] b f = []
  update_store (s ∷ stores) zero f = f s ∷ stores
  update_store (s ∷ stores) (suc b) f = s ∷ update_store stores b f

  -- `static_cast<T*>(p)->~T()`
  pub destroy_as : FunctorType → Store V → Option (Store V)
  destroy_as ty s = do
    f ← s.content
    if same_type (functor_type f) ty then some (record s { content = none }) else none

  -- A copy of a shared_ptr.
  pub acquire : List (Store V) → Option ℕ → List (Store V)
  acquire stores none = stores
  acquire stores (some b) = update_store stores b (λ s. record s { use_count = s.use_count + 1 })

  -- The end of one, with functor_deleter at the last.
  pub drop_owner : Store V → Option (Store V)
  drop_owner s =
      if s.use_count == 1
      then destroy_as s.functor_deleter (record s { use_count = 0 })
      else some (record s { use_count = s.use_count - 1 })

  pub release : List (Store V) → Option ℕ → Option (List (Store V))
  release stores none = some stores
  release stores (some b) = do s ← get_elem? stores b; s' ← drop_owner s; some (set stores b s')

  -- operator new and the shared_ptr of it; the functor is not there yet.
  pub new_store : FunctorType → ℕ → Store V
  new_store ty size = record { size = size; content = none; functor_deleter = ty; use_count = 1 }

  -- The owners of a store, and `m_store.use_count()`.
  pub uses : List (Store V) → ℕ → ℕ
  uses [] b = 0
  uses (s ∷ stores) zero = s.use_count
  uses (s ∷ stores) (suc b) = uses stores b

  pub count_of : List (Store V) → Option ℕ → ℕ
  count_of stores none = 0
  count_of stores (some b) = uses stores b

  -- `new(m_store.get()) functor_type(std::forward<T>(f))`
  pub place : List (Store V) → ℕ → Functor V → List (Store V)
  place stores b f = update_store stores b (λ s. record s { content = some f })

  -- The store is kept: `m_deleter(m_store.get())`.
  pub assign_in_place :
      List (Store V) → Callable → ℕ → Functor V → Option (List (Store V) × Callable)
  assign_in_place stores c store_size f = do
    deleter ← c.deleter
    b ← c.store
    s ← get_elem? stores b
    s' ← destroy_as deleter s
    some (place (set stores b s') b f, holding_functor (functor_type f) b store_size)

module _ {ℓ} {V : Type ℓ} (sizeof : FunctorType → ℕ) where
  -- `callable(T&& f)`
  pub construct_functor : List (Store V) → Functor V → List (Store V) × Callable
  construct_functor stores f =
      let ty = functor_type f in
      (
        place (stores ++ (new_store ty (sizeof ty) ∷ [])) (length stores) f,
        holding_functor ty (length stores) (sizeof ty),
      )

  -- The store is replaced: `m_store.reset(operator new(sizeof(functor_type)), ...)`.
  pub assign_in_new_store :
      List (Store V) → Callable → Functor V → Option (List (Store V) × Callable)
  assign_in_new_store stores c f =
      let ty = functor_type f in
      do
        stores' ← release (stores ++ (new_store ty (sizeof ty) ∷ [])) c.store
        some (place stores' (length stores) f, holding_functor ty (length stores) (sizeof ty))

  -- `operator=(T&& f)`
  pub assign_functor : List (Store V) → Callable → Functor V → Option (List (Store V) × Callable)
  assign_functor stores c f = do
    store_size ← c.store_size
    if ltb store_size (sizeof (functor_type f)) || ltb 1 (count_of stores c.store)
        then assign_in_new_store stores c f
        else assign_in_place stores c store_size f
