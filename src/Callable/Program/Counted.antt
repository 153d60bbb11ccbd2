-- ===== src/Callable/Program/Counted.antt =====
-- The operations of callable.hpp keep count of the owners of the stores.
use cplease.Base.{
  ℕ, zero, suc, ◌+◌, ◌≤◌, ◌≡◌, refl, subst, List, [], ◌∷◌, ◌++◌, length, set, get_elem?, Option,
  none, some, >>=-eq-some, arith,
}
use mathlib.Core.Option.{none-ne-some, some-injective}
use cplease.Callable.{
  FunctorType, functor_type, Store, Callable, holding_functor, acquire, release, new_store, uses,
  new_callable, object_callable, function_callable, method_callable, construct_functor,
  assign_functor,
}
use cplease.Callable.Program.{
  Program, callable_at, add_callable, moved_from, move_callable, Operation, default, from_object,
  from_function, from_method, from_functor, copy_of, move_of, destroy, copy_assign, move_assign,
  assign, reset, reset_stub, swap, operate,
}
use cplease.Callable.Program.Assign.{assign_functor-uses}
use cplease.Callable.Program.Owners.{
  owns_store, owns, owners, owners-append, owners-set, owners-get_elem?, callable_at-get_elem?,
  uses-append, uses-place, uses-acquire, uses-release,
}

get_elem?-set_other {ℓ} :
    {A : Type ℓ} (xs : List A) (i j : ℕ) (x y : A)
    → get_elem? xs i ≡ some x
    → get_elem? xs j ≡ some y
    → get_elem? (set xs i y) j ≡ some y
get_elem?-set_other [] i j x y h h' = absurd (none-ne-some x h)
get_elem?-set_other (z ∷ xs) zero zero x y h h' = refl
get_elem?-set_other (z ∷ xs) zero (suc j) x y h h' = h'
get_elem?-set_other (z ∷ xs) (suc i) zero x y h h' = h'
get_elem?-set_other (z ∷ xs) (suc i) (suc j) x y h h' = get_elem?-set_other xs i j x y h h'

module _ {ℓ} {V : Type ℓ} where
  -- Every store has as many owners as it counts.
  abbrev pub IsCounted : Program V → Type 0
  IsCounted program = (b : ℕ) → uses program.stores b ≡ owners program.callables b

  -- A callable owns what its store counts.
  pub at_least :
      (program : Program V) (i : ℕ) (c : Callable)
      → IsCounted program
      → callable_at program.callables i ≡ some c
      → (b : ℕ) → owns_store c.store b ≤ uses program.stores b
  at_least program i c h found b = omega (
    arith,
    h b,
    owners-get_elem? program.callables i (some c) b
        (callable_at-get_elem? program.callables i c found),
  )

  add_callable-IsCounted :
      (program : Program V) (stores : List (Store V)) (c : Callable)
      → IsCounted program
      → ((b : ℕ) → uses stores b ≡ uses program.stores b + owns_store c.store b)
      → IsCounted (add_callable (record program { stores = stores }) c)
  add_callable-IsCounted program stores c h more b =
      omega (arith, h b, more b, owners-append program.callables (some c) b)

  set_callable-IsCounted :
      (program : Program V) (stores : List (Store V)) (i : ℕ) (c : Callable)
      (next : Option Callable)
      → IsCounted program
      → callable_at program.callables i ≡ some c
      → ((b : ℕ) → uses stores b + owns_store c.store b ≡ uses program.stores b + owns next b)
      → IsCounted (record { stores = stores; callables = set program.callables i next })
  set_callable-IsCounted program stores i c next h found more b = omega (
    arith,
    h b,
    more b,
    owners-set program.callables i (some c) next b
        (callable_at-get_elem? program.callables i c found),
  )

  move_callable-IsCounted :
      (i j : ℕ) (program program' : Program V)
      → IsCounted program
      → move_callable i j program ≡ some program'
      → IsCounted program'
  unfolding move_callable moved_from
  move_callable-IsCounted i j program program' h e =
      let (from, found, e1) = >>=-eq-some (callable_at program.callables j) _ e in
      let (to, found', e2) =
        >>=-eq-some (callable_at (set program.callables j (some (moved_from from))) i) _ e1 in
      let (stores, released, e3) = >>=-eq-some (release program.stores to.store) _ e2 in
      subst IsCounted (some-injective _ program' e3) λ b. omega (
        arith,
        h b,
        owners-set program.callables j (some from) (some (moved_from from)) b
            (callable_at-get_elem? program.callables j from found),
        owners-set (set program.callables j (some (moved_from from))) i (some to) (some from) b
            (callable_at-get_elem? (set program.callables j (some (moved_from from))) i to found'),
        uses-release program.stores stores to.store b
            (λ a. omega (
              arith,
              h a,
              owners-set program.callables j (some from) (some (moved_from from)) a
                  (callable_at-get_elem? program.callables j from found),
              owners-get_elem? (set program.callables j (some (moved_from from))) i (some to) a (
                  callable_at-get_elem? (set program.callables j (some (moved_from from))) i to
                    found'),
            ))
            released,
      )

  swap_callables-IsCounted :
      (i j : ℕ) (program : Program V) (a b : Callable)
      → IsCounted program
      → callable_at program.callables i ≡ some a
      → callable_at program.callables j ≡ some b
      → IsCounted (record program { callables = set (set program.callables i (some b)) j (some a) })
  swap_callables-IsCounted i j program a b h found found' c =
      let at_i = callable_at-get_elem? program.callables i a found in
      let at_j = callable_at-get_elem? program.callables j b found' in
      omega (
        arith,
        h c,
        owners-set program.callables i (some a) (some b) c at_i,
        owners-set (set program.callables i (some b)) j (some b) (some a) c
            (get_elem?-set_other program.callables i j (some a) (some b) at_i at_j),
      )

module _ {ℓ} {V : Type ℓ} (sizeof : FunctorType → ℕ) where
  pub operate-IsCounted :
      (operation : Operation V) (program program' : Program V)
      → IsCounted program
      → operate sizeof operation program ≡ some program'
      → IsCounted program'
  unfolding operate construct_functor object_callable function_callable method_callable moved_from
      new_store holding_functor
  operate-IsCounted default program program' h e =
      subst IsCounted (some-injective _ program' e)
        (add_callable-IsCounted program program.stores new_callable h (λ b. omega arith))
  operate-IsCounted (from_object o) program program' h e =
      subst IsCounted (some-injective _ program' e)
        (add_callable-IsCounted program program.stores (object_callable o) h (λ b. omega arith))
  operate-IsCounted (from_function f) program program' h e =
      subst IsCounted (some-injective _ program' e)
        (add_callable-IsCounted program program.stores (function_callable f) h (λ b. omega arith))
  operate-IsCounted (from_method o m) program program' h e =
      subst IsCounted (some-injective _ program' e)
        (add_callable-IsCounted program program.stores (method_callable o m) h (λ b. omega arith))
  operate-IsCounted (from_functor f) program program' h e =
      let ty = functor_type f in
      subst IsCounted (some-injective _ program' e) (
        add_callable-IsCounted program (construct_functor sizeof program.stores f).0
          (construct_functor sizeof program.stores f).1 h
          λ b. omega (
            arith,
            uses-place (program.stores ++ (new_store ty (sizeof ty) ∷ [])) (length program.stores) f
                b,
            uses-append program.stores (new_store ty (sizeof ty)) b refl,
          ))
  operate-IsCounted (copy_of j) program program' h e =
      let (c, found, last) = >>=-eq-some (callable_at program.callables j) _ e in
      subst IsCounted (some-injective _ program' last) (
        add_callable-IsCounted program (acquire program.stores c.store) c h
          λ b. uses-acquire program.stores c.store b (at_least program j c h found))
  operate-IsCounted (move_of j) program program' h e =
      let (c, found, last) = >>=-eq-some (callable_at program.callables j) _ e in
      subst IsCounted (some-injective _ program' last) λ b. omega (
        arith,
        h b,
        owners-set program.callables j (some c) (some (moved_from c)) b
            (callable_at-get_elem? program.callables j c found),
        owners-append (set program.callables j (some (moved_from c))) (some c) b,
      )
  operate-IsCounted (destroy i) program program' h e =
      let (c, found, e1) = >>=-eq-some (callable_at program.callables i) _ e in
      let (stores, released, last) = >>=-eq-some (release program.stores c.store) _ e1 in
      subst IsCounted (some-injective _ program' last) (
        set_callable-IsCounted program stores i c none h found λ b. omega (
          arith,
          uses-release program.stores stores c.store b (at_least program i c h found) released,
        ))
  operate-IsCounted (copy_assign i j) program program' h e =
      let (from, found, e1) = >>=-eq-some (callable_at program.callables j) _ e in
      let (to, found', e2) = >>=-eq-some (callable_at program.callables i) _ e1 in
      let (stores, released, last) =
        >>=-eq-some (release (acquire program.stores from.store) to.store) _ e2 in
      let more : (b : ℕ)
          → uses (acquire program.stores from.store) b
            ≡ uses program.stores b + owns_store from.store b =
        λ b. uses-acquire program.stores from.store b (at_least program j from h found) in
      subst IsCounted (some-injective _ program' last) (
        set_callable-IsCounted program stores i to (some from) h found' λ b. omega (
          arith,
          more b,
          uses-release (acquire program.stores from.store) stores to.store b
              (λ a. omega (arith, more a, at_least program i to h found' a)) released,
        ))
  operate-IsCounted (move_assign i j) program program' h e =
      move_callable-IsCounted i j program program' h e
  operate-IsCounted (assign i f) program program' h e =
      let (c, found, e1) = >>=-eq-some (callable_at program.callables i) _ e in
      let (r, assigned, last) = >>=-eq-some (assign_functor sizeof program.stores c f) _ e1 in
      subst IsCounted (some-injective _ program' last) (
        set_callable-IsCounted program r.0 i c (some r.1) h found
          (assign_functor-uses sizeof program.stores c f r (at_least program i c h found) assigned))
  operate-IsCounted (reset i) program program' h e =
      let (c, found, e1) = >>=-eq-some (callable_at program.callables i) _ e in
      let (stores, released, last) = >>=-eq-some (release program.stores c.store) _ e1 in
      subst IsCounted (some-injective _ program' last) (
        set_callable-IsCounted program stores i c
          (some (record c { stub_ptr = none; store = none })) h found
          λ b. omega (
            arith,
            uses-release program.stores stores c.store b (at_least program i c h found) released,
          ))
  operate-IsCounted (reset_stub i) program program' h e =
      let (c, found, last) = >>=-eq-some (callable_at program.callables i) _ e in
      subst IsCounted (some-injective _ program' last) (
        set_callable-IsCounted program program.stores i c (some (record c { stub_ptr = none })) h
          found λ b. refl)
  operate-IsCounted (swap i j) program program' h e =
      let (a, found, e1) = >>=-eq-some (callable_at program.callables i) _ e in
      let (b, found', last) = >>=-eq-some (callable_at program.callables j) _ e1 in
      subst IsCounted (some-injective _ program' last)
        (swap_callables-IsCounted i j program a b h found found')
