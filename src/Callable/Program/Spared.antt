-- ===== src/Callable/Program/Spared.antt =====
-- An operation of callable.hpp leaves the functors of other callables alone.
use cplease.Base.{
  ℕ, zero, suc, ◌+◌, ◌≤◌, ◌<◌, ◌≡◌, ◌≢◌, refl, sym, ap, ◌∙◌, subst, Bool, true, false,
  if◌then◌else◌, ◌||◌, ltb, List, [], ◌∷◌, ◌++◌, length, set, get_elem?, Option, none, some,
  >>=-eq-some, inl, inr, arith,
}
use mathlib.Core.Option.{none-ne-some, some-injective}
use cplease.Future.Once.{get_elem?-set_ne}
use cplease.Callable.{
  FunctorType, functor_type, Functor, Store, Callable, update_store, destroy_as, acquire,
  drop_owner, release, new_store, uses, count_of, place, construct_functor, assign_in_new_store,
  assign_in_place, assign_functor,
}
use cplease.Callable.Program.{
  Program, callable_at, moved_from, move_callable, Operation, default, from_object, from_function,
  from_method, from_functor, copy_of, move_of, destroy, copy_assign, move_assign, assign, reset,
  reset_stub, swap, operate, operate_all, no_callables,
}
use cplease.Callable.Program.Owners.{
  equal, equal_self, owns_store, owns, owners, owners-set, owners-get_elem?, callable_at-get_elem?,
  uses-append, uses-acquire, uses-get_elem?, drop_owner-eq,
}
use cplease.Callable.Program.Counted.{IsCounted, at_least}
use cplease.Callable.Program.Content.{FullAs, AllFull, content_at, content_at-FullAs}
use cplease.Callable.Program.Owned.{operate_all-Owned}

-- Two callables that own the same store.
owners-pair :
    (cs : List (Option Callable)) (i k : ℕ) (c c' : Option Callable) (b : ℕ)
    → get_elem? cs i ≡ some c
    → get_elem? cs k ≡ some c'
    → k ≢ i
    → owns c b + owns c' b ≤ owners cs b
owners-pair cs i k c c' b at_i at_k other = omega (
  arith,
  owners-set cs i c none b at_i,
  owners-get_elem? (set cs i none) k c' b (get_elem?-set_ne cs k i none other ∙ at_k),
)

module _ {ℓ} {V : Type ℓ} where
  content_at-append :
      (stores more : List (Store V)) (b : ℕ) (g : Functor V)
      → content_at stores b ≡ some g
      → content_at (stores ++ more) b ≡ some g
  content_at-append [] more b g h = absurd (none-ne-some g h)
  content_at-append (s ∷ stores) more zero g h = h
  content_at-append (s ∷ stores) more (suc b) g h = content_at-append stores more b g h

  content_at-lt :
      (stores : List (Store V)) (b : ℕ) (g : Functor V)
      → content_at stores b ≡ some g
      → b < length stores
  content_at-lt [] b g h = absurd (none-ne-some g h)
  content_at-lt (s ∷ stores) zero g h = omega arith
  content_at-lt (s ∷ stores) (suc b) g h = omega (arith, content_at-lt stores b g h)

  content_at-update_store :
      (stores : List (Store V)) (a b : ℕ) (f : Store V → Store V)
      → (a ≡ b → (s : Store V) → (f s).content ≡ s.content)
      → content_at (update_store stores a f) b ≡ content_at stores b
  unfolding update_store
  content_at-update_store [] a b f h = refl
  content_at-update_store (s ∷ stores) zero zero f h = h refl s
  content_at-update_store (s ∷ stores) zero (suc b) f h = refl
  content_at-update_store (s ∷ stores) (suc a) zero f h = refl
  content_at-update_store (s ∷ stores) (suc a) (suc b) f h =
      content_at-update_store stores a b f λ e. h (ap suc e)

  content_at-set :
      (stores : List (Store V)) (a b : ℕ) (s s' : Store V)
      → get_elem? stores a ≡ some s
      → (a ≡ b → s'.content ≡ s.content)
      → content_at (set stores a s') b ≡ content_at stores b
  content_at-set [] a b s s' found h = refl
  content_at-set (x ∷ stores) zero zero s s' found h =
      h refl ∙ ap (λ (y : Store V). y.content) (sym (some-injective x s found))
  content_at-set (x ∷ stores) zero (suc b) s s' found h = refl
  content_at-set (x ∷ stores) (suc a) zero s s' found h = refl
  content_at-set (x ∷ stores) (suc a) (suc b) s s' found h =
      content_at-set stores a b s s' found λ e. h (ap suc e)

  acquire-content_at :
      (stores : List (Store V)) (o : Option ℕ) (b : ℕ)
      → content_at (acquire stores o) b ≡ content_at stores b
  unfolding acquire
  acquire-content_at stores none b = refl
  acquire-content_at stores (some a) b = content_at-update_store stores a b _ λ e s. refl

  -- A release that is not the last one.
  release-content_at :
      (stores stores' : List (Store V)) (o : Option ℕ) (b : ℕ)
      → owns_store o b + 1 ≤ uses stores b
      → release stores o ≡ some stores'
      → content_at stores' b ≡ content_at stores b
  unfolding release
  release-content_at stores stores' none b many e =
      ap (λ ss. content_at ss b) (sym (some-injective stores stores' e))
  release-content_at stores stores' (some a) b many e =
      let (s, found, after) = >>=-eq-some (get_elem? stores a) _ e in
      let (s', dropped, last) = >>=-eq-some (drop_owner s) _ after in
      ap (λ ss. content_at ss b) (sym (some-injective (set stores a s') stores' last))
      ∙ content_at-set stores a b s s' found λ same. elim (drop_owner-eq s s' dropped) [
        | inl (one, _) ↦
            let owned : equal a b ≡ 1 = subst (λ x. equal a x ≡ 1) same (equal_self a) in
            let count : uses stores b ≡ s.use_count =
              subst (λ x. uses stores x ≡ s.use_count) same (uses-get_elem? stores a s found) in
            absurd (omega (arith, many, owned, count, one))
        | inr (_, kept) ↦ ap (λ (y : Store V). y.content) kept
      ]

  -- The functor in the store b, once there is one, stays there.
  abbrev Stays : ℕ → Functor V → List (Store V) → List (Store V) → Type ℓ
  Stays b g stores stores' = content_at stores b ≡ some g → content_at stores' b ≡ some g

  -- The operation is not applied to the callable k.
  abbrev pub Spares : Operation V → ℕ → Type 0
  Spares (destroy i) k = k ≢ i
  Spares (copy_assign i j) k = k ≢ i
  Spares (move_assign i j) k = (k ≢ i) × (k ≢ j)
  Spares (assign i f) k = k ≢ i
  Spares (reset i) k = k ≢ i
  Spares _ k = Unit

module _ {ℓ} {V : Type ℓ} (sizeof : FunctorType → ℕ) (b : ℕ) (g : Functor V) where
  place_last-Stays :
      (stores stores' : List (Store V)) (f : Functor V)
      → content_at stores b ≡ some g
      → content_at stores' b ≡ some g
      → content_at (place stores' (length stores) f) b ≡ some g
  unfolding place
  place_last-Stays stores stores' f here there =
      content_at-update_store stores' (length stores) b _
        (λ same. absurd (omega (arith, same, content_at-lt stores b g here)))
      ∙ there

  -- An assignment to a callable, when another one owns the store.
  assign_functor-Stays :
      (stores : List (Store V)) (c : Callable) (f : Functor V) (r : List (Store V) × Callable)
      → owns_store c.store b + 1 ≤ uses stores b
      → assign_functor sizeof stores c f ≡ some r
      → Stays b g stores r.0
  unfolding assign_functor assign_in_new_store assign_in_place new_store count_of place update_store
  assign_functor-Stays stores c f r shared e here =
      let (n, _, e1) = >>=-eq-some c.store_size _ e in
      at_test n (ltb n (sizeof (functor_type f))) (ltb 1 (count_of stores c.store)) refl e1
    where
      in_new_store : assign_in_new_store sizeof stores c f ≡ some r → content_at r.0 b ≡ some g
      in_new_store e =
          let ty = functor_type f in
          let (stores', released, last) =
            >>=-eq-some (release (stores ++ (new_store ty (sizeof ty) ∷ [])) c.store) _ e in
          subst (λ (q : List (Store V) × Callable). content_at q.0 b ≡ some g)
            (some-injective _ r last)
            (place_last-Stays stores stores' f here (
              release-content_at (stores ++ (new_store ty (sizeof ty) ∷ [])) stores' c.store b
                (omega (arith, shared, uses-append stores (new_store ty (sizeof ty)) b refl))
                released
              ∙ content_at-append stores (new_store ty (sizeof ty) ∷ []) b g here))

      at_test :
          (n : ℕ) (large many : Bool)
          → ltb 1 (count_of stores c.store) ≡ many
          → (if large || many
              then assign_in_new_store sizeof stores c f
              else assign_in_place stores c n f)
            ≡ some r
          → content_at r.0 b ≡ some g
      at_test n true many sole e = in_new_store e
      at_test n false true sole e = in_new_store e
      at_test n false false sole e =
          let (deleter, _, e1) = >>=-eq-some c.deleter _ e in
          let (a, own, e2) = >>=-eq-some c.store _ e1 in
          let (s, found, e3) = >>=-eq-some (get_elem? stores a) _ e2 in
          let (s', destroyed, last) = >>=-eq-some (destroy_as deleter s) _ e3 in
          let other : a ≡ b → ⊥ = λ same.
            let owned : owns_store c.store b ≡ 1 =
              ap (λ o. owns_store o b) own ∙ subst (λ x. equal a x ≡ 1) same (equal_self a) in
            let count : count_of stores c.store ≡ uses stores b =
              ap (count_of stores) own ∙ ap (uses stores) same in
            ground (arith, shared, owned, count, sole) in
          subst (λ (q : List (Store V) × Callable). content_at q.0 b ≡ some g)
            (some-injective _ r last)
            (content_at-update_store (set stores a s') a b _ (λ same. absurd (other same))
              ∙ (content_at-set stores a b s s' found (λ same. absurd (other same)) ∙ here))

  module _ (program : Program V) (k : ℕ) (c : Callable) (h : IsCounted program)
      (at_k : callable_at program.callables k ≡ some c) (own : c.store ≡ some b) where
    owned : owns_store c.store b ≡ 1
    owned = ap (λ o. owns_store o b) own ∙ equal_self b

    -- Another callable does not own the store alone.
    shared :
        (i : ℕ) (to : Callable)
        → callable_at program.callables i ≡ some to
        → k ≢ i
        → owns_store to.store b + 1 ≤ uses program.stores b
    shared i to at_i other = omega (
      arith,
      h b,
      owned,
      owners-pair program.callables i k (some to) (some c) b
          (callable_at-get_elem? program.callables i to at_i)
          (callable_at-get_elem? program.callables k c at_k) other,
    )

    released :
        (i : ℕ) (to : Callable) (stores : List (Store V))
        → callable_at program.callables i ≡ some to
        → k ≢ i
        → release program.stores to.store ≡ some stores
        → Stays b g program.stores stores
    released i to stores at_i other e here =
        release-content_at program.stores stores to.store b (shared i to at_i other) e ∙ here

    move_callable-Stays :
        (i j : ℕ) (program' : Program V)
        → k ≢ i
        → k ≢ j
        → move_callable i j program ≡ some program'
        → Stays b g program.stores program'.stores
    unfolding move_callable moved_from
    move_callable-Stays i j program' other_i other_j e here =
        let (from, at_j, e1) = >>=-eq-some (callable_at program.callables j) _ e in
        let cs = set program.callables j (some (moved_from from)) in
        let (to, at_i, e2) = >>=-eq-some (callable_at cs i) _ e1 in
        let (stores, freed, last) = >>=-eq-some (release program.stores to.store) _ e2 in
        subst (λ (q : Program V). content_at q.stores b ≡ some g) (some-injective _ program' last)
          (release-content_at program.stores stores to.store b
              (omega (
                arith,
                h b,
                owned,
                owners-set program.callables j (some from) (some (moved_from from)) b
                    (callable_at-get_elem? program.callables j from at_j),
                owners-pair cs i k (some to) (some c) b (callable_at-get_elem? cs i to at_i)
                    (get_elem?-set_ne program.callables k j (some (moved_from from)) other_j
                      ∙ callable_at-get_elem? program.callables k c at_k)
                    other_i,
              ))
              freed
            ∙ here)

    operate-Stays :
        (operation : Operation V) (program' : Program V)
        → Spares operation k
        → operate sizeof operation program ≡ some program'
        → Stays b g program.stores program'.stores
    unfolding operate construct_functor new_store
    operate-Stays default program' spares e here =
        subst (λ (q : Program V). content_at q.stores b ≡ some g) (some-injective _ program' e) here
    operate-Stays (from_object o) program' spares e here =
        subst (λ (q : Program V). content_at q.stores b ≡ some g) (some-injective _ program' e) here
    operate-Stays (from_function f) program' spares e here =
        subst (λ (q : Program V). content_at q.stores b ≡ some g) (some-injective _ program' e) here
    operate-Stays (from_method o m) program' spares e here =
        subst (λ (q : Program V). content_at q.stores b ≡ some g) (some-injective _ program' e) here
    operate-Stays (from_functor f) program' spares e here =
        let ty = functor_type f in
        subst (λ (q : Program V). content_at q.stores b ≡ some g) (some-injective _ program' e)
          (place_last-Stays program.stores (program.stores ++ (new_store ty (sizeof ty) ∷ [])) f
            here (content_at-append program.stores (new_store ty (sizeof ty) ∷ []) b g here))
    operate-Stays (copy_of j) program' spares e here =
        let (from, found, last) = >>=-eq-some (callable_at program.callables j) _ e in
        subst (λ (q : Program V). content_at q.stores b ≡ some g) (some-injective _ program' last)
          (acquire-content_at program.stores from.store b ∙ here)
    operate-Stays (move_of j) program' spares e here =
        let (from, found, last) = >>=-eq-some (callable_at program.callables j) _ e in
        subst (λ (q : Program V). content_at q.stores b ≡ some g) (some-injective _ program' last)
          here
    operate-Stays (destroy i) program' spares e here =
        let (to, found, e1) = >>=-eq-some (callable_at program.callables i) _ e in
        let (stores, freed, last) = >>=-eq-some (release program.stores to.store) _ e1 in
        subst (λ (q : Program V). content_at q.stores b ≡ some g) (some-injective _ program' last)
          (released i to stores found spares freed here)
    operate-Stays (copy_assign i j) program' spares e here =
        let (from, found, e1) = >>=-eq-some (callable_at program.callables j) _ e in
        let (to, at_i, e2) = >>=-eq-some (callable_at program.callables i) _ e1 in
        let (stores, freed, last) =
          >>=-eq-some (release (acquire program.stores from.store) to.store) _ e2 in
        subst (λ (q : Program V). content_at q.stores b ≡ some g) (some-injective _ program' last)
          (release-content_at (acquire program.stores from.store) stores to.store b
              (omega (
                arith,
                shared i to at_i spares,
                uses-acquire program.stores from.store b (at_least program j from h found),
              ))
              freed
            ∙ (acquire-content_at program.stores from.store b ∙ here))
    operate-Stays (move_assign i j) program' spares e here =
        move_callable-Stays i j program' spares.0 spares.1 e here
    operate-Stays (assign i f) program' spares e here =
        let (to, found, e1) = >>=-eq-some (callable_at program.callables i) _ e in
        let (r, assigned, last) = >>=-eq-some (assign_functor sizeof program.stores to f) _ e1 in
        subst (λ (q : Program V). content_at q.stores b ≡ some g) (some-injective _ program' last)
          (assign_functor-Stays program.stores to f r (shared i to found spares) assigned here)
    operate-Stays (reset i) program' spares e here =
        let (to, found, e1) = >>=-eq-some (callable_at program.callables i) _ e in
        let (stores, freed, last) = >>=-eq-some (release program.stores to.store) _ e1 in
        subst (λ (q : Program V). content_at q.stores b ≡ some g) (some-injective _ program' last)
          (released i to stores found spares freed here)
    operate-Stays (reset_stub i) program' spares e here =
        let (to, found, last) = >>=-eq-some (callable_at program.callables i) _ e in
        subst (λ (q : Program V). content_at q.stores b ≡ some g) (some-injective _ program' last)
          here
    operate-Stays (swap i j) program' spares e here =
        let (x, found, e1) = >>=-eq-some (callable_at program.callables i) _ e in
        let (y, found', last) = >>=-eq-some (callable_at program.callables j) _ e1 in
        subst (λ (q : Program V). content_at q.stores b ≡ some g) (some-injective _ program' last)
          here

module _ {ℓ} {V : Type ℓ} (sizeof : FunctorType → ℕ) where
  -- After any operations on callables without undefined behaviour, a callable k owns a store. A further
  -- operation that is not applied to k, and is defined, leaves the functor in that store as it is: it
  -- neither destroys it nor puts another one in its place, whatever other callables share it.
  pub operate-content_at :
      (operations : List (Operation V)) (operation : Operation V) (program program' : Program V)
      (k : ℕ) (c : Callable) (b : ℕ)
      → operate_all sizeof operations no_callables ≡ some program
      → callable_at program.callables k ≡ some c
      → c.store ≡ some b
      → Spares operation k
      → operate sizeof operation program ≡ some program'
      → content_at program'.stores b ≡ content_at program.stores b
  unfolding uses
  operate-content_at operations operation program program' k c b comes at_k own spares e =
      at_content (content_at program.stores b) refl (content_at-FullAs program.stores b so_far.1)
    where
      so_far : IsCounted program × AllFull program.stores
      so_far = operate_all-Owned sizeof operations no_callables program (λ b. refl) tt comes

      at_content :
          (o : Option (Functor V))
          → content_at program.stores b ≡ o
          → FullAs o (uses program.stores b)
          → content_at program'.stores b ≡ content_at program.stores b
      at_content none here full = absurd (
          omega (
            arith,
            full,
            at_least program k c so_far.0 at_k b,
            ap (λ o. owns_store o b) own,
            equal_self b,
          ))
      at_content (some g) here full =
          operate-Stays sizeof b g program k c so_far.0 at_k own operation program' spares e here
          ∙ sym here
