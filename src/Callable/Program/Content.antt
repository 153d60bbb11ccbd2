-- ===== src/Callable/Program/Content.antt =====
-- When the functors in the stores of callable.hpp are destroyed.
use cplease.Base.{
  ℕ, zero, suc, ◌+◌, ◌-◌, ◌≤◌, ◌≡◌, refl, sym, subst, List, [], ◌∷◌, ◌++◌, length, set, get_elem?,
  Option, none, some, >>=-eq-some, ◌≢◌, inl, inr, arith,
}
use mathlib.Core.Option.{none-ne-some, some-injective}
use cplease.Callable.{
  FunctorType, Functor, Store, update_store, destroy_as, acquire, drop_owner, release, uses, place,
}
use cplease.Callable.Program.Owners.{
  owns_store, equal_self, destroy_as-eq, destroy_as-use_count, drop_owner-eq,
}

module _ {ℓ} {V : Type ℓ} where
  -- A store with owners holds a functor, and one without holds none.
  abbrev pub FullAs : Option (Functor V) → ℕ → Type 0
  FullAs none n = n ≡ 0
  FullAs (some f) n = 1 ≤ n

  abbrev pub Full : Store V → Type 0
  Full s = FullAs s.content s.use_count

  abbrev pub AllFull : List (Store V) → Type 0
  AllFull [] = Unit
  AllFull (s ∷ stores) = Full s × AllFull stores

  AllFull-get_elem? :
      (stores : List (Store V)) (a : ℕ) (s : Store V)
      → AllFull stores
      → get_elem? stores a ≡ some s
      → Full s
  AllFull-get_elem? [] a s h e = absurd (none-ne-some s e)
  AllFull-get_elem? (x ∷ stores) zero s h e = subst Full (some-injective x s e) h.0
  AllFull-get_elem? (x ∷ stores) (suc a) s h e = AllFull-get_elem? stores a s h.1 e

  AllFull-set :
      (stores : List (Store V)) (a : ℕ) (s : Store V)
      → Full s
      → AllFull stores
      → AllFull (set stores a s)
  AllFull-set [] a s f h = tt
  AllFull-set (x ∷ stores) zero s f h = (f, h.1)
  AllFull-set (x ∷ stores) (suc a) s f h = (h.0, AllFull-set stores a s f h.1)

  Full-owned : (s : Store V) (n : ℕ) → 1 ≤ s.use_count → 1 ≤ n → Full s → FullAs s.content n
  Full-owned s n owned many h = at_content s.content h
    where
      at_content : (o : Option (Functor V)) → FullAs o s.use_count → FullAs o n
      at_content none h = omega arith
      at_content (some f) h = many

  increment-AllFull :
      (stores : List (Store V)) (a : ℕ)
      → 1 ≤ uses stores a
      → AllFull stores
      → AllFull (acquire stores (some a))
  unfolding acquire update_store uses
  increment-AllFull [] a h full = tt
  increment-AllFull (s ∷ ss) zero h full =
      (Full-owned s (s.use_count + 1) h (omega arith) full.0, full.1)
  increment-AllFull (s ∷ ss) (suc a) h full = (full.0, increment-AllFull ss a h full.1)

  pub acquire-AllFull :
      (stores : List (Store V)) (o : Option ℕ)
      → ((a : ℕ) → owns_store o a ≤ uses stores a)
      → AllFull stores
      → AllFull (acquire stores o)
  unfolding acquire
  acquire-AllFull stores none h full = full
  acquire-AllFull stores (some a) h full =
      increment-AllFull stores a (omega (arith, h a, equal_self a)) full

  drop_owner-Full : (s s' : Store V) → drop_owner s ≡ some s' → Full s → Full s'
  drop_owner-Full s s' e full = elim (drop_owner-eq s s' e) [
    | inl (one, e') ↦ subst Full (sym e') refl
    | inr (many, e') ↦ subst Full (sym e') (fewer s.content many full)
  ]
    where
      fewer :
          (o : Option (Functor V))
          → s.use_count ≢ 1
          → FullAs o s.use_count
          → FullAs o (s.use_count - 1)
      fewer none many h = omega arith
      fewer (some f) many h = omega arith

  pub release-AllFull :
      (stores stores' : List (Store V)) (o : Option ℕ)
      → release stores o ≡ some stores'
      → AllFull stores
      → AllFull stores'
  unfolding release
  release-AllFull stores stores' none e full = subst AllFull (some-injective stores stores' e) full
  release-AllFull stores stores' (some a) e full =
      let (s, found, after) = >>=-eq-some (get_elem? stores a) _ e in
      let (s', dropped, last) = >>=-eq-some (drop_owner s) _ after in
      subst AllFull (some-injective (set stores a s') stores' last) (
        AllFull-set stores a s'
          (drop_owner-Full s s' dropped (AllFull-get_elem? stores a s full found)) full)

  -- A functor in a new store.
  pub place_last-AllFull :
      (stores : List (Store V)) (x : Store V) (f : Functor V)
      → x.use_count ≡ 1
      → AllFull stores
      → AllFull (place (stores ++ (x ∷ [])) (length stores) f)
  unfolding place update_store
  place_last-AllFull [] x f one full = (omega arith, tt)
  place_last-AllFull (s ∷ stores) x f one full = (full.0, place_last-AllFull stores x f one full.1)

  -- And when another store lost an owner before.
  set-place_last-AllFull :
      (stores : List (Store V)) (x s s' : Store V) (f : Functor V) (a : ℕ)
      → x.use_count ≡ 1
      → 1 ≤ uses stores a
      → get_elem? (stores ++ (x ∷ [])) a ≡ some s
      → drop_owner s ≡ some s'
      → AllFull stores
      → AllFull (place (set (stores ++ (x ∷ [])) a s') (length stores) f)
  unfolding place update_store uses
  set-place_last-AllFull [] x s s' f a one owned found e full = absurd (omega (arith, owned))
  set-place_last-AllFull (t ∷ stores) x s s' f zero one owned found e full = (
    drop_owner-Full s s' e (subst Full (some-injective t s found) full.0),
    place_last-AllFull stores x f one full.1,
  )
  set-place_last-AllFull (t ∷ stores) x s s' f (suc a) one owned found e full =
      (full.0, set-place_last-AllFull stores x s s' f a one owned found e full.1)

  pub release-place-AllFull :
      (stores stores' : List (Store V)) (x : Store V) (o : Option ℕ) (f : Functor V)
      → x.use_count ≡ 1
      → ((a : ℕ) → owns_store o a ≤ uses stores a)
      → release (stores ++ (x ∷ [])) o ≡ some stores'
      → AllFull stores
      → AllFull (place stores' (length stores) f)
  unfolding release
  release-place-AllFull stores stores' x none f one owned e full =
      subst (λ ss. AllFull (place ss (length stores) f))
        (some-injective (stores ++ (x ∷ [])) stores' e) (place_last-AllFull stores x f one full)
  release-place-AllFull stores stores' x (some a) f one owned e full =
      let (s, found, after) = >>=-eq-some (get_elem? (stores ++ (x ∷ [])) a) _ e in
      let (s', dropped, last) = >>=-eq-some (drop_owner s) _ after in
      subst (λ ss. AllFull (place ss (length stores) f))
        (some-injective (set (stores ++ (x ∷ [])) a s') stores' last)
        (set-place_last-AllFull stores x s s' f a one (omega (arith, owned a, equal_self a)) found
          dropped full)

  -- A functor in place of one that was destroyed.
  pub replace-AllFull :
      (stores : List (Store V)) (s s' : Store V) (b : ℕ) (ty : FunctorType) (f : Functor V)
      → get_elem? stores b ≡ some s
      → destroy_as ty s ≡ some s'
      → AllFull stores
      → AllFull (place (set stores b s') b f)
  unfolding place update_store
  replace-AllFull [] s s' b ty f found e full = tt
  replace-AllFull (t ∷ stores) s s' zero ty f found e full =
      let (_, (g, there)) = destroy_as-eq ty s s' e in
      let owned : 1 ≤ s.use_count =
        subst (λ o. FullAs o s.use_count) there (subst Full (some-injective t s found) full.0) in
      (omega (arith, owned, destroy_as-use_count ty s s' e), full.1)
  replace-AllFull (t ∷ stores) s s' (suc b) ty f found e full =
      (full.0, replace-AllFull stores s s' b ty f found e full.1)

  -- What a store holds, none if there is none.
  abbrev pub content_at : List (Store V) → ℕ → Option (Functor V)
  content_at [] b = none
  content_at (s ∷ stores) zero = s.content
  content_at (s ∷ stores) (suc b) = content_at stores b

  pub content_at-FullAs :
      (stores : List (Store V)) (b : ℕ)
      → AllFull stores
      → FullAs (content_at stores b) (uses stores b)
  unfolding uses
  content_at-FullAs [] b full = refl
  content_at-FullAs (s ∷ stores) zero full = full.0
  content_at-FullAs (s ∷ stores) (suc b) full = content_at-FullAs stores b full.1
