-- ===== src/Callable/Program/Owners.antt =====
-- Who owns the stores of callable.hpp.
use cplease.Base.{
  ℕ, zero, suc, ◌+◌, ◌-◌, ◌≤◌, ◌≡◌, refl, sym, ap, ◌∙◌, subst, Bool, true, false, if◌then◌else◌,
  ◌==◌, List, [], ◌∷◌, ◌++◌, length, set, get_elem?, Option, none, some, >>=-eq-some, ==_iff, ◌≢◌,
  ◌⊎◌, inl, inr, arith,
}
use mathlib.Core.Bool.{true≢false}
use mathlib.Core.Option.{none-ne-some, some-injective}
use cplease.Callable.{
  FunctorType, same_type, functor_type, Functor, Store, Callable, update_store, destroy_as, acquire,
  drop_owner, release, uses, place,
}
use cplease.Callable.Program.{callable_at}

abbrev pub equal : ℕ → ℕ → ℕ
equal zero zero = 1
equal zero (suc b) = 0
equal (suc a) zero = 0
equal (suc a) (suc b) = equal a b

pub equal_self : (a : ℕ) → equal a a ≡ 1
equal_self zero = refl
equal_self (suc a) = equal_self a

abbrev pub owns_store : Option ℕ → ℕ → ℕ
owns_store none b = 0
owns_store (some a) b = equal a b

abbrev pub owns : Option Callable → ℕ → ℕ
owns none b = 0
owns (some c) b = owns_store c.store b

-- How many of the callables own a store.
abbrev pub owners : List (Option Callable) → ℕ → ℕ
owners [] b = 0
owners (c ∷ cs) b = owns c b + owners cs b

pub owners-append :
    (cs : List (Option Callable)) (c : Option Callable) (b : ℕ)
    → owners (cs ++ (c ∷ [])) b ≡ owners cs b + owns c b
owners-append [] c b = omega arith
owners-append (x ∷ cs) c b = omega (arith, owners-append cs c b)

pub owners-set :
    (cs : List (Option Callable)) (i : ℕ) (c c' : Option Callable) (b : ℕ)
    → get_elem? cs i ≡ some c
    → owners (set cs i c') b + owns c b ≡ owners cs b + owns c' b
owners-set [] i c c' b h = absurd (none-ne-some c h)
owners-set (x ∷ cs) zero c c' b h =
    let same : owns x b ≡ owns c b = ap (λ y. owns y b) (some-injective x c h) in omega arith
owners-set (x ∷ cs) (suc i) c c' b h = omega (arith, owners-set cs i c c' b h)

pub owners-get_elem? :
    (cs : List (Option Callable)) (i : ℕ) (c : Option Callable) (b : ℕ)
    → get_elem? cs i ≡ some c
    → owns c b ≤ owners cs b
owners-get_elem? cs i c b h = omega (arith, owners-set cs i c none b h)

pub callable_at-get_elem? :
    (cs : List (Option Callable)) (i : ℕ) (c : Callable)
    → callable_at cs i ≡ some c
    → get_elem? cs i ≡ some (some c)
callable_at-get_elem? [] i c h = absurd (none-ne-some c h)
callable_at-get_elem? (x ∷ cs) zero c h = ap some h
callable_at-get_elem? (x ∷ cs) (suc i) c h = callable_at-get_elem? cs i c h

module _ {ℓ} {V : Type ℓ} where
  pub uses-append :
      (stores : List (Store V)) (s : Store V) (b : ℕ)
      → s.use_count ≡ 1
      → uses (stores ++ (s ∷ [])) b ≡ uses stores b + equal (length stores) b
  unfolding uses
  uses-append [] s zero h = h
  uses-append [] s (suc b) h = refl
  uses-append (x ∷ stores) s zero h = omega arith
  uses-append (x ∷ stores) s (suc b) h = uses-append stores s b h

  pub uses-place :
      (stores : List (Store V)) (a : ℕ) (f : Functor V) (b : ℕ)
      → uses (place stores a f) b ≡ uses stores b
  unfolding uses place update_store
  uses-place [] a f b = refl
  uses-place (s ∷ stores) zero f zero = refl
  uses-place (s ∷ stores) zero f (suc b) = refl
  uses-place (s ∷ stores) (suc a) f zero = refl
  uses-place (s ∷ stores) (suc a) f (suc b) = uses-place stores a f b

  uses-increment :
      (stores : List (Store V)) (a b : ℕ)
      → 1 ≤ uses stores a
      → uses (acquire stores (some a)) b ≡ uses stores b + equal a b
  unfolding uses acquire update_store
  uses-increment [] a b h = omega arith
  uses-increment (s ∷ stores) zero zero h = refl
  uses-increment (s ∷ stores) zero (suc b) h = omega arith
  uses-increment (s ∷ stores) (suc a) zero h = omega arith
  uses-increment (s ∷ stores) (suc a) (suc b) h = uses-increment stores a b h

  pub uses-acquire :
      (stores : List (Store V)) (o : Option ℕ) (b : ℕ)
      → ((a : ℕ) → owns_store o a ≤ uses stores a)
      → uses (acquire stores o) b ≡ uses stores b + owns_store o b
  unfolding acquire
  uses-acquire stores none b h = omega arith
  uses-acquire stores (some a) b h = uses-increment stores a b (omega (arith, h a, equal_self a))

  -- A store with one owner less, or as many.
  uses-set_less :
      (stores : List (Store V)) (a : ℕ) (s s' : Store V) (b : ℕ)
      → get_elem? stores a ≡ some s
      → s'.use_count + 1 ≡ s.use_count
      → uses (set stores a s') b + equal a b ≡ uses stores b
  unfolding uses
  uses-set_less [] a s s' b h e = absurd (none-ne-some s h)
  uses-set_less (x ∷ stores) zero s s' zero h e =
      e ∙ sym (ap (λ (y : Store V). y.use_count) (some-injective x s h))
  uses-set_less (x ∷ stores) zero s s' (suc b) h e = omega arith
  uses-set_less (x ∷ stores) (suc a) s s' zero h e = omega arith
  uses-set_less (x ∷ stores) (suc a) s s' (suc b) h e = uses-set_less stores a s s' b h e

  pub uses-set_same :
      (stores : List (Store V)) (a : ℕ) (s s' : Store V) (b : ℕ)
      → get_elem? stores a ≡ some s
      → s'.use_count ≡ s.use_count
      → uses (set stores a s') b ≡ uses stores b
  unfolding uses
  uses-set_same [] a s s' b h e = absurd (none-ne-some s h)
  uses-set_same (x ∷ stores) zero s s' zero h e =
      e ∙ sym (ap (λ (y : Store V). y.use_count) (some-injective x s h))
  uses-set_same (x ∷ stores) zero s s' (suc b) h e = refl
  uses-set_same (x ∷ stores) (suc a) s s' zero h e = refl
  uses-set_same (x ∷ stores) (suc a) s s' (suc b) h e = uses-set_same stores a s s' b h e

  pub uses-get_elem? :
      (stores : List (Store V)) (a : ℕ) (s : Store V)
      → get_elem? stores a ≡ some s
      → uses stores a ≡ s.use_count
  unfolding uses
  uses-get_elem? [] a s h = absurd (none-ne-some s h)
  uses-get_elem? (x ∷ stores) zero s h = ap (λ (y : Store V). y.use_count) (some-injective x s h)
  uses-get_elem? (x ∷ stores) (suc a) s h = uses-get_elem? stores a s h

  -- The destroyed functor was there.
  pub destroy_as-eq :
      (ty : FunctorType) (s s' : Store V)
      → destroy_as ty s ≡ some s'
      → (s' ≡ record s { content = none }) × ((f : Functor V) × (s.content ≡ some f))
  unfolding destroy_as
  destroy_as-eq ty s s' e =
      let (f, there, rest) = >>=-eq-some s.content _ e in
      (at_type (same_type (functor_type f) ty) rest, (f, there))
    where
      at_type :
          (b : Bool)
          → (if b then some (record s { content = none }) else none) ≡ some s'
          → s' ≡ record s { content = none }
      at_type true e = some-injective s' (record s { content = none }) (sym e)
      at_type false e = absurd (none-ne-some s' e)

  pub destroy_as-use_count :
      (ty : FunctorType) (s s' : Store V) → destroy_as ty s ≡ some s' → s'.use_count ≡ s.use_count
  destroy_as-use_count ty s s' e = ap (λ (y : Store V). y.use_count) (destroy_as-eq ty s s' e).0

  -- It deletes the functor with the last owner only.
  pub drop_owner-eq :
      (s s' : Store V)
      → drop_owner s ≡ some s'
      → ((s.use_count ≡ 1) × (s' ≡ record s { use_count = 0; content = none }))
        ⊎ ((s.use_count ≢ 1) × (s' ≡ record s { use_count = s.use_count - 1 }))
  unfolding drop_owner
  drop_owner-eq s s' e = at_count (s.use_count == 1) refl e
    where
      at_count :
          (b : Bool)
          → (s.use_count == 1) ≡ b
          → (if b
              then destroy_as s.functor_deleter (record s { use_count = 0 })
              else some (record s { use_count = s.use_count - 1 }))
            ≡ some s'
          → ((s.use_count ≡ 1) × (s' ≡ record s { use_count = 0; content = none }))
            ⊎ ((s.use_count ≢ 1) × (s' ≡ record s { use_count = s.use_count - 1 }))
      at_count true last e = inl (
        (==_iff s.use_count 1).0 last,
        (destroy_as-eq s.functor_deleter (record s { use_count = 0 }) s' e).0,
      )
      at_count false more e = inr (
        (λ one. true≢false (sym ((==_iff s.use_count 1).1 one) ∙ more)),
        some-injective s' (record s { use_count = s.use_count - 1 }) (sym e),
      )

  drop_owner-use_count :
      (s s' : Store V) → 1 ≤ s.use_count → drop_owner s ≡ some s' → s'.use_count + 1 ≡ s.use_count
  drop_owner-use_count s s' h e = elim (drop_owner-eq s s' e) [
    | inl (one, e') ↦
        let none_left : s'.use_count ≡ 0 = ap (λ (y : Store V). y.use_count) e' in
        omega (arith, one, none_left)
    | inr (many, e') ↦
        let less : s'.use_count ≡ s.use_count - 1 = ap (λ (y : Store V). y.use_count) e' in
        omega (arith, h, less)
  ]

  pub uses-release :
      (stores stores' : List (Store V)) (o : Option ℕ) (b : ℕ)
      → ((a : ℕ) → owns_store o a ≤ uses stores a)
      → release stores o ≡ some stores'
      → uses stores' b + owns_store o b ≡ uses stores b
  unfolding release
  uses-release stores stores' none b h e = rw (some-injective stores stores' e) (omega arith)
  uses-release stores stores' (some a) b h e =
      let (s, found, after) = >>=-eq-some (get_elem? stores a) _ e in
      let (s', dropped, last) = >>=-eq-some (drop_owner s) _ after in
      let owned : 1 ≤ s.use_count =
        omega (arith, h a, equal_self a, uses-get_elem? stores a s found) in
      subst (λ ss. uses ss b + equal a b ≡ uses stores b)
        (some-injective (set stores a s') stores' last)
        (uses-set_less stores a s s' b found (drop_owner-use_count s s' owned dropped))
