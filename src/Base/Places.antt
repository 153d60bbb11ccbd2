-- ===== src/Base/Places.antt =====
-- What stands at the places of a list that was written, or made of others.
use Prim.Native.Nat.{ℕ, zero, suc, ◌+◌, ◌<◌}
use mathlib.Core.Path.{◌≡◌, refl, sym, ap, ap₂}
use mathlib.Core.Logic.{◌≢◌, ◌⊎◌, inl, inr}
use mathlib.Core.List.{List, [], ◌∷◌, ◌++◌}
use mathlib.Core.Option.{some, none-ne-some, some-injective}
use native.Mathlib.Omega.{arith}
use cplease.Base.Lists.{length, get_elem?, set, replicate}

module _ {ℓ} {A : Type ℓ} where
  -- What stands in a list after a write.
  pub get_elem?-set_cases :
      (xs : List A) (p q : ℕ) (t u : A)
      → get_elem? (set xs p t) q ≡ some u
      → ((q ≡ p) × (u ≡ t)) ⊎ ((q ≢ p) × (get_elem? xs q ≡ some u))
  get_elem?-set_cases [] p q t u h = absurd (none-ne-some u h)
  get_elem?-set_cases (x ∷ xs) zero zero t u h = inl (refl, sym (some-injective t u h))
  get_elem?-set_cases (x ∷ xs) zero (suc q) t u h = inr ((λ e. omega (arith, e)), h)
  get_elem?-set_cases (x ∷ xs) (suc p) zero t u h = inr ((λ e. omega (arith, e)), h)
  get_elem?-set_cases (x ∷ xs) (suc p) (suc q) t u h = elim (get_elem?-set_cases xs p q t u h) [
    | inl e ↦ inl (ap suc e.0, e.1)
    | inr e ↦ inr ((λ same. e.0 (omega (arith, same))), e.1)
  ]

  -- What stands in two lists, one behind the other.
  pub get_elem?-append_cases :
      (xs ys : List A) (q : ℕ) (u : A)
      → get_elem? (xs ++ ys) q ≡ some u
      → ((q < length xs) × (get_elem? xs q ≡ some u))
        ⊎ ((i : ℕ) × ((q ≡ length xs + i) × (get_elem? ys i ≡ some u)))
  get_elem?-append_cases [] ys q u h = inr (q, (omega arith, h))
  get_elem?-append_cases (x ∷ xs) ys zero u h = inl (omega arith, h)
  get_elem?-append_cases (x ∷ xs) ys (suc q) u h = elim (get_elem?-append_cases xs ys q u h) [
    | inl e ↦ inl (omega (arith, e.0), e.1)
    | inr e ↦ inr (e.0, (omega (arith, e.1.0), e.1.1))
  ]

  pub get_elem?-append_here :
      (xs ys : List A) (y : A) → get_elem? (xs ++ (y ∷ ys)) (length xs) ≡ some y
  get_elem?-append_here [] ys y = refl
  get_elem?-append_here (x ∷ xs) ys y = get_elem?-append_here xs ys y

  pub set-append_here :
      (xs ys : List A) (y z : A) → set (xs ++ (y ∷ ys)) (length xs) z ≡ xs ++ (z ∷ ys)
  set-append_here [] ys y z = refl
  set-append_here (x ∷ xs) ys y z = ap (λ zs. x ∷ zs) (set-append_here xs ys y z)

  -- Lists of one length with the same elements.
  pub same_elements :
      (xs ys : List A)
      → length xs ≡ length ys
      → ((i : ℕ) → i < length ys → get_elem? xs i ≡ get_elem? ys i)
      → xs ≡ ys
  same_elements [] [] size same = refl
  same_elements [] (y ∷ ys) size same = absurd (omega arith)
  same_elements (x ∷ xs) [] size same = absurd (omega arith)
  same_elements (x ∷ xs) (y ∷ ys) size same =
      ap₂ (λ z zs. z ∷ zs) (some-injective x y (same 0 (omega arith)))
        (same_elements xs ys (omega arith) λ i h. same (suc i) (omega arith))

  pub get_elem?-replicate : (n i : ℕ) (a : A) → i < n → get_elem? (replicate n a) i ≡ some a
  get_elem?-replicate zero i a h = absurd (omega arith)
  get_elem?-replicate (suc n) zero a h = refl
  get_elem?-replicate (suc n) (suc i) a h = get_elem?-replicate n i a (omega arith)

  pub get_elem?-lt : (xs : List A) (i : ℕ) (a : A) → get_elem? xs i ≡ some a → i < length xs
  get_elem?-lt [] i a h = absurd (none-ne-some a h)
  get_elem?-lt (x ∷ xs) zero a h = omega arith
  get_elem?-lt (x ∷ xs) (suc i) a h = omega (arith, get_elem?-lt xs i a h)

  pub get_elem?-some : (xs : List A) (i : ℕ) → i < length xs → (a : A) × (get_elem? xs i ≡ some a)
  get_elem?-some [] i h = absurd (omega arith)
  get_elem?-some (x ∷ xs) zero h = (x, refl)
  get_elem?-some (x ∷ xs) (suc i) h = get_elem?-some xs i (omega arith)
