-- ===== src/Memory.antt =====
-- Arrays in memory: what `data()` points to, memcpy between arrays, and functions that are handed a
-- part of an array. An access outside an array is undefined behaviour, and faults here.
pub mod Laws
use cplease.Base.{
  ℕ, zero, suc, ◌+◌, Bool, leb, List, [], ◌∷◌, length, take, drop, Option, some, ◌>>=◌, when,
}

module _ {ℓ} {A : Type ℓ} where
  -- The n elements from `mem + off`.
  pub load_region : List A → ℕ → ℕ → Option (List A)
  load_region mem off n = when (leb (off + n) (length mem)) (take n (drop off mem))

  -- What memcpy does to the destination, if the values fit.
  pub overwrite : List A → List A → List A
  overwrite mem [] = mem
  overwrite [] (v ∷ vs) = []
  overwrite (x ∷ mem) (v ∷ vs) = v ∷ overwrite mem vs

  pub overwrite_at : List A → ℕ → List A → List A
  unfolding overwrite
  overwrite_at mem zero vs = overwrite mem vs
  overwrite_at [] (suc off) vs = []
  overwrite_at (x ∷ mem) (suc off) vs = x ∷ overwrite_at mem off vs

  -- `memcpy(mem + off, values, …)`
  pub store_region : List A → ℕ → List A → Option (List A)
  store_region mem off vs = when (leb (off + length vs) (length mem)) (overwrite_at mem off vs)

-- A function `func(data, size)`: from what it has captured and the `size` elements at `data`, it
-- leaves new captured values and elements, and returns a number of elements.
abbrev pub Func {ℓ κ} : Type κ → Type ℓ → Type (ℓ ⊔ κ)
Func S A = S → List A → Option (S × List A × ℕ)

-- `func(mem + off, size)`
pub call_at {ℓ κ} :
    {A : Type ℓ} {S : Type κ} → Func S A → S → List A → ℕ → ℕ → Option (S × List A × ℕ)
call_at f s mem off size = do
  region ← load_region mem off size
  (s', region', count) ← f s region
  mem' ← store_region mem off region'
  some (s', mem', count)
