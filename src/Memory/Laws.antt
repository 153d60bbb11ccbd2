-- ===== src/Memory/Laws.antt =====
-- Laws of the memory operations: a bulk copy is a sequence of single writes and reads.
use cplease.Base.{
  ℕ, zero, suc, ◌+◌, ◌≤◌, ◌<◌, ◌≡◌, refl, sym, ap, ◌∙◌, le→leb, List, [], ◌∷◌, ◌++◌, length, take,
  drop, drop-add, length-drop, append_assoc, set, get_or, some, none, ◌>>=◌, arith,
}
use cplease.Memory.{Func, call_at, load_region, store_region, overwrite, overwrite_at}

module _ {ℓ} {A : Type ℓ} where
  pub load_region_fits :
      (mem : List A) (off n : ℕ)
      → off + n ≤ length mem
      → load_region mem off n ≡ some (take n (drop off mem))
  unfolding load_region
  load_region_fits mem off n h = rw (le→leb _ _ h)

  pub store_region_fits :
      (mem : List A) (off : ℕ) (vs : List A)
      → off + length vs ≤ length mem
      → store_region mem off vs ≡ some (overwrite_at mem off vs)
  unfolding store_region
  store_region_fits mem off vs h = rw (le→leb _ _ h)

  pub load_region_outside :
      (mem : List A) (off n : ℕ) → length mem < off + n → load_region mem off n ≡ none
  unfolding load_region
  load_region_outside mem off n h = ground arith

  pub store_region_outside :
      (mem : List A) (off : ℕ) (vs : List A)
      → length mem < off + length vs
      → store_region mem off vs ≡ none
  unfolding store_region
  store_region_outside mem off vs h = ground arith

  length-overwrite : (mem vs : List A) → length (overwrite mem vs) ≡ length mem
  unfolding overwrite
  length-overwrite mem [] = refl
  length-overwrite [] (v ∷ vs) = refl
  length-overwrite (x ∷ mem) (v ∷ vs) = ap suc (length-overwrite mem vs)

  pub length-overwrite_at :
      (mem : List A) (off : ℕ) (vs : List A) → length (overwrite_at mem off vs) ≡ length mem
  unfolding overwrite_at
  length-overwrite_at mem zero vs = length-overwrite mem vs
  length-overwrite_at [] (suc off) vs = refl
  length-overwrite_at (x ∷ mem) (suc off) vs = ap suc (length-overwrite_at mem off vs)

  pub overwrite_at-nil : (mem : List A) (off : ℕ) → overwrite_at mem off [] ≡ mem
  unfolding overwrite_at
  overwrite_at-nil mem zero = refl
  overwrite_at-nil [] (suc off) = refl
  overwrite_at-nil (x ∷ mem) (suc off) = ap (λ m. x ∷ m) (overwrite_at-nil mem off)

  -- The first value of a copy can be written alone.
  pub overwrite_at-cons :
      (mem : List A) (off : ℕ) (v : A) (vs : List A)
      → overwrite_at mem off (v ∷ vs) ≡ overwrite_at (set mem off v) (suc off) vs
  unfolding overwrite_at
  overwrite_at-cons [] zero v vs = refl
  overwrite_at-cons (x ∷ mem) zero v vs = refl
  overwrite_at-cons [] (suc off) v vs = refl
  overwrite_at-cons (x ∷ mem) (suc off) v vs = ap (λ m. x ∷ m) (overwrite_at-cons mem off v vs)

  -- The first value of a region can be read alone.
  pub take-drop_cons :
      (mem : List A) (off n : ℕ) (d : A)
      → off < length mem
      → take (suc n) (drop off mem) ≡ get_or mem off d ∷ take n (drop (suc off) mem)
  take-drop_cons [] off n d h = absurd (omega arith)
  take-drop_cons (x ∷ mem) zero n d h = refl
  take-drop_cons (x ∷ mem) (suc off) n d h = take-drop_cons mem off n d (omega arith)

  -- A region written back as it was read leaves the memory as it was.
  pub overwrite_at_same :
      (mem : List A) (off n : ℕ) → overwrite_at mem off (take n (drop off mem)) ≡ mem
  unfolding overwrite_at
  overwrite_at_same mem zero n = same mem n
    where
      same : (m : List A) (k : ℕ) → overwrite m (take k m) ≡ m
      same m zero = refl
      same [] (suc k) = refl
      same (x ∷ m) (suc k) = ap (λ r. x ∷ r) (same m k)
  overwrite_at_same [] (suc off) n = refl
  overwrite_at_same (x ∷ mem) (suc off) n = ap (λ m. x ∷ m) (overwrite_at_same mem off n)

module _ {ℓ} {A : Type ℓ} where
  -- A copy to the start leaves what lies behind it.
  pub overwrite_at_start :
      (mem vs : List A)
      → length vs ≤ length mem
      → overwrite_at mem 0 vs ≡ vs ++ drop (length vs) mem
  unfolding overwrite_at
  overwrite_at_start mem [] h = refl
  overwrite_at_start [] (v ∷ vs) h = absurd (omega arith)
  overwrite_at_start (x ∷ mem) (v ∷ vs) h =
      ap (λ m. v ∷ m) (overwrite_at_start mem vs (omega arith))

  -- A copy behind a prefix leaves the prefix.
  pub overwrite_at-append :
      (xs mem vs : List A) → overwrite_at (xs ++ mem) (length xs) vs ≡ xs ++ overwrite_at mem 0 vs
  unfolding overwrite_at
  overwrite_at-append [] mem vs = refl
  overwrite_at-append (x ∷ xs) mem vs = ap (λ m. x ∷ m) (overwrite_at-append xs mem vs)

  -- Two copies, the second behind the first.
  pub overwrite_at_twice :
      (mem xs ys : List A)
      → length xs + length ys ≤ length mem
      → overwrite_at (overwrite_at mem 0 xs) (length xs) ys
        ≡ (xs ++ ys) ++ drop (length xs + length ys) mem
  overwrite_at_twice mem xs ys h =
      ap (λ m. overwrite_at m (length xs) ys) (overwrite_at_start mem xs (omega arith))
      ∙ overwrite_at-append xs (drop (length xs) mem) ys
      ∙ ap (λ m. xs ++ m)
          (overwrite_at_start (drop (length xs) mem) ys (omega (arith, length-drop (length xs) mem))
            ∙ ap (λ m. ys ++ m) (sym (drop-add (length xs) (length ys) mem)))
      ∙ sym (append_assoc xs ys (drop (length xs + length ys) mem))

-- A call on a region that fits, where func keeps to it.
pub call_at_lem {ℓ κ} :
    {A : Type ℓ} {S : Type κ} (f : Func S A) (s s' : S) (mem region : List A) (off size n : ℕ)
    → off + size ≤ length mem
    → f s (take size (drop off mem)) ≡ some (s', region, n)
    → off + length region ≤ length mem
    → call_at f s mem off size ≡ some (s', overwrite_at mem off region, n)
unfolding call_at
call_at_lem f s s' mem region off size n fits e keeps =
    rw (load_region_fits mem off size fits, ◌>>=◌)
      (rw (e, ◌>>=◌) (rw (store_region_fits mem off region keeps, ◌>>=◌) refl))

pub call_at_outside {ℓ κ} :
    {A : Type ℓ} {S : Type κ} (f : Func S A) (s : S) (mem : List A) (off size : ℕ)
    → length mem < off + size
    → call_at f s mem off size ≡ none
unfolding call_at
call_at_outside f s mem off size h = rw (load_region_outside mem off size h, ◌>>=◌) refl

-- A call of a function that faults on what the region holds.
pub call_at_faults {ℓ κ} :
    {A : Type ℓ} {S : Type κ} (f : Func S A) (s : S) (mem : List A) (off size : ℕ)
    → off + size ≤ length mem
    → f s (take size (drop off mem)) ≡ none
    → call_at f s mem off size ≡ none
unfolding call_at
call_at_faults f s mem off size fits e =
    rw (load_region_fits mem off size fits, ◌>>=◌) (rw (e, ◌>>=◌) refl)
