-- ===== src/Circbuff/Window.antt =====
-- The buffer seen value by value: the values from an index on, and writing values one after another,
-- each at the slot of its own index. Indices here do not wrap.
use native.Mathlib.Nat.{mod-lt, mod-eq_of_lt, suc-mod, mod-add-mod, mod_self, mod-eq-sub-mod}
use native.Mathlib.Decide.{dec_lt}
use cplease.Base.{
  ℕ, zero, suc, ◌+◌, ◌-◌, ◌%◌, ◌≤◌, ◌<◌, ◌≡◌, ◌≢◌, refl, sym, ap, ap₂, ◌∙◌, List, [], ◌∷◌, ◌++◌,
  length, take, drop, set, get_or, length-set, get_or-set_self, get_or-set_ne, arith,
}
use cplease.Memory.{overwrite_at}
use cplease.Memory.Laws.{overwrite_at-nil, overwrite_at-cons, take-drop_cons}

suc-slot : (capacity i : ℕ) → suc (i % capacity) < capacity → suc i % capacity ≡ suc (i % capacity)
suc-slot capacity i h = suc-mod i capacity ∙ mod-eq_of_lt h

suc-mod_eq : (i j m : ℕ) → i % m ≡ j % m → suc i % m ≡ suc j % m
suc-mod_eq i j m e = suc-mod i m ∙ ap (λ k. suc k % m) e ∙ sym (suc-mod j m)

-- Indices that are less than a round apart have different slots.
slot-ne : (capacity i j : ℕ) → i < j → j < i + capacity → j % capacity ≢ i % capacity
slot-ne capacity i j lt near e =
    let pos : 0 < capacity = omega arith in
    let parts : i + (j - i) ≡ j = omega arith in
    let a = i % capacity in
    let sum : (a + (j - i)) % capacity ≡ a =
      mod-add-mod i capacity (j - i) ∙ ap (λ k. k % capacity) parts ∙ e in
    let bound : a < capacity = mod-lt i pos in
    elim (dec_lt (a + (j - i)) capacity) [
      | yes p ↦ omega (arith, mod-eq_of_lt p, sum)
      | no p ↦
          let over : capacity ≤ a + (j - i) = omega arith in
          let rest : a + (j - i) - capacity < capacity = omega arith in
          omega (arith, mod-eq-sub-mod over, mod-eq_of_lt rest, sum)
    ]

-- The room to the end of the buffer is followed by its start.
end-slot :
    (capacity i m : ℕ)
    → 0 < capacity
    → i % capacity + m ≡ capacity
    → (m + i) % capacity ≡ 0 % capacity
end-slot capacity i m pos whole =
    ap (λ k. k % capacity) (omega arith)
    ∙ sym (mod-add-mod i capacity m)
    ∙ ap (λ k. k % capacity) whole
    ∙ mod_self capacity
    ∙ sym (mod-eq_of_lt pos)

module _ {ℓ} {A : Type ℓ} (capacity : ℕ) where
  pub put_seq : List A → ℕ → List A → List A
  put_seq mem i [] = mem
  put_seq mem i (v ∷ vs) = put_seq (set mem (i % capacity) v) (suc i) vs

  pub window : A → List A → ℕ → ℕ → List A
  window d mem i zero = []
  window d mem i (suc n) = get_or mem (i % capacity) d ∷ window d mem (suc i) n

  pub window-zero : (d : A) (mem : List A) (i : ℕ) → window d mem i 0 ≡ []
  unfolding window
  window-zero d mem i = refl

  pub length-window : (d : A) (mem : List A) (i n : ℕ) → length (window d mem i n) ≡ n
  unfolding window
  length-window d mem i zero = refl
  length-window d mem i (suc n) = ap suc (length-window d mem (suc i) n)

  pub length-put_seq : (mem : List A) (i : ℕ) (vs : List A) → length (put_seq mem i vs) ≡ length mem
  unfolding put_seq
  length-put_seq mem i [] = refl
  length-put_seq mem i (v ∷ vs) =
      length-put_seq (set mem (i % capacity) v) (suc i) vs ∙ length-set mem (i % capacity) v

  pub put_seq-append :
      (mem : List A) (i : ℕ) (xs ys : List A)
      → put_seq mem i (xs ++ ys) ≡ put_seq (put_seq mem i xs) (length xs + i) ys
  unfolding put_seq
  put_seq-append mem i [] ys = ap (λ k. put_seq mem k ys) (omega arith)
  put_seq-append mem i (x ∷ xs) ys =
      put_seq-append (set mem (i % capacity) x) (suc i) xs ys
      ∙ ap (λ k. put_seq (put_seq (set mem (i % capacity) x) (suc i) xs) k ys) (omega arith)

  pub window-append :
      (d : A) (mem : List A) (i m n : ℕ)
      → window d mem i (m + n) ≡ window d mem i m ++ window d mem (m + i) n
  unfolding window
  window-append d mem i zero n = ap₂ (window d mem) {y = 0 + i} {v = n} (omega arith) (omega arith)
  window-append d mem i (suc m) n =
      let count : suc m + n ≡ suc (m + n) = omega arith in
      ap (window d mem i) count
      ∙ ap (λ r. get_or mem (i % capacity) d ∷ r)
          (window-append d mem (suc i) m n
            ∙ ap (λ k. window d mem (suc i) m ++ window d mem k n) (omega arith))

  -- Where the values do not pass the end of the buffer, one copy writes them.
  pub put_seq-eq-overwrite_at :
      (mem : List A) (i : ℕ) (vs : List A)
      → i % capacity + length vs ≤ capacity
      → put_seq mem i vs ≡ overwrite_at mem (i % capacity) vs
  unfolding put_seq
  put_seq-eq-overwrite_at mem i [] h = sym (overwrite_at-nil mem (i % capacity))
  put_seq-eq-overwrite_at mem i (v ∷ []) h =
      sym (overwrite_at-cons mem (i % capacity) v [] ∙ overwrite_at-nil _ _)
  put_seq-eq-overwrite_at mem i (v ∷ w ∷ vs) h =
      let next : suc i % capacity ≡ suc (i % capacity) = suc-slot capacity i (omega arith) in
      put_seq-eq-overwrite_at (set mem (i % capacity) v) (suc i) (w ∷ vs) (omega arith)
      ∙ ap (λ k. overwrite_at (set mem (i % capacity) v) k (w ∷ vs)) next
      ∙ sym (overwrite_at-cons mem (i % capacity) v (w ∷ vs))

  -- So too for reading.
  pub window-eq-take-drop :
      (d : A) (mem : List A) (i n : ℕ)
      → length mem ≡ capacity
      → 0 < capacity
      → i % capacity + n ≤ capacity
      → window d mem i n ≡ take n (drop (i % capacity) mem)
  unfolding window
  window-eq-take-drop d mem i zero size pos h = refl
  window-eq-take-drop d mem i (suc zero) size pos h =
      sym (take-drop_cons mem (i % capacity) 0 d (omega arith))
  window-eq-take-drop d mem i (suc (suc n)) size pos h =
      let next : suc i % capacity ≡ suc (i % capacity) = suc-slot capacity i (omega arith) in
      ap (λ r. get_or mem (i % capacity) d ∷ r)
        (window-eq-take-drop d mem (suc i) (suc n) size pos (omega arith)
          ∙ ap (λ k. take (suc n) (drop k mem)) next)
      ∙ sym (take-drop_cons mem (i % capacity) (suc n) d (omega arith))

  -- What is written later in the same round does not change a slot.
  pub get_or-put_seq :
      (d : A) (mem : List A) (i j : ℕ) (vs : List A)
      → i < j
      → j + length vs ≤ i + capacity
      → get_or (put_seq mem j vs) (i % capacity) d ≡ get_or mem (i % capacity) d
  unfolding put_seq
  get_or-put_seq d mem i j [] lt near = refl
  get_or-put_seq d mem i j (v ∷ vs) lt near =
      get_or-put_seq d (set mem (j % capacity) v) i (suc j) vs (omega arith) (omega arith)
      ∙ get_or-set_ne mem (j % capacity) (i % capacity) v d (slot-ne capacity i j lt (omega arith))

  pub window-put_seq_before :
      (d : A) (mem : List A) (i n j : ℕ) (vs : List A)
      → i + n ≤ j
      → j + length vs ≤ i + capacity
      → window d (put_seq mem j vs) i n ≡ window d mem i n
  unfolding window
  window-put_seq_before d mem i zero j vs le near = refl
  window-put_seq_before d mem i (suc n) j vs le near =
      ap₂ ◌∷◌ (get_or-put_seq d mem i j vs (omega arith) near)
        (window-put_seq_before d mem (suc i) n j vs (omega arith) (omega arith))

  -- Up to a whole round of values is there to be read.
  pub window-put_seq :
      (d : A) (mem : List A) (i : ℕ) (vs : List A)
      → 0 < capacity
      → length mem ≡ capacity
      → length vs ≤ capacity
      → window d (put_seq mem i vs) i (length vs) ≡ vs
  unfolding window put_seq
  window-put_seq d mem i [] pos size le = refl
  window-put_seq d mem i (v ∷ vs) pos size le =
      let mem' = set mem (i % capacity) v in
      let inside : i % capacity < length mem = omega (arith, mod-lt i pos) in
      ap₂ ◌∷◌
        (get_or-put_seq d mem' i (suc i) vs (omega arith) (omega arith)
          ∙ get_or-set_self mem (i % capacity) v d inside)
        (window-put_seq d mem' (suc i) vs pos (length-set mem (i % capacity) v ∙ size)
          (omega arith))

  -- The indices matter up to whole rounds.
  pub put_seq-mod :
      (mem : List A) (i j : ℕ) (vs : List A)
      → i % capacity ≡ j % capacity
      → put_seq mem i vs ≡ put_seq mem j vs
  unfolding put_seq
  put_seq-mod mem i j [] e = refl
  put_seq-mod mem i j (v ∷ vs) e =
      ap (λ s. put_seq (set mem s v) (suc i) vs) e
      ∙ put_seq-mod (set mem (j % capacity) v) (suc i) (suc j) vs (suc-mod_eq i j capacity e)

  pub window-mod :
      (d : A) (mem : List A) (i j n : ℕ)
      → i % capacity ≡ j % capacity
      → window d mem i n ≡ window d mem j n
  unfolding window
  window-mod d mem i j zero e = refl
  window-mod d mem i j (suc n) e =
      ap₂ (λ s r. get_or mem s d ∷ r) e
        (window-mod d mem (suc i) (suc j) n (suc-mod_eq i j capacity e))

  -- Values that pass the end are written by two copies, the second to the start.
  pub put_seq_wrapped :
      (mem : List A) (i : ℕ) (xs ys : List A)
      → 0 < capacity
      → i % capacity + length xs ≡ capacity
      → length ys ≤ capacity
      → put_seq mem i (xs ++ ys) ≡ overwrite_at (overwrite_at mem (i % capacity) xs) 0 ys
  put_seq_wrapped mem i xs ys pos whole le =
      put_seq-append mem i xs ys
      ∙ ap (λ m. put_seq m (length xs + i) ys) (put_seq-eq-overwrite_at mem i xs (omega arith))
      ∙ put_seq-mod (overwrite_at mem (i % capacity) xs) (length xs + i) 0 ys
          (end-slot capacity i (length xs) pos whole)
      ∙ put_seq-eq-overwrite_at (overwrite_at mem (i % capacity) xs) 0 ys
          (omega (arith, mod-eq_of_lt pos))
      ∙ ap (λ s. overwrite_at (overwrite_at mem (i % capacity) xs) s ys) (mod-eq_of_lt pos)

  -- So too for reading.
  pub window_wrapped :
      (d : A) (mem : List A) (i m n : ℕ)
      → 0 < capacity
      → length mem ≡ capacity
      → i % capacity + m ≡ capacity
      → n ≤ capacity
      → window d mem i (m + n) ≡ take m (drop (i % capacity) mem) ++ take n mem
  window_wrapped d mem i m n pos size whole le =
      window-append d mem i m n
      ∙ ap₂ ◌++◌ (window-eq-take-drop d mem i m size pos (omega arith)) (
          window-mod d mem (m + i) 0 n (end-slot capacity i m pos whole)
          ∙ window-eq-take-drop d mem 0 n size pos (omega (arith, mod-eq_of_lt pos))
          ∙ ap (λ s. take n (drop s mem)) (mod-eq_of_lt pos))
