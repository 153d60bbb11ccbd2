-- ===== src/Math/RoundUp.antt =====
-- round_up_power2 of math.hpp gives the next power of two up to 2^32, and fails above.
use native.Mathlib.Nat.{pow-suc, div-add-mod', mod-lt, div-div-eq-div-mul, pow-le-pow_right}
use native.Mathlib.Nat.{div-le_self, div-lt_iff_lt-mul, le-div_iff_mul-le, div-one}
use native.Mathlib.Decide.{dec_le, dec_lt}
use cplease.Base.{&&-left, &&-right}
use cplease.Base.{
  ℕ, zero, suc, ◌+◌, ◌-◌, ◌*◌, ◌/◌, ◌%◌, ◌^◌, ◌≤◌, ◌<◌, bit_or, ◌≡◌, refl, sym, ap, ap₂, ◌∙◌, ◌⊎◌,
  inl, inr, subst, arith, Bool, true, false, not, ◌&&◌, ◌==◌, ltb,
}
use cplease.Word.{add_size}
use cplease.Bits.{bit_or-div, bit_or_fill, bit_or_ones, two_pow_pos, two_pow_add}
use cplease.Math.{or_shifted, fill_ones, round_up_power2, is_power_of_2}
use cplease.Math.PowerOf2.{IsPower, is_power_of_2_iff}

div-two_pow : (x a b : ℕ) → x / 2 ^ a / 2 ^ b ≡ x / 2 ^ (a + b)
div-two_pow x a b = div-div-eq-div-mul x (2 ^ a) (2 ^ b) ∙ ap (λ m. x / m) (sym (two_pow_add a b))

-- The s highest of the n digits of x are ones, or all are.
abbrev TopOnes : ℕ → ℕ → ℕ → Type 0
TopOnes s n x = ((m : ℕ) × (n ≡ s + m) × (x / 2 ^ m ≡ 2 ^ s - 1)) ⊎ ((n ≤ s) × (x ≡ 2 ^ n - 1))

ones_join : (p q : ℕ) → 0 < p → 0 < q → (p - 1) * q + (q - 1) ≡ p * q - 1
ones_join zero q hp hq = absurd (omega arith)
ones_join (suc p) zero hp hq = absurd (omega arith)
ones_join (suc p) (suc q) hp hq =
    let pred : suc p - 1 ≡ p = omega arith in ap (λ k. k * suc q + (suc q - 1)) pred ∙ omega arith

pred_mul_div : (a b : ℕ) → 0 < a → 0 < b → (a * b - 1) / b ≡ a - 1
pred_mul_div zero b ha hb = absurd (omega arith)
pred_mul_div (suc a) zero ha hb = absurd (omega arith)
pred_mul_div (suc a) (suc b) ha hb =
    let above : (suc a * suc b - 1) / suc b < suc a = (div-lt_iff_lt-mul hb).1 (omega arith) in
    let below : a ≤ (suc a * suc b - 1) / suc b = (le-div_iff_mul-le hb).1 (omega arith) in
    omega arith

-- With twice s digits to fill, a shift by s doubles the ones.
or_shifted_grow :
    (s m x : ℕ) → x / 2 ^ (s + m) ≡ 2 ^ s - 1 → or_shifted s x / 2 ^ m ≡ 2 ^ (s + s) - 1
or_shifted_grow s m x e =
    bit_or-div m x (x / 2 ^ s)
    ∙ ap₂ bit_or split (div-two_pow x s m ∙ e)
    ∙ bit_or_fill s (2 ^ s - 1) (x / 2 ^ m % 2 ^ s) (mod-lt _ (two_pow_pos s))
    ∙ ones_join (2 ^ s) (2 ^ s) (two_pow_pos s) (two_pow_pos s)
    ∙ ap (λ p. p - 1) (sym (two_pow_add s s))
  where
    high : x / 2 ^ m / 2 ^ s ≡ 2 ^ s - 1
    high = div-two_pow x m s ∙ ap (λ k. x / 2 ^ k) (omega arith) ∙ e

    split : x / 2 ^ m ≡ (2 ^ s - 1) * 2 ^ s + x / 2 ^ m % 2 ^ s
    split = sym (div-add-mod' (x / 2 ^ m) (2 ^ s)) ∙ ap (λ h. h * 2 ^ s + x / 2 ^ m % 2 ^ s) high

-- With less to fill it fills all.
or_shifted_fill : (s m x : ℕ) → m ≤ s → x / 2 ^ m ≡ 2 ^ s - 1 → or_shifted s x ≡ 2 ^ (s + m) - 1
or_shifted_fill s m x le e =
    ap₂ bit_or split low
    ∙ bit_or_fill m (2 ^ s - 1) (x % 2 ^ m) (mod-lt _ (two_pow_pos m))
    ∙ ones_join (2 ^ s) (2 ^ m) (two_pow_pos s) (two_pow_pos m)
    ∙ ap (λ p. p - 1) (sym (two_pow_add s m))
  where
    split : x ≡ (2 ^ s - 1) * 2 ^ m + x % 2 ^ m
    split = sym (div-add-mod' x (2 ^ m)) ∙ ap (λ h. h * 2 ^ m + x % 2 ^ m) e

    parts : m + (s - m) ≡ s
    parts = omega arith

    low : x / 2 ^ s ≡ 2 ^ m - 1
    low =
        ap (λ k. x / 2 ^ k) (sym parts)
        ∙ sym (div-two_pow x m (s - m))
        ∙ ap (λ a. a / 2 ^ (s - m)) e
        ∙ ap (λ k. (2 ^ k - 1) / 2 ^ (s - m)) (sym parts)
        ∙ ap (λ p. (p - 1) / 2 ^ (s - m)) (two_pow_add m (s - m))
        ∙ pred_mul_div (2 ^ m) (2 ^ (s - m)) (two_pow_pos m) (two_pow_pos (s - m))

or_shifted_stay : (s n x : ℕ) → x ≡ 2 ^ n - 1 → or_shifted s x ≡ 2 ^ n - 1
or_shifted_stay s n x e =
    ap (λ a. bit_or a (x / 2 ^ s)) e
    ∙ bit_or_ones n (x / 2 ^ s) (omega (arith, div-le_self x (2 ^ s), two_pow_pos n))

or_shifted-TopOnes : (s n x : ℕ) → TopOnes s n x → TopOnes (s + s) n (or_shifted s x)
or_shifted-TopOnes s n x (inr (le, e)) = inr (omega arith, or_shifted_stay s n x e)
or_shifted-TopOnes s n x (inl (m, total, e)) = elim (dec_le s m) [
  | yes le ↦
      let parts : s + (m - s) ≡ m = omega arith in
      inl (m - s, omega arith, or_shifted_grow s (m - s) x (ap (λ k. x / 2 ^ k) parts ∙ e))
  | no gt ↦
      inr (omega arith, or_shifted_fill s m x (omega arith) e ∙ ap (λ k. 2 ^ k - 1) (sym total))
]

-- The digits of a number: n of them, the highest a one.
IsLong : ℕ → ℕ → Type 0
IsLong n x = (2 ^ n ≤ x) × (x < 2 ^ suc n)

IsLong-low : (n x : ℕ) → IsLong n x → 2 ^ n ≤ x
unfolding IsLong
IsLong-low n x (low, high) = low

digits_of : (fuel x : ℕ) → x ≤ fuel → 0 < x → (n : ℕ) × IsLong n x
unfolding IsLong
digits_of zero x le pos = absurd (omega arith)
digits_of (suc fuel) x le pos = elim (dec_lt x 2) [
  | yes one ↦ (0, omega arith)
  | no more ↦
      let (n, (low, high)) = digits_of fuel (x / 2) (omega arith) (omega arith) in
      (suc n, omega (arith, pow-suc 2 n, pow-suc 2 (suc n), low, high))
]

IsLong-TopOnes : (n x : ℕ) → IsLong n x → TopOnes 1 (suc n) x
unfolding IsLong
IsLong-TopOnes n x (low, high) =
    let above : x / 2 ^ n < 2 =
      (div-lt_iff_lt-mul (two_pow_pos n)).1 (omega (arith, high, pow-suc 2 n)) in
    let below : 1 ≤ x / 2 ^ n = (le-div_iff_mul-le (two_pow_pos n)).1 (omega (arith, low)) in
    inl (n, omega arith, omega arith)

-- With 32 digits at most the five shifts fill them all.
fill_ones_lem : (n x : ℕ) → n < 32 → IsLong n x → fill_ones x ≡ 2 ^ suc n - 1
unfolding fill_ones
fill_ones_lem n x lt long =
    full (step 16 (step 8 (step 4 (step 2 (step 1 (IsLong-TopOnes n x long))))))
  where
    step : (s : ℕ) {y : ℕ} → TopOnes s (suc n) y → TopOnes (s + s) (suc n) (or_shifted s y)
    step s {y} t = or_shifted-TopOnes s (suc n) y t

    full : {y : ℕ} → TopOnes 32 (suc n) y → y ≡ 2 ^ suc n - 1
    full (inr (le, e)) = e
    full {y} (inl (m, total, e)) =
        let no_more : m ≡ 0 = omega arith in
        let all : 32 ≡ suc n = omega arith in
        sym (div-one y) ∙ ap (λ k. y / 2 ^ k) (sym no_more) ∙ e ∙ ap (λ k. 2 ^ k - 1) all

-- r is the least power of two that is not below num.
pub record IsNextPower (num r : ℕ) : Type 0 where
  pub exponent : ℕ
  pub power : r ≡ 2 ^ exponent
  pub above : num ≤ r
  pub least : (j : ℕ) → num ≤ 2 ^ j → r ≤ 2 ^ j

exponent-lt : (a b : ℕ) → 2 ^ a < 2 ^ b → a < b
exponent-lt a b h = elim (dec_lt a b) [
  | yes lt ↦ lt
  | no ge ↦
      absurd
        (omega (arith, h, pow-le-pow_right {n = 2} (omega arith) {i = b} {j = a} (omega arith)))
]

next_power : (num n : ℕ) → n < 32 → IsLong n (num - 1) → IsNextPower num (2 ^ suc n)
unfolding IsLong
next_power num n lt (low, high) = record {
  exponent = suc n;
  power = refl;
  above = omega (arith, high);
  least = λ j h.
      pow-le-pow_right {n = 2} (omega arith)
        (exponent-lt n j (omega (arith, low, h, two_pow_pos n)));
}

IsNextPower-zero : IsNextPower 0 1
IsNextPower-zero = record {
  exponent = 0;
  power = refl;
  above = omega arith;
  least = λ j h. two_pow_pos j;
}

IsNextPower-one : IsNextPower 1 1
IsNextPower-one = record {
  exponent = 0;
  power = refl;
  above = omega arith;
  least = λ j h. two_pow_pos j;
}

round_up_power2_more : (num : ℕ) → 1 < num → num ≤ 2 ^ 32 → IsNextPower num (round_up_power2 num)
unfolding round_up_power2
round_up_power2_more num more h =
    let (n, long) = digits_of num (num - 1) (omega arith) (omega arith) in
    let short : n < 32 = exponent-lt n 32 (omega (arith, IsLong-low n (num - 1) long, h)) in
    let nonzero : (num == 0) ≡ false = ground arith in
    let wide : 2 ^ suc n ≤ 2 ^ 32 =
      pow-le-pow_right {n = 2} (omega arith) {i = suc n} {j = 32} (omega arith) in
    let result : add_size (fill_ones (num - 1)) 1 ≡ 2 ^ suc n =
      ap (λ x. add_size x 1) (fill_ones_lem n (num - 1) short long)
      ∙ omega (arith, wide, two_pow_pos (suc n)) in
    rw nonzero (subst (IsNextPower num) (sym result) (next_power num n short long))

-- For num ≤ 2^32 the result of round_up_power2 is the least power of two that is not below num.
pub round_up_power2_lem : (num : ℕ) → num ≤ 2 ^ 32 → IsNextPower num (round_up_power2 num)
unfolding round_up_power2 fill_ones
round_up_power2_lem zero h = IsNextPower-zero
round_up_power2_lem (suc zero) h = IsNextPower-one
round_up_power2_lem (suc (suc n)) h = round_up_power2_more (suc (suc n)) (omega arith) h

-- A test of the first numbers, for what is checked by evaluation.
first_pass : (ℕ → Bool) → ℕ → Bool
first_pass test zero = true
first_pass test (suc count) = first_pass test count && test count

first_pass-at :
    (test : ℕ → Bool) (count at : ℕ) → first_pass test count ≡ true → at < count → test at ≡ true
unfolding first_pass
first_pass-at test zero at passed h = absurd (omega arith)
first_pass-at test (suc count) at passed h = elim (dec_lt at count) [
  | yes earlier ↦ first_pass-at test count at (&&-left _ _ passed) earlier
  | no last ↦
      let same : count ≡ at = omega arith in
      ap test (sym same) ∙ &&-right (first_pass test count) _ passed
]

rejects : ℕ → Bool
rejects i = let r = round_up_power2 (2 ^ (i + 32) + 1) in not (is_power_of_2 r) && ltb r (2 ^ 64)

rejects_table : first_pass rejects 31 ≡ true
unfolding first_pass rejects round_up_power2 fill_ones is_power_of_2
rejects_table = refl

-- Just above each power of two from 2^32 to 2^62, where the next power of two is a size_t,
-- round_up_power2 does not return a power of two at all.
pub round_up_power2_large : (k : ℕ) → 32 ≤ k → k < 63 → ¬ IsPower (round_up_power2 (2 ^ k + 1))
unfolding rejects
round_up_power2_large k low high power =
    let shifted : k - 32 + 32 ≡ k = omega arith in
    let at : rejects (k - 32) ≡ true =
      first_pass-at rejects 31 (k - 32) rejects_table (omega arith) in
    let p : IsPower (round_up_power2 (2 ^ (k - 32 + 32) + 1)) =
      subst (λ m. IsPower (round_up_power2 (2 ^ m + 1))) (sym shifted) power in
    let r = round_up_power2 (2 ^ (k - 32 + 32) + 1) in
    ground (arith, at, (is_power_of_2_iff r (ground (arith, at))).1 (inr p))
