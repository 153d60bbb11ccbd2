-- ===== src/Bits.antt =====
-- Laws of the bitwise operations that math.hpp, reader.hpp and writer.hpp apply to a size_t: masking
-- by 2^k - 1 is a remainder, and a shift to the right distributes over "or".
use Prim.Native.Nat.{digits, bit_and-bitwise, bit_or-bitwise}
use native.Mathlib.Nat.{
  mod-lt, mod-eq_of_lt, div-add-mod, add-mod_left, pow-suc, div-one, div-div-eq-div-mul,
}
use native.Mathlib.Nat.{add-zero, mul_assoc}
use cplease.Base.{
  ℕ, zero, suc, ◌+◌, ◌-◌, ◌*◌, ◌/◌, ◌%◌, ◌^◌, ◌≤◌, ◌<◌, min, max, bit_and, bit_or, ◌≡◌, refl, sym,
  ap, ap₂, ◌∙◌, arith,
}

-- Induction along the digits of a number, the lowest taken off at each step.
halving_fuel : (P : ℕ → Type 0) → P 0 → ((x : ℕ) → P (x / 2) → P x) → (fuel x : ℕ) → x ≤ fuel → P x
halving_fuel P base step fuel zero h = base
halving_fuel P base step zero (suc x) h = absurd (omega arith)
halving_fuel P base step (suc fuel) (suc x) h =
    step (suc x) (halving_fuel P base step fuel (suc x / 2) (omega arith))

by_halves : (P : ℕ → Type 0) → P 0 → ((x : ℕ) → P (x / 2) → P x) → (x : ℕ) → P x
by_halves P base step x = halving_fuel P base step x x (omega arith)

-- The digit recursion behind the bitwise operations. What a count of digits beyond those of the
-- first number gives does not depend on it.
module _ (rest : ℕ → ℕ) (digit : ℕ → ℕ → ℕ) where
  enough_digits : (x k l y : ℕ) → x ≤ k → x ≤ l → digits rest digit k x y ≡ digits rest digit l x y
  enough_digits = by_halves Same base with_head
    where
      Same : ℕ → Type 0
      Same x = (k l y : ℕ) → x ≤ k → x ≤ l → digits rest digit k x y ≡ digits rest digit l x y

      base : Same 0
      base zero zero y hk hl = refl
      base zero (suc l) y hk hl = refl
      base (suc k) zero y hk hl = refl
      base (suc k) (suc l) y hk hl = refl

      with_head : (x : ℕ) → Same (x / 2) → Same x
      with_head zero ih k l y hk hl = base k l y hk hl
      with_head (suc x) ih zero l y hk hl = absurd (omega arith)
      with_head (suc x) ih (suc k) zero y hk hl = absurd (omega arith)
      with_head (suc x) ih (suc k) (suc l) y hk hl =
          ap (λ (high : ℕ). high * 2 + digit (suc x % 2) (y % 2))
            (ih k l (y / 2) (omega arith) (omega arith))

  -- The lowest digit apart.
  lowest :
      (x y : ℕ)
      → digits rest digit (suc x) (suc x) y
        ≡ digits rest digit (suc x / 2) (suc x / 2) (y / 2) * 2 + digit (suc x % 2) (y % 2)
  lowest x y =
      ap (λ (high : ℕ). high * 2 + digit (suc x % 2) (y % 2))
        (enough_digits (suc x / 2) x (suc x / 2) (y / 2) (omega arith) (omega arith))

pub bit_or_step : (x y : ℕ) → bit_or x y ≡ bit_or (x / 2) (y / 2) * 2 + max (x % 2) (y % 2)
bit_or_step zero y =
    let none : (v : ℕ) → bit_or 0 v ≡ v = λ v. bit_or-bitwise 0 v in
    omega (arith, none y, none (y / 2))
bit_or_step (suc x) y =
    bit_or-bitwise (suc x) y
    ∙ lowest (λ v. v) max x y
    ∙ ap (λ high. high * 2 + max (suc x % 2) (y % 2)) (sym (bit_or-bitwise (suc x / 2) (y / 2)))

bit_and_step : (x y : ℕ) → bit_and x y ≡ bit_and (x / 2) (y / 2) * 2 + min (x % 2) (y % 2)
bit_and_step zero y =
    let none : (v : ℕ) → bit_and 0 v ≡ 0 = λ v. bit_and-bitwise 0 v in
    omega (arith, none y, none (y / 2))
bit_and_step (suc x) y =
    bit_and-bitwise (suc x) y
    ∙ lowest (λ v. 0) min x y
    ∙ ap (λ high. high * 2 + min (suc x % 2) (y % 2)) (sym (bit_and-bitwise (suc x / 2) (y / 2)))

pub mod_unique : (q m r : ℕ) → r < m → (q * m + r) % m ≡ r
mod_unique zero m r h = mod-eq_of_lt {n = 0 * m + r} (omega arith) ∙ omega arith
mod_unique (suc q) m r h =
    ap (λ k. k % m) (omega arith) ∙ add-mod_left m (q * m + r) ∙ mod_unique q m r h

-- A remainder by an even modulus, digit by digit.
mod_double : (a d : ℕ) → 0 < d → a % (2 * d) ≡ (a / 2 % d) * 2 + a % 2
mod_double a d h =
    ap (λ k. k % (2 * d)) split
    ∙ mod_unique (a / 2 / d) (2 * d) ((a / 2 % d) * 2 + a % 2) (omega (arith, mod-lt (a / 2) h))
  where
    split : a ≡ (a / 2 / d) * (2 * d) + ((a / 2 % d) * 2 + a % 2)
    split = omega (arith, div-add-mod (a / 2) d)

pub two_pow_pos : (k : ℕ) → 0 < 2 ^ k
two_pow_pos zero = omega arith
two_pow_pos (suc k) = omega (arith, two_pow_pos k, pow-suc 2 k)

bit_and-zero : (x : ℕ) → bit_and x 0 ≡ 0
bit_and-zero = by_halves (λ x. bit_and x 0 ≡ 0) refl λ x ih. omega (arith, bit_and_step x 0, ih)

-- A mask of k ones keeps the remainder modulo 2^k.
pub bit_and_mask : (k a : ℕ) → bit_and a (2 ^ k - 1) ≡ a % 2 ^ k
bit_and_mask zero a = omega (arith, bit_and-zero a)
bit_and_mask (suc k) a =
    bit_and_step a (2 ^ suc k - 1)
    ∙ ap (λ m. bit_and (a / 2) m * 2 + min (a % 2) ((2 ^ suc k - 1) % 2))
        (omega (arith, pow-suc 2 k, two_pow_pos k))
    ∙ ap (λ m. m * 2 + min (a % 2) ((2 ^ suc k - 1) % 2)) (bit_and_mask k (a / 2))
    ∙ omega (arith, pow-suc 2 k, two_pow_pos k)
    ∙ sym (mod_double a (2 ^ k) (two_pow_pos k))
    ∙ ap (λ m. a % m) (omega (arith, pow-suc 2 k))

pub bit_and_self : (x : ℕ) → bit_and x x ≡ x
bit_and_self = by_halves (λ x. bit_and x x ≡ x) refl λ x ih. omega (arith, bit_and_step x x, ih)

bit_or_zero : (x : ℕ) → bit_or x 0 ≡ x
bit_or_zero = by_halves (λ x. bit_or x 0 ≡ x) refl λ x ih. omega (arith, bit_or_step x 0, ih)

-- Conjunction with the predecessor, by parity.
pub bit_and_pred_odd : (m : ℕ) → bit_and (2 * m + 1) (2 * m) ≡ 2 * m
bit_and_pred_odd m =
    let left : (2 * m + 1) / 2 ≡ m = omega arith in
    let right : 2 * m / 2 ≡ m = omega arith in
    bit_and_step (2 * m + 1) (2 * m)
    ∙ ap₂ (λ x y. bit_and x y * 2 + min ((2 * m + 1) % 2) (2 * m % 2)) left right
    ∙ omega (arith, bit_and_self m)

pub bit_and_pred_even : (m : ℕ) → 0 < m → bit_and (2 * m) (2 * m - 1) ≡ bit_and m (m - 1) * 2
bit_and_pred_even m h =
    let left : 2 * m / 2 ≡ m = omega arith in
    let right : (2 * m - 1) / 2 ≡ m - 1 = omega arith in
    bit_and_step (2 * m) (2 * m - 1)
    ∙ ap₂ (λ x y. bit_and x y * 2 + min (2 * m % 2) ((2 * m - 1) % 2)) left right
    ∙ omega arith

-- A number below 2^t and the number of t ones have t ones together, and the digits above stay.
pub bit_or_fill :
    (t h r : ℕ) → r < 2 ^ t → bit_or (h * 2 ^ t + r) (2 ^ t - 1) ≡ h * 2 ^ t + (2 ^ t - 1)
bit_or_fill zero h r lt =
    ap₂ bit_or {y = h} (omega arith) (omega arith) ∙ bit_or_zero h ∙ omega arith
bit_or_fill (suc t) h r lt =
    let two : 2 ^ suc t ≡ 2 * 2 ^ t = omega (arith, pow-suc 2 t) in
    let pos : 0 < 2 ^ t = two_pow_pos t in
    let wide : h * 2 ^ suc t ≡ 2 * (h * 2 ^ t) = omega (arith, ap (λ m. h * m) two) in
    let left : (h * 2 ^ suc t + r) / 2 ≡ h * 2 ^ t + r / 2 = omega arith in
    let right : (2 ^ suc t - 1) / 2 ≡ 2 ^ t - 1 = omega arith in
    bit_or_step (h * 2 ^ suc t + r) (2 ^ suc t - 1)
    ∙ ap₂ (λ x y. bit_or x y * 2 + max ((h * 2 ^ suc t + r) % 2) ((2 ^ suc t - 1) % 2)) left right
    ∙ omega (arith, bit_or_fill t h (r / 2) (omega arith))

-- A disjunction loses its k lowest digits as its operands do.
pub bit_or-div : (k a b : ℕ) → bit_or a b / 2 ^ k ≡ bit_or (a / 2 ^ k) (b / 2 ^ k)
bit_or-div zero a b = omega (arith, ap₂ bit_or {y = a} (div-one a) (div-one b))
bit_or-div (suc k) a b =
    let two : 2 ^ suc k ≡ 2 * 2 ^ k = omega (arith, pow-suc 2 k) in
    rw two (
      div_double (bit_or a b)
      ∙ ap (λ x. x / 2 ^ k) halved
      ∙ bit_or-div k (a / 2) (b / 2)
      ∙ ap₂ bit_or (sym (div_double a)) (sym (div_double b)))
  where
    div_double : (x : ℕ) → x / (2 * 2 ^ k) ≡ x / 2 / 2 ^ k
    div_double x = sym (div-div-eq-div-mul x 2 (2 ^ k))

    halved : bit_or a b / 2 ≡ bit_or (a / 2) (b / 2)
    halved = omega (arith, bit_or_step a b)

-- All ones absorb what has no digit beyond them.
pub bit_or_ones : (n y : ℕ) → y < 2 ^ n → bit_or (2 ^ n - 1) y ≡ 2 ^ n - 1
bit_or_ones zero y lt = ap₂ bit_or {y = 0} {v = 0} (omega arith) (omega arith) ∙ omega arith
bit_or_ones (suc n) y lt =
    let two : 2 ^ suc n ≡ 2 * 2 ^ n = omega (arith, pow-suc 2 n) in
    let pos : 0 < 2 ^ n = two_pow_pos n in
    let left : (2 ^ suc n - 1) / 2 ≡ 2 ^ n - 1 = omega arith in
    bit_or_step (2 ^ suc n - 1) y
    ∙ ap (λ x. bit_or x (y / 2) * 2 + max ((2 ^ suc n - 1) % 2) (y % 2)) left
    ∙ omega (arith, bit_or_ones n (y / 2) (omega arith))

pub two_pow_add : (a b : ℕ) → 2 ^ (a + b) ≡ 2 ^ a * 2 ^ b
two_pow_add a zero = ap (λ k. 2 ^ k) (add-zero a) ∙ omega arith
two_pow_add a (suc b) =
    let one_more : a + suc b ≡ suc (a + b) = omega arith in
    rw one_more (
      pow-suc 2 (a + b)
      ∙ ap (λ x. x * 2) (two_pow_add a b)
      ∙ mul_assoc (2 ^ a) (2 ^ b) 2
      ∙ ap (λ x. 2 ^ a * x) (sym (pow-suc 2 b)))
