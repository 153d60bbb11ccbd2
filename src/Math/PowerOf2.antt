-- ===== src/Math/PowerOf2.antt =====
-- What is_power_of_2 of math.hpp accepts.
use native.Mathlib.Nat.{pow-suc}
use native.Mathlib.Decide.{ℕ_discrete}
use cplease.Base.{
  ℕ, zero, suc, ◌+◌, ◌-◌, ◌*◌, ◌/◌, ◌^◌, ◌≤◌, ◌<◌, bit_and, ◌≡◌, refl, sym, ap, ap₂, subst, ◌∙◌,
  ◌↔◌, ◌⊎◌, inl, inr, true, ◌==◌, ==_iff, arith,
}
use cplease.Word.{size_mod, sub_size}
use cplease.Bits.{bit_and_pred_odd, bit_and_pred_even, two_pow_pos}
use cplease.Math.{is_power_of_2}

abbrev pub IsPower : ℕ → Type 0
IsPower n = (k : ℕ) × (n ≡ 2 ^ k)

-- A number of one binary digit, seen from its half.
IsPower-double : (m : ℕ) → IsPower m → IsPower (2 * m)
IsPower-double m (k, e) = (suc k, omega (arith, e, pow-suc 2 k))

IsPower-of_no_digit : (fuel n : ℕ) → n ≤ fuel → 0 < n → bit_and n (n - 1) ≡ 0 → IsPower n
IsPower-of_no_digit zero n le pos e = absurd (omega arith)
IsPower-of_no_digit (suc fuel) n le pos e =
    by_parity (IsPower-of_no_digit fuel (n / 2) (omega arith)) parity
  where
    parity : (n ≡ 2 * (n / 2)) ⊎ (n ≡ 2 * (n / 2) + 1)
    parity = omega arith

    by_parity :
        (0 < n / 2 → bit_and (n / 2) (n / 2 - 1) ≡ 0 → IsPower (n / 2))
        → (n ≡ 2 * (n / 2)) ⊎ (n ≡ 2 * (n / 2) + 1)
        → IsPower n
    by_parity ih (inl even) = subst IsPower (sym even) (
        IsPower-double (n / 2) (
          ih (omega arith) (
            omega (
              arith,
              bit_and_pred_even (n / 2) (omega arith),
              ap (λ m. bit_and m (m - 1)) even,
              e,
            ))))
    by_parity ih (inr odd) =
        let same : bit_and n (n - 1) ≡ bit_and (2 * (n / 2) + 1) (2 * (n / 2)) =
          ap₂ bit_and odd (omega arith) in
        (0, omega (arith, bit_and_pred_odd (n / 2), same, e))

no_digit_of_power : (k : ℕ) → bit_and (2 ^ k) (2 ^ k - 1) ≡ 0
no_digit_of_power zero = refl
no_digit_of_power (suc k) =
    let two : 2 ^ suc k ≡ 2 * 2 ^ k = omega (arith, pow-suc 2 k) in
    ap (λ m. bit_and m (m - 1)) two
    ∙ bit_and_pred_even (2 ^ k) (two_pow_pos k)
    ∙ omega (arith, no_digit_of_power k)

sub_size_one : (num : ℕ) → 0 < num → num < size_mod → sub_size num 1 ≡ num - 1
sub_size_one num p q = omega arith

-- On a size_t, is_power_of_2 holds exactly of 0 and of the powers of two.
pub is_power_of_2_iff :
    (num : ℕ) → num < size_mod → (is_power_of_2 num ≡ true) ↔ ((num ≡ 0) ⊎ IsPower num)
unfolding is_power_of_2
is_power_of_2_iff num h = (forth, back)
  where
    forth : (bit_and num (sub_size num 1) == 0) ≡ true → (num ≡ 0) ⊎ IsPower num
    forth e = elim (ℕ_discrete num 0) [
      | yes z ↦ inl z
      | no nz ↦
          let pos : 0 < num = omega arith in
          inr (
            IsPower-of_no_digit num num (omega arith) pos
              (ap (bit_and num) (sym (sub_size_one num pos h)) ∙ (==_iff _ 0).0 e))
    ]

    back : (num ≡ 0) ⊎ IsPower num → (bit_and num (sub_size num 1) == 0) ≡ true
    back (inl z) = rw z
    back (inr (k, e)) =
        let pos : 0 < num = omega (arith, e, two_pow_pos k) in
        (==_iff _ 0).1 (rw (sub_size_one num pos h, e) (no_digit_of_power k))
