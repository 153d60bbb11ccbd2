-- ===== src/Math/Lcm.antt =====
-- lcm of math.hpp is the least common multiple while the product is a size_t.
use native.Mathlib.Nat.{
  mul-mod_right, dvd_refl, dvd-zero, dvd-mul_right, dvd_trans, dvd-add_iff_right, dvd-mod_iff,
  dvd_of_mul-dvd-mul_left, mul-dvd-mul_left, mul-dvd-mul_right, mod-eq_of_lt, mul-div_cancel',
  pos_of_dvd_of_pos, mod-lt, div-add-mod, mul-add, mul_assoc, mul_comm, zero-div,
}
use Prim.Native.Nat.{◌∣◌}
use cplease.Base.{
  ◌-◌, ℕ, zero, suc, ◌+◌, ◌*◌, ◌/◌, ◌%◌, ◌^◌, ◌≤◌, ◌<◌, ◌≡◌, sym, ap, ◌∙◌, subst, false, ◌==◌,
  Bool-cases, inl, inr, arith,
}
use cplease.Word.{size_mod, mul_size}
use cplease.Bits.{two_pow_add, two_pow_pos}
use cplease.Math.{gcd, lcm}

gcd-dvd : (fuel a b : ℕ) → b < fuel → (gcd fuel a b ∣ a) × (gcd fuel a b ∣ b)
unfolding gcd
gcd-dvd zero a b h = absurd (omega arith)
gcd-dvd (suc fuel) a zero h = (dvd_refl a, dvd-zero a)
gcd-dvd (suc fuel) a (suc b) h =
    let less : a % suc b < suc b = mod-lt a (omega arith) in
    let (left, right) = gcd-dvd fuel (suc b) (a % suc b) (omega (arith, less)) in
    ((dvd-mod_iff (gcd fuel (suc b) (a % suc b)) left).0 right, left)

-- What divides a multiple of both numbers, by one factor, divides that of their gcd.
dvd-mul_gcd : (fuel a b m d : ℕ) → b < fuel → d ∣ m * a → d ∣ m * b → d ∣ m * gcd fuel a b
unfolding gcd
dvd-mul_gcd zero a b m d h left right = absurd (omega arith)
dvd-mul_gcd (suc fuel) a zero m d h left right = left
dvd-mul_gcd (suc fuel) a (suc b) m d h left right =
    let less : a % suc b < suc b = mod-lt a (omega arith) in
    let whole : d ∣ m * (suc b * (a / suc b)) =
      subst (λ k. d ∣ k) (mul_assoc m (suc b) (a / suc b))
        (dvd_trans d right (dvd-mul_right (m * suc b) (a / suc b))) in
    let parts : m * a ≡ m * (suc b * (a / suc b)) + m * (a % suc b) =
      ap (λ k. m * k) (sym (div-add-mod a (suc b))) ∙ mul-add m (suc b * (a / suc b)) (a % suc b) in
    dvd-mul_gcd fuel (suc b) (a % suc b) m d (omega (arith, less)) right
      ((dvd-add_iff_right d whole).1 (subst (λ k. d ∣ k) parts left))

module _ (a b : ℕ) (some_a : 0 < a) (some_b : 0 < b) where
  abbrev g : ℕ
  g = gcd (suc b) a b

  divides : (g ∣ a) × (g ∣ b)
  divides = gcd-dvd (suc b) a b (omega arith)

  gcd_pos : 0 < g
  gcd_pos = pos_of_dvd_of_pos divides.0 some_a

  product : g * (a * b / g) ≡ a * b
  product = mul-div_cancel' g (dvd_trans g divides.0 (dvd-mul_right a b))

  quotient-common : (m : ℕ) → a ∣ m → b ∣ m → (a ∣ a * b / g) × (b ∣ a * b / g) × (a * b / g ∣ m)
  quotient-common m left right = (
    dvd_of_mul-dvd-mul_left a gcd_pos (
        subst (λ k. g * a ∣ k) (sym product)
          (subst (λ k. k ∣ a * b) (mul_comm a g) (mul-dvd-mul_left g a divides.1))),
    dvd_of_mul-dvd-mul_left b gcd_pos
        (subst (λ k. g * b ∣ k) (sym product) (mul-dvd-mul_right g divides.0 b)),
    dvd_of_mul-dvd-mul_left (a * b / g) gcd_pos (
        subst (λ k. k ∣ g * m) (sym product)
          (subst (λ k. a * b ∣ k) (mul_comm m g)
            (dvd-mul_gcd (suc b) a b m (a * b) (omega arith)
              (subst (λ k. a * b ∣ k) (mul_comm a m) (mul-dvd-mul_left b a right))
              (mul-dvd-mul_right a left b)))),
  )

-- For any two numbers whose product is a size_t, lcm is a multiple of both and divides every
-- common multiple m of them; also when one of them is 0.
pub lcm_lem :
    (a b m : ℕ) → a * b < size_mod → a ∣ m → b ∣ m → (a ∣ lcm a b) × (b ∣ lcm a b) × (lcm a b ∣ m)
unfolding lcm
lcm_lem a b m small left right = elim (Bool-cases (a == 0)) [
  | inl zero_a ↦
      let none_a : a ≡ 0 = ground arith in
      rw zero_a (dvd-zero a, dvd-zero b, subst (λ k. k ∣ m) none_a left)
  | inr some_a ↦ elim (Bool-cases (b == 0)) [
    | inl zero_b ↦
        let none_b : b ≡ 0 = ground arith in
        rw (some_a, zero_b) (dvd-zero a, dvd-zero b, subst (λ k. k ∣ m) none_b right)
    | inr some_b ↦
        rw (some_a, some_b, mod-eq_of_lt small)
          (quotient-common a b (ground arith) (ground arith) m left right)
  ]
]

-- The product of a power of two from 2^32 to 2^63 with itself is not a size_t, and lcm of it with
-- itself is 0, although it is a size_t and its own least common multiple.
pub lcm_overflows : (k : ℕ) → 32 ≤ k → k < 64 → lcm (2 ^ k) (2 ^ k) ≡ 0
unfolding lcm
lcm_overflows k low high =
    let positive : 0 < 2 ^ k = two_pow_pos k in
    let some_k : (2 ^ k == 0) ≡ false = ground arith in
    let double : k + k ≡ 64 + (k + k - 64) = omega arith in
    let square : 2 ^ k * 2 ^ k ≡ 2 ^ 64 * 2 ^ (k + k - 64) =
      sym (two_pow_add k k) ∙ (ap (λ j. 2 ^ j) double ∙ two_pow_add 64 (k + k - 64)) in
    let wraps : mul_size (2 ^ k) (2 ^ k) ≡ 0 =
      ap (λ n. n % size_mod) square ∙ mul-mod_right (2 ^ 64) (2 ^ (k + k - 64)) in
    rw (some_k, wraps) (zero-div (gcd (suc (2 ^ k)) (2 ^ k) (2 ^ k)))
