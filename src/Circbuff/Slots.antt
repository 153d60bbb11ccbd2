-- ===== src/Circbuff/Slots.antt =====
-- The masked index of a circular buffer is its remainder by the capacity.
use Prim.Native.Nat.{◌∣◌}
use native.Mathlib.Nat.{mod-lt, mod-mod_of_dvd, dvd-mul_left, pow-le-pow_right}
use cplease.Base.{
  ℕ, ◌+◌, ◌-◌, ◌*◌, ◌%◌, ◌^◌, ◌≤◌, ◌<◌, bit_and, ◌≡◌, sym, ap, ◌∙◌, List, length, subst, arith,
}
use cplease.Word.{size_mod, add_size, sub_size}
use cplease.Bits.{bit_and_mask, two_pow_pos, two_pow_add}
use cplease.Circbuff.{slot}

-- What the concept circular_buffer_ptr asks of the array: a capacity that is a power of two, with
-- so many elements. (The concept also lets the capacity 0 pass, with which there is no slot.)
pub record IsBuffer {ℓ} {A : Type ℓ} (capacity : ℕ) (mem : List A) : Type 0 where
  pub exponent : ℕ
  pub power : capacity ≡ 2 ^ exponent
  pub small : exponent < 64
  pub size : length mem ≡ capacity

power-bounds : (k : ℕ) → k < 64 → (0 < 2 ^ k) × (2 ^ k ≤ 2 ^ 63)
power-bounds k h =
    (two_pow_pos k, pow-le-pow_right {n = 2} (omega arith) {i = k} {j = 63} (omega arith))

power-dvd : (k : ℕ) → k < 64 → (2 ^ k) ∣ size_mod
power-dvd k h =
    let parts : 64 ≡ 64 - k + k = omega arith in
    let product : size_mod ≡ 2 ^ (64 - k) * 2 ^ k =
      ap (λ e. 2 ^ e) parts ∙ two_pow_add (64 - k) k in
    subst (λ m. 2 ^ k ∣ m) (sym product) (dvd-mul_left (2 ^ k) (2 ^ (64 - k)))

module _ {ℓ} {A : Type ℓ} {capacity : ℕ} {mem : List A} (b : IsBuffer capacity mem) where
  pub capacity-bounds : (0 < capacity) × (capacity ≤ 2 ^ 63)
  capacity-bounds = omega (arith, b.power, power-bounds b.exponent b.small)

  pub slot_lem : (i : ℕ) → slot capacity i ≡ i % capacity
  unfolding slot
  slot_lem i =
      let mask : sub_size capacity 1 ≡ 2 ^ b.exponent - 1 =
        omega (arith, b.power, capacity-bounds) in
      ap (bit_and i) mask ∙ bit_and_mask b.exponent i ∙ ap (λ c. i % c) (sym b.power)

  pub slot-lt : (i : ℕ) → slot capacity i < capacity
  slot-lt i = subst (λ s. s < capacity) (sym (slot_lem i)) (mod-lt i capacity-bounds.0)

  -- Indices wrap at 2^64, and that does not show in the remainder.
  pub add_size-mod : (i n : ℕ) → add_size i n % capacity ≡ (i + n) % capacity
  add_size-mod i n =
      mod-mod_of_dvd capacity (i + n)
        (subst (λ c. c ∣ size_mod) (sym b.power) (power-dvd b.exponent b.small))

  pub slot-add_size : (i n : ℕ) → slot capacity (add_size i n) ≡ (i + n) % capacity
  slot-add_size i n = slot_lem (add_size i n) ∙ add_size-mod i n
