-- ===== src/Math.antt =====
-- include/plz/help/math.hpp
use cplease.Base.{
  zero, suc, ◌%◌, ◌||◌, ℕ, ◌+◌, ◌-◌, ◌/◌, ◌^◌, bit_and, bit_or, Bool, ltb, ◌==◌, if◌then◌else◌,
}
use cplease.Word.{sizeof_size_t, add_size, sub_size, mul_size}
pub mod RoundUp
mod Lcm
mod Examples
pub mod PowerOf2

-- `num |= num >> k`
abbrev pub or_shifted : ℕ → ℕ → ℕ
or_shifted k num = bit_or num (num / 2 ^ k)

-- The shifts of round_up_power2. `sizebits` is sizeof(num), which counts bytes.
pub fill_ones : ℕ → ℕ
fill_ones num =
    let sizebits = sizeof_size_t in
    let filled = or_shifted 16 (or_shifted 8 (or_shifted 4 (or_shifted 2 (or_shifted 1 num)))) in
    if ltb 32 sizebits then or_shifted 32 filled else filled

pub round_up_power2 : ℕ → ℕ
round_up_power2 num = if num == 0 then 1 else add_size (fill_ones (num - 1)) 1

pub is_power_of_2 : ℕ → Bool
is_power_of_2 num = bit_and num (sub_size num 1) == 0

-- std::gcd: the algorithm of Euclid, with fuel above the second number.
pub gcd : ℕ → ℕ → ℕ → ℕ
gcd zero a b = a
gcd (suc fuel) a zero = a
gcd (suc fuel) a (suc b) = gcd fuel (suc b) (a % suc b)

-- lcm at size_t: the product wraps before it is divided.
pub lcm : ℕ → ℕ → ℕ
lcm first second =
    if first == 0 || second == 0 then 0 else mul_size first second / gcd (suc second) first second
