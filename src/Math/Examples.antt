-- ===== src/Math/Examples.antt =====
-- math.hpp at concrete numbers.
use cplease.Base.{ℕ, ◌≡◌, refl, ◌↔◌, ◌⊎◌, true, false, arith}
use cplease.Math.{round_up_power2, fill_ones, is_power_of_2}
use cplease.Math.{lcm, gcd}
use cplease.Math.Lcm.{lcm_lem}
use Prim.Native.Nat.{◌∣◌}
use native.Mathlib.Nat.{dvd-mul_right}
use cplease.Math.PowerOf2.{IsPower, is_power_of_2_iff}
use cplease.Math.RoundUp.{IsNextPower, round_up_power2_lem}

round_up_some :
    (round_up_power2 1000 ≡ 1024) × (round_up_power2 1024 ≡ 1024) × (round_up_power2 0 ≡ 1)
unfolding round_up_power2 fill_ones
round_up_some = (refl, refl, refl)

is_power_some :
    (is_power_of_2 0 ≡ true) × (is_power_of_2 4096 ≡ true) × (is_power_of_2 4097 ≡ false)
unfolding is_power_of_2
is_power_some = (refl, refl, refl)

is_power_of_2_iff_example : (is_power_of_2 64 ≡ true) ↔ ((◌≡◌ {A = ℕ} 64 0) ⊎ IsPower 64)
is_power_of_2_iff_example = is_power_of_2_iff 64 (omega arith)

round_up_power2_lem_example : IsNextPower 1000 (round_up_power2 1000)
round_up_power2_lem_example = round_up_power2_lem 1000 (omega arith)

lcm_some : (lcm 12 18 ≡ 36) × (lcm 7 0 ≡ 0) × (lcm 5 7 ≡ 35)
unfolding lcm gcd
lcm_some = (refl, refl, refl)

lcm_lem_example : (12 ∣ lcm 12 18) × (18 ∣ lcm 12 18) × (lcm 12 18 ∣ 72)
lcm_lem_example = lcm_lem 12 18 72 (omega arith) (dvd-mul_right 12 6) (dvd-mul_right 18 4)
