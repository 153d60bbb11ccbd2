-- ===== src/Word.antt =====
-- size_t, on a platform where sizeof(size_t) is 8: arithmetic modulo 2^64.
use cplease.Base.{ℕ, ◌+◌, ◌-◌, ◌*◌, ◌%◌, ◌^◌, ◌<◌, ◌≡◌, arith}

-- sizeof(size_t), in bytes
abbrev pub sizeof_size_t : ℕ
sizeof_size_t = 8

abbrev pub size_mod : ℕ
size_mod = 2 ^ 64

abbrev pub add_size : ℕ → ℕ → ℕ
add_size a b = (a + b) % size_mod

abbrev pub sub_size : ℕ → ℕ → ℕ
sub_size a b = (a + size_mod - b) % size_mod

abbrev pub mul_size : ℕ → ℕ → ℕ
mul_size a b = (a * b) % size_mod

-- A difference of wrapped indices is the distance that was travelled.
pub sub_size-add_size : (a n : ℕ) → a < size_mod → n < size_mod → sub_size (add_size a n) a ≡ n
sub_size-add_size a n p q = omega arith
