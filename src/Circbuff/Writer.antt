-- ===== src/Circbuff/Writer.antt =====
-- include/plz/circbuff/writer.hpp
pub mod Copy
pub mod Faults
use cplease.Base.{
  ℕ, ◌+◌, ◌-◌, min, Bool, ltb, ◌==◌, ◌&&◌, if◌then◌else◌, List, [], ◌∷◌, length, take, Option, none,
  some, ◌>>=◌,
}
use cplease.Word.{add_size}
use cplease.Memory.{Func, call_at, load_region, store_region}
use cplease.Circbuff.{
  Cursor, Chunk, new_cursor, advance, slot, has_min_contiguous_size, in_two_chunks,
}

abbrev pub Writer {ℓ} : Type ℓ → Type ℓ
Writer A = Cursor A

-- The constructor and make_writer; `d` is T().
abbrev pub make_writer {ℓ} : {A : Type ℓ} → ℕ → A → Writer A
make_writer min_contiguous_size d = new_cursor min_contiguous_size d

module _ {ℓ} {A : Type ℓ} (capacity : ℕ) where
  -- Both overloads of put: a copy and a move leave the same value in the buffer.
  pub put : Writer A → List A → A → Option (Writer A × List A)
  put w mem value = do
    mem' ← store_region mem (slot capacity w.index) (value ∷ [])
    some (advance w 1, mem')

module _ {ℓ κ} {A : Type ℓ} {S : Type κ} (min_contiguous_size : ℕ) (func : Func S A) where
  -- func fills the staging buffer, and what it says it wrote is copied, up to count.
  pub has_min_contiguous_size_func_wrapper : Chunk S A
  has_min_contiguous_size_func_wrapper s w mem index count =
      if ltb count min_contiguous_size
      then (do
        (s', staged, n) ← call_at func s w.min_contiguous_buffer 0 min_contiguous_size
        let written = min n count
        mem' ← store_region mem index (take written staged)
        some (s', record w { min_contiguous_buffer = staged }, mem', written))
      else none

  pub direct : Chunk S A
  direct s w mem index count = do
    (s', mem', n) ← call_at func s mem index count
    some (s', w, mem', n)

  pub write_chunk : Chunk S A
  write_chunk s w mem index count =
      if has_min_contiguous_size min_contiguous_size
      then if ltb count min_contiguous_size
        then has_min_contiguous_size_func_wrapper s w mem index count
        else direct s w mem index count
      else direct s w mem index count

module _ {ℓ κ} {A : Type ℓ} {S : Type κ} (capacity min_contiguous_size : ℕ) where
  pub write_using : Func S A → S → Writer A → List A → ℕ → Option (S × Writer A × List A × ℕ)
  write_using func s w mem count =
      in_two_chunks capacity (write_chunk min_contiguous_size func) s w mem count

-- The lambda of write, which has captured the source array and its offset there.
pub copy_from {ℓ} : {A : Type ℓ} → List A → Func ℕ A
copy_from values offset region = do
  let size = length region
  copied ← load_region values offset size
  some (offset + size, copied, size)

module _ {ℓ} {A : Type ℓ} (capacity min_contiguous_size : ℕ) where
  pub write : Writer A → List A → List A → ℕ → Option (Writer A × List A)
  write w mem values count = do
    (offset, w', mem', size) ←
        write_using capacity min_contiguous_size (copy_from values) 0 w mem count
    some (w', mem')
