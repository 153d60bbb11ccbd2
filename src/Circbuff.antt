-- ===== src/Circbuff.antt =====
-- include/plz/circbuff: the state that writer.hpp and reader.hpp have alike, and the masked index.
-- The buffer is an argument of each operation, since all writers and readers of it share it.
pub mod Writer
pub mod Reader
mod Examples
pub mod Fifo
pub mod Slots
pub mod Chunks
pub mod Window
use cplease.Base.{
  ℕ, ◌+◌, ◌-◌, bit_and, min, Bool, ltb, ◌==◌, ◌&&◌, if◌then◌else◌, List, replicate, Option, some,
  ◌>>=◌,
}
use cplease.Word.{add_size, sub_size}

-- `m_index`, and the array behind `m_min_contiguous_buffer` (empty for the null pointer).
pub record Cursor {ℓ} (A : Type ℓ) : Type ℓ where
  pub index : ℕ
  pub min_contiguous_buffer : List A

-- What a writer and a reader are constructed with: make_unique makes an array of T().
abbrev pub new_cursor {ℓ} : {A : Type ℓ} → ℕ → A → Cursor A
new_cursor min_contiguous_size d = record {
  index = 0;
  min_contiguous_buffer = replicate min_contiguous_size d;
}

-- `m_index & g_modmask`, where `g_modmask = get_buffer_capacity() - 1`
pub slot : ℕ → ℕ → ℕ
slot capacity index = bit_and index (sub_size capacity 1)

abbrev pub has_min_contiguous_size : ℕ → Bool
has_min_contiguous_size min_contiguous_size = ltb 0 min_contiguous_size

-- What a call of func on one contiguous part of the buffer does: the captured values, the writer or
-- reader, the buffer, and how many elements func took.
abbrev pub Chunk {ℓ κ} : Type κ → Type ℓ → Type (ℓ ⊔ κ)
Chunk S A = S → Cursor A → List A → ℕ → ℕ → Option (S × Cursor A × List A × ℕ)

abbrev pub advance {ℓ} : {A : Type ℓ} → Cursor A → ℕ → Cursor A
advance c n = record c { index = add_size c.index n }

-- The body of write_using and of read_using, over how each handles one part: up to the end of the
-- buffer, and if all of that was taken, on from its start.
pub in_two_chunks {ℓ κ} :
    {A : Type ℓ} {S : Type κ} (capacity : ℕ)
    → Chunk S A
    → S
    → Cursor A
    → List A
    → ℕ
    → Option (S × Cursor A × List A × ℕ)
in_two_chunks capacity chunk s c mem count = do
  let index = slot capacity c.index
  let size_to_end = min count (sub_size capacity index)
  (s1, c1, mem1, size_1) ← chunk s c mem index size_to_end
  let c2 = advance c1 size_1
  if (size_1 == size_to_end) && ltb size_1 count
      then (do
        (s3, c3, mem3, size_2) ← chunk s1 c2 mem1 (slot capacity c2.index) (count - size_1)
        some (s3, advance c3 size_2, mem3, add_size size_1 size_2))
      else some (s1, c2, mem1, size_1)
