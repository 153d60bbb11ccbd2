-- ===== src/Circbuff/Reader.antt =====
-- include/plz/circbuff/reader.hpp
pub mod Copy
pub mod Faults
use cplease.Base.{
  ℕ, ◌+◌, ◌-◌, min, Bool, ltb, ◌==◌, ◌&&◌, if◌then◌else◌, List, [], ◌∷◌, length, take, drop,
  get_elem?, replicate, Option, none, some, ◌>>=◌,
}
use cplease.Word.{add_size, sub_size}
use cplease.Memory.{Func, call_at, load_region, store_region}
use cplease.Circbuff.{
  Cursor, Chunk, new_cursor, advance, slot, has_min_contiguous_size, in_two_chunks,
}

abbrev pub Reader {ℓ} : Type ℓ → Type ℓ
Reader A = Cursor A

-- The constructor and make_reader; `d` is T().
abbrev pub make_reader {ℓ} : {A : Type ℓ} → ℕ → A → Reader A
make_reader min_contiguous_size d = new_cursor min_contiguous_size d

-- The copy constructor and the copy assignment: the index is copied, the staging buffer is new.
pub copy_reader {ℓ} : {A : Type ℓ} → ℕ → A → Reader A → Reader A
copy_reader min_contiguous_size d other = record (make_reader min_contiguous_size d) {
  index = other.index;
}

module _ {ℓ} {A : Type ℓ} (capacity : ℕ) where
  pub peek : Reader A → List A → Option A
  peek r mem = get_elem? mem (slot capacity r.index)

  pub get : Reader A → List A → Option (Reader A × A)
  get r mem = do value ← peek r mem; some (advance r 1, value)

  -- The spans, as the offset of their first element in the buffer and their size.
  pub get_span_0 : Reader A → ℕ × ℕ
  get_span_0 r = (slot capacity r.index, capacity)

  pub get_span_1 : Reader A → ℕ × ℕ
  get_span_1 r = (0, sub_size capacity (slot capacity r.index))

module _ {ℓ κ} {A : Type ℓ} {S : Type κ} (min_contiguous_size : ℕ) (func : Func S A) where
  -- count elements are copied to the staging buffer, and func is handed all of that.
  pub has_min_contiguous_size_func_wrapper : Chunk S A
  has_min_contiguous_size_func_wrapper s r mem index count =
      if ltb count min_contiguous_size
      then (do
        copied ← load_region mem index count
        staged ← store_region r.min_contiguous_buffer 0 copied
        (s', staged', n) ← call_at func s staged 0 min_contiguous_size
        some (s', record r { min_contiguous_buffer = staged' }, mem, min n count))
      else none

  pub direct : Chunk S A
  direct s r mem index count = do
    (s', mem', n) ← call_at func s mem index count
    some (s', r, mem', n)

  pub read_chunk : Chunk S A
  read_chunk s r mem index count =
      if has_min_contiguous_size min_contiguous_size
      then if ltb count min_contiguous_size
        then has_min_contiguous_size_func_wrapper s r mem index count
        else direct s r mem index count
      else direct s r mem index count

module _ {ℓ κ} {A : Type ℓ} {S : Type κ} (capacity min_contiguous_size : ℕ) where
  pub read_using : Func S A → S → Reader A → List A → ℕ → Option (S × Reader A × List A × ℕ)
  read_using func s r mem count =
      in_two_chunks capacity (read_chunk min_contiguous_size func) s r mem count

-- peek_using leaves the reader as it is, and never stages.
pub peek_using {ℓ κ} :
    {A : Type ℓ} {S : Type κ} (capacity : ℕ)
    → Func S A
    → S
    → Reader A
    → List A
    → ℕ
    → Option (S × List A × ℕ)
peek_using capacity func s r mem count = do
  let index = slot capacity r.index
  let size_to_end = min count (sub_size capacity index)
  (s1, mem1, size_1) ← call_at func s mem index size_to_end
  if (size_1 == size_to_end) && ltb size_1 count
      then (do
        (s2, mem2, size_2) ←
            call_at func s1 mem1 (slot capacity (add_size r.index size_1)) (count - size_1)
        some (s2, mem2, add_size size_1 size_2))
      else some (s1, mem1, size_1)

-- The lambda of read and peek, which has captured the destination and its offset there.
pub copy_to {ℓ} : {A : Type ℓ} → Func (ℕ × List A) A
copy_to (offset, values) region = do
  let size = length region
  values' ← store_region values offset region
  some ((offset + size, values'), region, size)

module _ {ℓ} {A : Type ℓ} (capacity min_contiguous_size : ℕ) where
  -- `read(values, count)`: the reader and the destination array.
  pub read_into : Reader A → List A → List A → ℕ → Option (Reader A × List A)
  read_into r mem values count = do
    ((offset, values'), r', mem', size) ←
        read_using capacity min_contiguous_size copy_to (0, values) r mem count
    some (r', values')

  -- `read(count)`, into a vector of count values T()
  pub read : A → Reader A → List A → ℕ → Option (Reader A × List A)
  read d r mem count = read_into r mem (replicate count d) count

module _ {ℓ} {A : Type ℓ} (capacity : ℕ) where
  pub peek_into : Reader A → List A → List A → ℕ → Option (List A)
  peek_into r mem values count = do
    ((offset, values'), mem', size) ← peek_using capacity copy_to (0, values) r mem count
    some values'

  pub peek_values : A → Reader A → List A → ℕ → Option (List A)
  peek_values d r mem count = peek_into r mem (replicate count d) count
