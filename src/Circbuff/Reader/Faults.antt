-- ===== src/Circbuff/Reader/Faults.antt =====
-- Where reader.hpp leaves its arrays: the staging buffer, and the spans.
use native.Mathlib.Nat.{mod-lt}
use cplease.Base.{
  ℕ, ◌+◌, ◌%◌, ◌≤◌, ◌<◌, min, ◌≡◌, ◌↔◌, refl, List, length, take, drop, length-take, length-drop,
  lt→ltb, none, ◌>>=◌, arith,
}
use cplease.Memory.{overwrite_at}
use cplease.Memory.Laws.{
  length-overwrite_at, load_region_fits, store_region_fits, store_region_outside, call_at_faults,
}
use cplease.Circbuff.{slot}
use cplease.Circbuff.Slots.{IsBuffer, capacity-bounds, slot_lem}
use cplease.Circbuff.Chunks.{room, first_chunk_faults}
use cplease.Circbuff.Reader.{
  Reader, read_into, read_using, read_chunk, copy_to, has_min_contiguous_size_func_wrapper,
  get_span_0, get_span_1,
}

read_chunk_staged_faults {ℓ} :
    {A : Type ℓ} (min_contiguous_size : ℕ) (r : Reader A) (mem values : List A) (index n : ℕ)
    → length r.min_contiguous_buffer ≡ min_contiguous_size
    → n < min_contiguous_size
    → index + n ≤ length mem
    → length values < min_contiguous_size
    → read_chunk min_contiguous_size copy_to (0, values) r mem index n ≡ none
unfolding read_chunk has_min_contiguous_size_func_wrapper copy_to
read_chunk_staged_faults size r mem values index n staging few fits short =
    let copied = take n (drop index mem) in
    let long : length copied ≡ n =
      omega (arith, length-take n (drop index mem), length-drop index mem) in
    let staged = overwrite_at r.min_contiguous_buffer 0 copied in
    let kept : length staged ≡ size =
      omega (arith, length-overwrite_at r.min_contiguous_buffer 0 copied, staging) in
    let whole : length (take size (drop 0 staged)) ≡ size =
      omega (arith, length-take size (drop 0 staged), kept) in
    let over : copy_to (0, values) (take size (drop 0 staged)) ≡ none =
      rw (store_region_outside values 0 (take size (drop 0 staged)) (omega (arith, whole)), ◌>>=◌)
        refl in
    rw (lt→ltb n size few, lt→ltb 0 size (omega arith))
      (rw (load_region_fits mem index n fits, ◌>>=◌)
        (rw
          (store_region_fits r.min_contiguous_buffer 0 copied (omega (arith, long, staging)), ◌>>=◌)
          (rw (call_at_faults copy_to (0, values) staged 0 size (omega (arith, kept)) over, ◌>>=◌)
            refl)))

-- With a staging buffer, read hands its destination a whole staging buffer of values, however few
-- are to be read: a shorter destination is written past its end.
pub read_staged_overflows {ℓ} :
    {A : Type ℓ} (capacity min_contiguous_size : ℕ) (r : Reader A) (mem values : List A) (count : ℕ)
    → IsBuffer capacity mem
    → length r.min_contiguous_buffer ≡ min_contiguous_size
    → min count (room capacity r.index) < min_contiguous_size
    → length values < min_contiguous_size
    → read_into capacity min_contiguous_size r mem values count ≡ none
unfolding read_into read_using
read_staged_overflows capacity min_contiguous_size r mem values count b staging few short =
    let n = min count (room capacity r.index) in
    let fits : r.index % capacity + n ≤ length mem =
      omega (arith, b.size, mod-lt r.index (capacity-bounds b).0) in
    rw
      (
        first_chunk_faults capacity (read_chunk min_contiguous_size copy_to) (0, values) r mem count
            b
            (read_chunk_staged_faults min_contiguous_size r mem values (r.index % capacity) n
              staging few fits short),
        ◌>>=◌,
      )
      refl

-- A span, as its first element and its size, lies in an array of capacity elements.
abbrev pub IsInside : ℕ → ℕ × ℕ → Type 0
IsInside capacity span = span.0 + span.1 ≤ capacity

-- get_span_0 lies in the buffer exactly while the slot of the index is 0; get_span_1 always does.
pub get_span-IsInside {ℓ} :
    {A : Type ℓ} (capacity : ℕ) (r : Reader A) (mem : List A)
    → IsBuffer capacity mem
    → (IsInside capacity (get_span_0 capacity r) ↔ (r.index % capacity ≡ 0))
      × IsInside capacity (get_span_1 capacity r)
unfolding get_span_0 get_span_1
get_span-IsInside capacity r mem b =
    let at : slot capacity r.index ≡ r.index % capacity = slot_lem b r.index in
    let inside : r.index % capacity < capacity = mod-lt r.index (capacity-bounds b).0 in
    (
      (λ h. omega (arith, at, h), λ h. omega (arith, at, h)),
      omega (arith, at, inside, capacity-bounds b),
    )
