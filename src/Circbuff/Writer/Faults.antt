-- ===== src/Circbuff/Writer/Faults.antt =====
-- Where write of writer.hpp leaves its arrays: too many values, and the staging buffer.
use native.Mathlib.Nat.{mod-lt}
use cplease.Base.{
  ℕ, ◌+◌, ◌-◌, ◌%◌, ◌≤◌, ◌<◌, min, ◌≡◌, ◌∙◌, refl, List, length, take, drop, length-take, lt→ltb,
  none, ◌>>=◌, arith,
}
use cplease.Memory.{overwrite_at}
use cplease.Memory.Laws.{length-overwrite_at, load_region_outside, call_at_outside, call_at_faults}
use cplease.Circbuff.{advance}
use cplease.Circbuff.Slots.{IsBuffer, capacity-bounds}
use cplease.Circbuff.Chunks.{room, first_chunk_faults, second_chunk_faults}
use cplease.Circbuff.Writer.{
  Writer, write, write_using, write_chunk, copy_from, direct, has_min_contiguous_size_func_wrapper,
}
use cplease.Circbuff.Writer.Copy.{write_chunk_copies}

write_chunk_outside {ℓ} :
    {A : Type ℓ} (w : Writer A) (mem values : List A) (offset n : ℕ)
    → length mem < n
    → write_chunk 0 (copy_from values) offset w mem 0 n ≡ none
unfolding write_chunk direct
write_chunk_outside w mem values offset n h =
    rw (call_at_outside (copy_from values) offset mem 0 n (omega arith), ◌>>=◌) refl

-- write of so much more than a round that the second part does not fit runs past the end of the
-- buffer: nothing checks count.
pub write_overruns {ℓ} :
    {A : Type ℓ} (capacity : ℕ) (w : Writer A) (mem values : List A) (count : ℕ)
    → IsBuffer capacity mem
    → capacity + room capacity w.index < count
    → count ≤ length values
    → write capacity 0 w mem values count ≡ none
unfolding write write_using
write_overruns {A = A} capacity w mem values count b more long =
    let m = room capacity w.index in
    let at = w.index % capacity in
    let inside : at < capacity = mod-lt w.index (capacity-bounds b).0 in
    let mem1 = overwrite_at mem at (take m values) in
    let size1 : length mem1 ≡ capacity = length-overwrite_at mem at (take m values) ∙ b.size in
    rw
      (
        second_chunk_faults capacity (write_chunk 0 (copy_from values)) 0 (0 + m) w mem mem1 count b
            (omega arith)
            (write_chunk_copies values w mem 0 at m (omega arith) (omega (arith, b.size, inside)))
            (write_chunk_outside (advance w m) mem1 values (0 + m) (count - m)
              (omega (arith, size1))),
        ◌>>=◌,
      )
      refl

write_chunk_staged_faults {ℓ} :
    {A : Type ℓ} (min_contiguous_size : ℕ) (w : Writer A) (mem values : List A) (index n : ℕ)
    → length w.min_contiguous_buffer ≡ min_contiguous_size
    → n < min_contiguous_size
    → length values < min_contiguous_size
    → write_chunk min_contiguous_size (copy_from values) 0 w mem index n ≡ none
unfolding write_chunk has_min_contiguous_size_func_wrapper copy_from
write_chunk_staged_faults size w mem values index n staging few short =
    let staged = w.min_contiguous_buffer in
    let whole : length (take size (drop 0 staged)) ≡ size =
      omega (arith, length-take size (drop 0 staged), staging) in
    let over : copy_from values 0 (take size (drop 0 staged)) ≡ none =
      rw
        (
          load_region_outside values 0 (length (take size (drop 0 staged))) (omega (arith, whole)),
          ◌>>=◌,
        )
        refl in
    rw (lt→ltb n size few, lt→ltb 0 size (omega arith))
      (rw (call_at_faults (copy_from values) 0 staged 0 size (omega (arith, staging)) over, ◌>>=◌)
        refl)

-- With a staging buffer, write asks its source for a whole staging buffer of values, however few
-- are to be written: a shorter source is read past its end.
pub write_staged_overreads {ℓ} :
    {A : Type ℓ} (capacity min_contiguous_size : ℕ) (w : Writer A) (mem values : List A) (count : ℕ)
    → IsBuffer capacity mem
    → length w.min_contiguous_buffer ≡ min_contiguous_size
    → min count (room capacity w.index) < min_contiguous_size
    → length values < min_contiguous_size
    → write capacity min_contiguous_size w mem values count ≡ none
unfolding write write_using
write_staged_overreads capacity min_contiguous_size w mem values count b staging few short =
    let n = min count (room capacity w.index) in
    rw
      (
        first_chunk_faults capacity (write_chunk min_contiguous_size (copy_from values)) 0 w mem
            count b
            (write_chunk_staged_faults min_contiguous_size w mem values (w.index % capacity) n
              staging few short),
        ◌>>=◌,
      )
      refl
