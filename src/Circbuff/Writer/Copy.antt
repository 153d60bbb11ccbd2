-- ===== src/Circbuff/Writer/Copy.antt =====
-- What write and put of writer.hpp leave in the buffer.
use native.Mathlib.Decide.{dec_le}
use native.Mathlib.Nat.{mod-lt}
use cplease.Base.{
  ℕ, ◌+◌, ◌-◌, ◌%◌, ◌≤◌, ◌<◌, ◌≡◌, refl, sym, ap, ◌∙◌, List, [], ◌∷◌, ◌++◌, length, take, drop,
  length-take, length-drop, take-add, some, ◌>>=◌, arith,
}
use cplease.Memory.{overwrite_at}
use cplease.Memory.Laws.{load_region_fits, store_region_fits, length-overwrite_at, call_at_lem}
use cplease.Circbuff.{Chunk, advance}
use cplease.Circbuff.Slots.{IsBuffer, slot_lem, capacity-bounds}
use cplease.Circbuff.Chunks.{room, in_one_chunk, in_two_chunks_lem}
use cplease.Circbuff.Window.{put_seq, put_seq-eq-overwrite_at, put_seq_wrapped}
use cplease.Circbuff.Writer.{Writer, put, write, write_using, write_chunk, copy_from, direct}

module _ {ℓ} {A : Type ℓ} (values : List A) where
  copy_from_region :
      (offset : ℕ) (region : List A)
      → offset + length region ≤ length values
      → copy_from values offset region
        ≡ some (offset + length region, take (length region) (drop offset values), length region)
  unfolding copy_from
  copy_from_region offset region h = rw (load_region_fits values offset (length region) h) refl

  length-part :
      (offset n : ℕ) (xs : List A) → offset + n ≤ length xs → length (take n (drop offset xs)) ≡ n
  length-part offset n xs h = omega (arith, length-take n (drop offset xs), length-drop offset xs)

  -- One call of the lambda copies the next n of the values.
  pub write_chunk_copies :
      (w : Writer A) (mem : List A) (offset index n : ℕ)
      → offset + n ≤ length values
      → index + n ≤ length mem
      → write_chunk 0 (copy_from values) offset w mem index n
        ≡ some (offset + n, w, overwrite_at mem index (take n (drop offset values)), n)
  unfolding write_chunk direct
  write_chunk_copies w mem offset index n hv hm =
      let region = take n (drop index mem) in
      let long : length region ≡ n = length-part index n mem hm in
      let copied : length (take n (drop offset values)) ≡ n = length-part offset n values hv in
      let step : copy_from values offset region
          ≡ some (offset + n, take n (drop offset values), n) =
        copy_from_region offset region (omega (arith, long))
        ∙ ap (λ k. some (offset + k, take k (drop offset values), k)) long in
      rw
        (
          call_at_lem (copy_from values) offset (offset + n) mem (take n (drop offset values)) index
              n n hm step (omega (arith, copied)),
          ◌>>=◌,
        )
        refl

-- Without a staging buffer, write of at most a whole round of values puts each at the slot of its
-- index, and moves the index on by their number.
pub write_lem {ℓ} :
    {A : Type ℓ} (capacity : ℕ) (w : Writer A) (mem values : List A) (count : ℕ)
    → IsBuffer capacity mem
    → count ≤ capacity
    → count ≤ length values
    → write capacity 0 w mem values count
      ≡ some (advance w count, put_seq capacity mem w.index (take count values))
unfolding write write_using
write_lem {A = A} capacity w mem values count b le long = elim (dec_le count (room capacity i)) [
  | yes fits ↦
      let mem1 = overwrite_at mem at (take count values) in
      let done = in_one_chunk capacity chunk 0 (0 + count) w w mem mem1 count b fits (
        write_chunk_copies values w mem 0 at count (omega arith) (omega (arith, b.size, inside))) in
      rw (done, ◌>>=◌)
        (ap (λ m. some (advance w count, m))
          (sym (
            put_seq-eq-overwrite_at capacity mem i (take count values)
              (omega (arith, length-take count values, inside)))))
  | no more ↦
      let m = room capacity i in
      let first = take m values in
      let second = take (count - m) (drop (0 + m) values) in
      let mem1 = overwrite_at mem at first in
      let size1 : length mem1 ≡ capacity = length-overwrite_at mem at first ∙ b.size in
      let done =
        in_two_chunks_lem capacity chunk 0 (0 + m) (0 + m + (count - m)) w mem mem1
          (overwrite_at mem1 0 second) count b (omega arith) le
          (write_chunk_copies values w mem 0 at m (omega arith) (omega (arith, b.size, inside)))
          (write_chunk_copies values (advance w m) mem1 (0 + m) 0 (count - m) (omega arith)
            (omega (arith, size1))) in
      rw (done, ◌>>=◌) (ap (λ x. some (advance w count, x)) (sym (wrapped (omega arith))))
]
  where
    i : ℕ
    i = w.index

    at : ℕ
    at = i % capacity

    inside : at < capacity
    inside = mod-lt i (capacity-bounds b).0

    chunk : Chunk ℕ A
    chunk = write_chunk 0 (copy_from values)

    wrapped :
        room capacity i < count
        → put_seq capacity mem i (take count values)
          ≡ overwrite_at
              (overwrite_at mem at (take (room capacity i) values))
              0
              (take (count - room capacity i) (drop (0 + room capacity i) values))
    wrapped more =
        let m = room capacity i in
        let parts : count ≡ m + (count - m) = omega arith in
        let offset : m ≡ 0 + m = omega arith in
        ap (λ k. put_seq capacity mem i (take k values)) parts
        ∙ ap (put_seq capacity mem i) (take-add m (count - m) values)
        ∙ ap (λ k. put_seq capacity mem i (take m values ++ take (count - m) (drop k values)))
            offset
        ∙ put_seq_wrapped capacity mem i (take m values) (take (count - m) (drop (0 + m) values))
            (capacity-bounds b).0 (omega (arith, length-take m values, inside))
            (omega (arith, length-take (count - m) (drop (0 + m) values)))

-- put is write of one value.
pub put_lem {ℓ} :
    {A : Type ℓ} (capacity : ℕ) (w : Writer A) (mem : List A) (value : A)
    → IsBuffer capacity mem
    → put capacity w mem value ≡ some (advance w 1, put_seq capacity mem w.index (value ∷ []))
unfolding put
put_lem capacity w mem value b =
    let inside : w.index % capacity + 1 ≤ capacity =
      omega (arith, mod-lt w.index (capacity-bounds b).0) in
    rw
      (
        slot_lem b w.index,
        store_region_fits mem (w.index % capacity) (value ∷ []) (omega (arith, b.size, inside)),
        ◌>>=◌,
      )
      (ap (λ m. some (advance w 1, m))
        (sym (put_seq-eq-overwrite_at capacity mem w.index (value ∷ []) inside)))
