-- ===== src/Circbuff/Reader/Copy.antt =====
-- What read, get and peek of reader.hpp give: the values from the index on.
use native.Mathlib.Decide.{dec_le}
use native.Mathlib.Nat.{mod-lt}
use cplease.Base.{
  ℕ, ◌+◌, ◌-◌, ◌%◌, ◌≤◌, ◌<◌, ◌≡◌, refl, sym, ap, ap₂, ◌∙◌, List, ◌++◌, length, take, drop, get_or,
  replicate, get_elem?-eq-get_or, length-take, length-drop, length-replicate, drop-all, append-nil,
  some, ◌>>=◌, arith,
}
use cplease.Memory.{Func, overwrite_at}
use cplease.Memory.Laws.{
  store_region_fits, overwrite_at_same, overwrite_at_start, overwrite_at_twice, call_at_lem,
  length-overwrite_at,
}
use cplease.Circbuff.{Chunk, advance, slot, in_two_chunks}
use cplease.Circbuff.Slots.{IsBuffer, slot_lem, slot-lt, capacity-bounds}
use cplease.Circbuff.Chunks.{room, in_one_chunk, in_two_chunks_lem}
use cplease.Circbuff.Window.{window, window-eq-take-drop, window_wrapped}
use cplease.Circbuff.Reader.{
  Reader, get, peek, read_into, read, read_using, read_chunk, direct, copy_to, peek_using,
}

module _ {ℓ} {A : Type ℓ} where
  length-part :
      (offset n : ℕ) (xs : List A) → offset + n ≤ length xs → length (take n (drop offset xs)) ≡ n
  length-part offset n xs h = omega (arith, length-take n (drop offset xs), length-drop offset xs)

  copy_to_region :
      (offset n : ℕ) (values region : List A)
      → length region ≡ n
      → offset + n ≤ length values
      → copy_to (offset, values) region
        ≡ some ((offset + n, overwrite_at values offset region), region, n)
  unfolding copy_to
  copy_to_region offset n values region long fits =
      rw (store_region_fits values offset region (omega (arith, long)), ◌>>=◌)
        (ap (λ k. some ((offset + k, overwrite_at values offset region), region, k)) long)

  -- One call of the lambda copies the n values of a part of the buffer.
  read_chunk_copies :
      (r : Reader A) (mem values : List A) (offset index n : ℕ)
      → offset + n ≤ length values
      → index + n ≤ length mem
      → read_chunk 0 copy_to (offset, values) r mem index n
        ≡ some ((offset + n, overwrite_at values offset (take n (drop index mem))), r, mem, n)
  unfolding read_chunk direct
  read_chunk_copies r mem values offset index n hv hm =
      let region = take n (drop index mem) in
      let long : length region ≡ n = length-part index n mem hm in
      rw
        (
          call_at_lem copy_to (offset, values) (offset + n, overwrite_at values offset region) mem
              region index n n hm (copy_to_region offset n values region long hv)
              (omega (arith, long)),
          ◌>>=◌,
        )
        (ap (λ m. some ((offset + n, overwrite_at values offset region), r, m, n))
          (overwrite_at_same mem index n))

-- Without a staging buffer, read of at most a whole round of values puts the values from the index
-- on at the start of the destination, leaves the rest of it, and moves the index on.
pub read_into_lem {ℓ} :
    {A : Type ℓ} (capacity : ℕ) (d : A) (r : Reader A) (mem values : List A) (count : ℕ)
    → IsBuffer capacity mem
    → count ≤ capacity
    → count ≤ length values
    → read_into capacity 0 r mem values count
      ≡ some (advance r count, window capacity d mem r.index count ++ drop count values)
unfolding read_into read_using
read_into_lem {A = A} capacity d r mem values count b le long =
    elim (dec_le count (room capacity i)) [
      | yes fits ↦
          let done =
            in_one_chunk capacity chunk (0, values)
              (0 + count, overwrite_at values 0 (take count (drop at mem))) r r mem mem count b fits
              (read_chunk_copies r mem values 0 at count (omega arith)
                (omega (arith, b.size, inside))) in
          rw (done, ◌>>=◌) (ap (λ v. some (advance r count, v)) (once (omega arith)))
      | no more ↦
          let m = room capacity i in
          let first = take m (drop at mem) in
          let second = take (count - m) (drop 0 mem) in
          let values1 = overwrite_at values 0 first in
          let done =
            in_two_chunks_lem capacity chunk (0, values) (0 + m, values1)
              (0 + m + (count - m), overwrite_at values1 (0 + m) second) r mem mem mem count b
              (omega arith) le
              (read_chunk_copies r mem values 0 at m (omega arith) (omega (arith, b.size, inside)))
              (read_chunk_copies (advance r m) mem values1 (0 + m) 0 (count - m)
                (omega (arith, length-overwrite_at values 0 first)) (omega (arith, b.size))) in
          rw (done, ◌>>=◌) (ap (λ v. some (advance r count, v)) (twice (omega arith)))
    ]
  where
    i : ℕ
    i = r.index

    at : ℕ
    at = i % capacity

    inside : at < capacity
    inside = mod-lt i (capacity-bounds b).0

    chunk : Chunk (ℕ × List A) A
    chunk = read_chunk 0 copy_to

    once :
        count ≤ room capacity i
        → overwrite_at values 0 (take count (drop at mem))
          ≡ window capacity d mem i count ++ drop count values
    once fits =
        let n : length (take count (drop at mem)) ≡ count =
          length-part at count mem (omega (arith, b.size, inside)) in
        overwrite_at_start values (take count (drop at mem)) (omega (arith, n))
        ∙ ap₂ (λ xs k. xs ++ drop k values)
            (sym (
              window-eq-take-drop capacity d mem i count b.size (capacity-bounds b).0
                (omega (arith, inside))))
            n

    twice :
        room capacity i < count
        → overwrite_at
            (overwrite_at values 0 (take (room capacity i) (drop at mem)))
            (0 + room capacity i)
            (take (count - room capacity i) mem)
          ≡ window capacity d mem i count ++ drop count values
    twice more =
        let m = room capacity i in
        let xs = take m (drop at mem) in
        let ys = take (count - m) mem in
        let lx : 0 + m ≡ length xs =
          omega (arith, length-part at m mem (omega (arith, b.size, inside))) in
        let ly : length ys ≡ count - m = omega (arith, length-take (count - m) mem, b.size) in
        let total : length xs + length ys ≡ count = omega (arith, lx, ly) in
        let parts : m + (count - m) ≡ count = omega arith in
        ap (λ k. overwrite_at (overwrite_at values 0 xs) k ys) lx
        ∙ overwrite_at_twice values xs ys (omega (arith, total))
        ∙ ap₂ (λ zs k. zs ++ drop k values)
            (sym (
                window_wrapped capacity d mem i m (count - m) (capacity-bounds b).0 b.size
                  (omega (arith, inside)) (omega arith))
              ∙ ap (window capacity d mem i) parts)
            total

-- read of at most a whole round of values returns the values from the index on.
pub read_lem {ℓ} :
    {A : Type ℓ} (capacity : ℕ) (d : A) (r : Reader A) (mem : List A) (count : ℕ)
    → IsBuffer capacity mem
    → count ≤ capacity
    → read capacity 0 d r mem count ≡ some (advance r count, window capacity d mem r.index count)
unfolding read
read_lem capacity d r mem count b le =
    read_into_lem capacity d r mem (replicate count d) count b le
      (omega (arith, length-replicate count d))
    ∙ ap (λ v. some (advance r count, window capacity d mem r.index count ++ v))
        (drop-all count (replicate count d) (omega (arith, length-replicate count d)))
    ∙ ap (λ v. some (advance r count, v)) (append-nil _)

-- get returns the value at the slot of the index, and moves the index on by one.
pub get_lem {ℓ} :
    {A : Type ℓ} (capacity : ℕ) (d : A) (r : Reader A) (mem : List A)
    → IsBuffer capacity mem
    → get capacity r mem ≡ some (advance r 1, get_or mem (r.index % capacity) d)
unfolding get peek
get_lem capacity d r mem b =
    rw
      (
        get_elem?-eq-get_or mem (slot capacity r.index) d
            (omega (arith, slot-lt b r.index, b.size)),
        slot_lem b r.index,
        ◌>>=◌,
      )
      refl

-- peek_using hands func the parts that read_using without a staging buffer does, and returns what
-- it does; only the reader stays where it is.
pub peek_using-eq-read_using {ℓ κ} :
    {A : Type ℓ} {S : Type κ} (capacity : ℕ) (func : Func S A) (s : S) (r : Reader A) (mem : List A)
    (count : ℕ)
    → peek_using capacity func s r mem count
      ≡ (read_using capacity 0 func s r mem count >>= λ done. some (done.0, done.2, done.3))
unfolding peek_using read_using in_two_chunks read_chunk direct
peek_using-eq-read_using capacity func s r mem count = ground arith
