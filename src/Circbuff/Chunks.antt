-- ===== src/Circbuff/Chunks.antt =====
-- How in_two_chunks ends: in one part where the rest of the buffer is enough, else in two.
use native.Mathlib.Nat.{mod-lt, mod-add-mod, mod_self}
use cplease.Base.{
  ℕ, ◌+◌, ◌-◌, ◌%◌, ◌≤◌, ◌<◌, min, ◌≡◌, refl, sym, ap, ◌∙◌, List, some, none, ◌>>=◌, arith,
}
use cplease.Word.{add_size, sub_size}
use cplease.Circbuff.{Cursor, Chunk, advance, slot, in_two_chunks}
use cplease.Circbuff.Slots.{IsBuffer, slot_lem, slot-lt, slot-add_size, capacity-bounds}

-- From the slot of the index to the end of the buffer.
abbrev pub room : ℕ → ℕ → ℕ
room capacity index = capacity - index % capacity

-- Past the room there is the start of the buffer.
slot_at_end {ℓ} :
    {A : Type ℓ} {capacity : ℕ} {mem : List A}
    → IsBuffer capacity mem
    → (i : ℕ) → slot capacity (add_size i (capacity - i % capacity)) ≡ 0
slot_at_end {capacity = capacity} b i =
    slot-add_size b i (capacity - i % capacity)
    ∙ sym (mod-add-mod i capacity (capacity - i % capacity))
    ∙ ap (λ k. k % capacity) whole
    ∙ mod_self capacity
  where
    whole : i % capacity + (capacity - i % capacity) ≡ capacity
    whole = omega (arith, mod-lt i (capacity-bounds b).0)

module _ {ℓ κ} {A : Type ℓ} {S : Type κ} (capacity : ℕ) (chunk : Chunk S A) where
  pub in_one_chunk :
      (s s' : S) (c c' : Cursor A) (mem mem' : List A) (count : ℕ)
      → IsBuffer capacity mem
      → count ≤ room capacity c.index
      → chunk s c mem (c.index % capacity) count ≡ some (s', c', mem', count)
      → in_two_chunks capacity chunk s c mem count ≡ some (s', advance c' count, mem', count)
  unfolding in_two_chunks
  in_one_chunk s s' c c' mem mem' count b le e =
      let size : min count (sub_size capacity (slot capacity c.index)) ≡ count =
        omega (arith, slot_lem b c.index, slot-lt b c.index, capacity-bounds b) in
      ground (arith, size, ap (λ i. chunk s c mem i count) (slot_lem b c.index), e)

  pub in_two_chunks_lem :
      (s s1 s2 : S) (c : Cursor A) (mem mem1 mem2 : List A) (count : ℕ)
      → IsBuffer capacity mem
      → room capacity c.index < count
      → count ≤ capacity
      → chunk s c mem (c.index % capacity) (room capacity c.index)
        ≡ some (s1, c, mem1, room capacity c.index)
      → chunk s1 (advance c (room capacity c.index)) mem1 0 (count - room capacity c.index)
        ≡ some (s2, advance c (room capacity c.index), mem2, count - room capacity c.index)
      → in_two_chunks capacity chunk s c mem count ≡ some (s2, advance c count, mem2, count)
  unfolding in_two_chunks
  in_two_chunks_lem s s1 s2 c mem mem1 mem2 count b lt le e1 e2 =
      let m = room capacity c.index in
      let size : min count (sub_size capacity (slot capacity c.index)) ≡ m =
        omega (arith, slot_lem b c.index, slot-lt b c.index, capacity-bounds b) in
      let total : add_size m (count - m) ≡ count = omega (arith, capacity-bounds b) in
      let moved : add_size (add_size c.index m) (count - m) ≡ add_size c.index count =
        omega (arith, capacity-bounds b) in
      ground (
        arith,
        size,
        ap (λ i. chunk s c mem i m) (slot_lem b c.index),
        e1,
        ap (λ i. chunk s1 (advance c m) mem1 i (count - m)) (slot_at_end b c.index),
        e2,
        total,
        moved,
      )

  -- A fault in the first part is a fault of the whole.
  pub first_chunk_faults :
      (s : S) (c : Cursor A) (mem : List A) (count : ℕ)
      → IsBuffer capacity mem
      → chunk s c mem (c.index % capacity) (min count (room capacity c.index)) ≡ none
      → in_two_chunks capacity chunk s c mem count ≡ none
  unfolding in_two_chunks
  first_chunk_faults s c mem count b e =
      let size : min count (sub_size capacity (slot capacity c.index))
          ≡ min count (room capacity c.index) =
        omega (arith, slot_lem b c.index, slot-lt b c.index, capacity-bounds b) in
      rw (size, slot_lem b c.index) (rw (e, ◌>>=◌) refl)

  -- So is one in the second part, where the first is taken whole.
  pub second_chunk_faults :
      (s s1 : S) (c : Cursor A) (mem mem1 : List A) (count : ℕ)
      → IsBuffer capacity mem
      → room capacity c.index < count
      → chunk s c mem (c.index % capacity) (room capacity c.index)
        ≡ some (s1, c, mem1, room capacity c.index)
      → chunk s1 (advance c (room capacity c.index)) mem1 0 (count - room capacity c.index) ≡ none
      → in_two_chunks capacity chunk s c mem count ≡ none
  unfolding in_two_chunks
  second_chunk_faults s s1 c mem mem1 count b lt e1 e2 =
      let m = room capacity c.index in
      let size : min count (sub_size capacity (slot capacity c.index)) ≡ m =
        omega (arith, slot_lem b c.index, slot-lt b c.index, capacity-bounds b) in
      ground (
        arith,
        size,
        ap (λ i. chunk s c mem i m) (slot_lem b c.index),
        e1,
        ap (λ i. chunk s1 (advance c m) mem1 i (count - m)) (slot_at_end b c.index),
        e2,
      )
