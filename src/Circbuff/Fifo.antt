-- ===== src/Circbuff/Fifo.antt =====
-- A writer and a reader of one buffer: what the reader gets, within a round and past it.
use native.Mathlib.Nat.{add-mod_left}
use cplease.Base.{
  ℕ, ◌+◌, ◌-◌, ◌%◌, ◌≤◌, ◌<◌, ◌≡◌, sym, ap, ap₂, ◌∙◌, List, ◌++◌, length, drop, take-all,
  drop-append_left, Option, some, ◌>>=◌, arith,
}
use cplease.Word.{add_size}
use cplease.Circbuff.{advance}
use cplease.Circbuff.Slots.{IsBuffer, capacity-bounds, add_size-mod}
use cplease.Circbuff.Window.{
  put_seq, window, length-window, window-append, window-put_seq, window-put_seq_before, put_seq-mod,
  length-put_seq,
}
use cplease.Circbuff.Writer.{Writer, write}
use cplease.Circbuff.Writer.Copy.{write_lem}
use cplease.Circbuff.Reader.{Reader, read}
use cplease.Circbuff.Reader.Copy.{read_lem}

module _ {ℓ} {A : Type ℓ} (capacity : ℕ) (d : A) where
  put_seq-IsBuffer :
      (mem : List A) (i : ℕ) (vs : List A)
      → IsBuffer capacity mem
      → IsBuffer capacity (put_seq capacity mem i vs)
  put_seq-IsBuffer mem i vs b = record {
    exponent = b.exponent;
    power = b.power;
    small = b.small;
    size = length-put_seq capacity mem i vs ∙ b.size;
  }

  write_all :
      (w : Writer A) (mem vs : List A)
      → IsBuffer capacity mem
      → length vs ≤ capacity
      → write capacity 0 w mem vs (length vs)
        ≡ some (advance w (length vs), put_seq capacity mem w.index vs)
  write_all w mem vs b le =
      write_lem capacity w mem vs (length vs) b le (omega arith)
      ∙ ap (λ xs. some (advance w (length vs), put_seq capacity mem w.index xs))
          (take-all (length vs) vs (omega arith))

  -- The indices of the writer and the reader, and what is read.
  abbrev pub write_then_read : Writer A → Reader A → List A → List A → Option (ℕ × ℕ × List A)
  write_then_read w r mem vs = do
    (w', mem') ← write capacity 0 w mem vs (length vs)
    (r', values) ← read capacity 0 d r mem' (length vs)
    some (w'.index, r'.index, values)

  abbrev pub write_twice_then_read :
      Writer A → Reader A → List A → List A → List A → Option (List A)
  write_twice_then_read w r mem xs ys = do
    (w1, mem1) ← write capacity 0 w mem xs (length xs)
    (w2, mem2) ← write capacity 0 w1 mem1 ys (length ys)
    (r', values) ← read capacity 0 d r mem2 capacity
    some values

  -- A reader at the index of the writer reads back, in order, what is written, up to a whole round
  -- of it, wherever the index stands and also where it wraps; both end at the same index.
  pub read-write :
      (w : Writer A) (r : Reader A) (mem vs : List A)
      → IsBuffer capacity mem
      → length vs ≤ capacity
      → r.index ≡ w.index
      → write_then_read w r mem vs
        ≡ some (add_size w.index (length vs), add_size w.index (length vs), vs)
  read-write w r mem vs b le same =
      let n = length vs in
      let mem' = put_seq capacity mem w.index vs in
      let got : window capacity d mem' r.index n ≡ vs =
        ap (λ i. window capacity d mem' i n) same
        ∙ window-put_seq capacity d mem w.index vs (capacity-bounds b).0 b.size le in
      rw (write_all w mem vs b le, ◌>>=◌)
        (rw (read_lem capacity d r mem' n (put_seq-IsBuffer mem w.index vs b) le, ◌>>=◌)
          (ap₂ (λ i values. some (add_size w.index n, add_size i n, values)) same got))

  overrun_window :
      (i : ℕ) (mem xs ys : List A)
      → IsBuffer capacity mem
      → length xs ≡ capacity
      → length ys ≤ capacity
      → window capacity d
          (put_seq capacity (put_seq capacity mem i xs) (add_size i (length xs)) ys)
          i
          capacity
        ≡ ys ++ drop (length ys) xs
  overrun_window i mem xs ys b full le =
      let m = length ys in
      let n = capacity - m in
      let mem1 = put_seq capacity mem i xs in
      let size1 : length mem1 ≡ capacity = length-put_seq capacity mem i xs ∙ b.size in
      let pos : 0 < capacity = (capacity-bounds b).0 in
      let sum : m + n ≡ capacity = omega arith in
      let index : add_size i (length xs) % capacity ≡ (capacity + i) % capacity =
        add_size-mod b i (length xs) ∙ ap (λ k. k % capacity) (omega (arith, full)) in
      let far : put_seq capacity mem1 (add_size i (length xs)) ys
          ≡ put_seq capacity mem1 (capacity + i) ys =
        put_seq-mod capacity mem1 (add_size i (length xs)) (capacity + i) ys index in
      let near : put_seq capacity mem1 (capacity + i) ys ≡ put_seq capacity mem1 i ys =
        put_seq-mod capacity mem1 (capacity + i) i ys (add-mod_left capacity i) in
      let old : window capacity d mem1 i m ++ window capacity d mem1 (m + i) n ≡ xs =
        sym (window-append capacity d mem1 i m n)
        ∙ ap (window capacity d mem1 i) (sum ∙ sym full)
        ∙ window-put_seq capacity d mem i xs pos b.size (omega arith) in
      let tail : window capacity d mem1 (m + i) n ≡ drop m xs =
        sym (drop-append_left (window capacity d mem1 i m) (window capacity d mem1 (m + i) n))
        ∙ ap₂ drop (length-window capacity d mem1 i m) old in
      ap₂ (λ mem' k. window capacity d mem' i k) far (sym sum)
      ∙ window-append capacity d (put_seq capacity mem1 (capacity + i) ys) i m n
      ∙ ap₂ ◌++◌
          (ap (λ mem'. window capacity d mem' i m) near
            ∙ window-put_seq capacity d mem1 i ys pos size1 le)
          (window-put_seq_before capacity d mem1 (m + i) n (capacity + i) ys (omega arith)
              (omega arith)
            ∙ tail)

  -- A reader that is a whole round behind when m more values are written does not get the oldest
  -- that are left first: a round of reading gives the m new values, and then the rest of the old.
  pub read_overrun :
      (w : Writer A) (r : Reader A) (mem xs ys : List A)
      → IsBuffer capacity mem
      → length xs ≡ capacity
      → length ys ≤ capacity
      → r.index ≡ w.index
      → write_twice_then_read w r mem xs ys ≡ some (ys ++ drop (length ys) xs)
  read_overrun w r mem xs ys b full le same =
      let i = w.index in
      let mem1 = put_seq capacity mem i xs in
      let b1 = put_seq-IsBuffer mem i xs b in
      let mem2 = put_seq capacity mem1 (add_size i (length xs)) ys in
      let b2 = put_seq-IsBuffer mem1 (add_size i (length xs)) ys b1 in
      rw (write_all w mem xs b (omega arith), ◌>>=◌)
        (rw (write_all (advance w (length xs)) mem1 ys b1 le, ◌>>=◌)
          (rw (read_lem capacity d r mem2 capacity b2 (omega arith), ◌>>=◌)
            (ap some (
              ap (λ k. window capacity d mem2 k capacity) same
              ∙ overrun_window i mem xs ys b full le))))
