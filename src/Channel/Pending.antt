-- ===== src/Channel/Pending.antt =====
-- What a sink has not read yet, through the operations of writer.hpp and reader.hpp.
use native.Mathlib.Nat.{mod-lt}
use cplease.Base.{
  ℕ, ◌+◌, ◌-◌, ◌%◌, ◌≤◌, ◌<◌, min, ◌≡◌, sym, ap, ap₂, ◌∙◌, List, [], ◌++◌, length, take, drop,
  length-drop, length-append, take-append_left, drop-append_left, arith,
}
use cplease.Word.{size_mod, add_size, sub_size, sub_size-add_size}
use cplease.Circbuff.{advance}
use cplease.Circbuff.Slots.{IsBuffer, capacity-bounds, add_size-mod}
use cplease.Circbuff.Window.{
  put_seq, window, window-zero, length-window, window-append, window-put_seq, window-put_seq_before,
  put_seq-mod, window-mod, length-put_seq,
}
use cplease.Circbuff.Reader.{Reader}
use cplease.Channel.{Channel}

module _ {ℓ} {A : Type ℓ} (capacity : ℕ) (d : A) where
  -- The values that the reader has before it, at most a round of them. Indices may have wrapped.
  pub record Pending (channel : Channel A) (reader : Reader A) (values : List A) : Type ℓ where
    pub buffer : IsBuffer capacity channel.buffer
    pub word : reader.index < size_mod
    pub ahead : channel.writer.index ≡ add_size reader.index (length values)
    pub fits : length values ≤ capacity
    pub holds : window capacity d channel.buffer reader.index (length values) ≡ values

  -- A reader at the index of the writer has nothing before it.
  pub start-Pending :
      (channel : Channel A) (reader : Reader A)
      → IsBuffer capacity channel.buffer
      → reader.index < size_mod
      → channel.writer.index ≡ reader.index
      → Pending channel reader []
  start-Pending channel reader b word same = record {
    buffer = b;
    word = word;
    ahead = omega (arith, same);
    fits = omega arith;
    holds = window-zero capacity d channel.buffer reader.index;
  }

  abbrev pub written : Channel A → List A → Channel A
  written channel vs = record {
    buffer = put_seq capacity channel.buffer channel.writer.index vs;
    writer = advance channel.writer (length vs);
  }

  pub written-IsBuffer :
      (channel : Channel A) (vs : List A)
      → IsBuffer capacity channel.buffer
      → IsBuffer capacity (written channel vs).buffer
  written-IsBuffer channel vs b = record {
    exponent = b.exponent;
    power = b.power;
    small = b.small;
    size = length-put_seq capacity channel.buffer channel.writer.index vs ∙ b.size;
  }

  -- Writing what still fits adds it to what the reader has before it.
  pub written-Pending :
      (channel : Channel A) (reader : Reader A) (values vs : List A)
      → Pending channel reader values
      → length values + length vs ≤ capacity
      → Pending (written channel vs) reader (values ++ vs)
  written-Pending channel reader values vs p room = record {
    buffer = written-IsBuffer channel vs b;
    word = p.word;
    ahead = omega (arith, p.ahead, length-append values vs);
    fits = omega (arith, length-append values vs);
    holds =
        ap₂ (λ mem k. window capacity d mem i k) same (length-append values vs)
        ∙ window-append capacity d (put_seq capacity buf (n + i) vs) i n (length vs)
        ∙ ap₂ ◌++◌
            (window-put_seq_before capacity d buf i n (n + i) vs (omega arith) (omega arith)
              ∙ p.holds)
            (window-put_seq capacity d buf (n + i) vs (capacity-bounds b).0 b.size (omega arith));
  }
    where
      b : IsBuffer capacity channel.buffer
      b = p.buffer

      buf : List A
      buf = channel.buffer

      i : ℕ
      i = reader.index

      w : ℕ
      w = channel.writer.index

      n : ℕ
      n = length values

      same : put_seq capacity buf w vs ≡ put_seq capacity buf (n + i) vs
      same = put_seq-mod capacity buf w (n + i) vs (
          ap (λ k. k % capacity) p.ahead
          ∙ add_size-mod b i n
          ∙ ap (λ k. k % capacity) (omega arith))

  module _ (channel : Channel A) (reader : Reader A) (values : List A)
      (p : Pending channel reader values) where
    parts :
        (n : ℕ)
        → n ≤ length values
        → window capacity d channel.buffer reader.index n
            ++ window capacity d channel.buffer (n + reader.index) (length values - n)
          ≡ values
    parts n h =
        let sum : n + (length values - n) ≡ length values = omega arith in
        sym (window-append capacity d channel.buffer reader.index n (length values - n))
        ∙ ap (window capacity d channel.buffer reader.index) sum
        ∙ p.holds

    -- What is read is the first of what the reader has before it.
    pub window-Pending :
        (n : ℕ)
        → n ≤ length values
        → window capacity d channel.buffer reader.index n ≡ take n values
    window-Pending n h =
        sym (
          take-append_left (window capacity d channel.buffer reader.index n)
            (window capacity d channel.buffer (n + reader.index) (length values - n)))
        ∙ ap₂ take (length-window capacity d channel.buffer reader.index n) (parts n h)

    -- The rest stays before the reader that has moved on.
    pub advance-Pending :
        (n : ℕ) → n ≤ length values → Pending channel (advance reader n) (drop n values)
    advance-Pending n h = record {
      buffer = p.buffer;
      word = mod-lt _ (omega arith);
      ahead = omega (arith, p.ahead, length-drop n values);
      fits = omega (arith, p.fits, length-drop n values);
      holds =
          ap (window capacity d channel.buffer (add_size reader.index n)) (length-drop n values)
          ∙ window-mod capacity d channel.buffer (add_size reader.index n) (n + reader.index)
              (length values - n)
              (add_size-mod p.buffer reader.index n ∙ ap (λ k. k % capacity) (omega arith))
          ∙ sym (
              drop-append_left (window capacity d channel.buffer reader.index n)
                (window capacity d channel.buffer (n + reader.index) (length values - n)))
          ∙ ap₂ drop (length-window capacity d channel.buffer reader.index n) (parts n h);
    }

    -- The distance of the indices is the number of values.
    pub available-Pending :
        min (sub_size channel.writer.index reader.index) (length channel.buffer) ≡ length values
    available-Pending = omega (
      arith,
      ap (λ w. sub_size w reader.index) p.ahead,
      sub_size-add_size reader.index (length values) p.word
          (omega (arith, p.fits, capacity-bounds p.buffer)),
      p.fits,
      p.buffer.size,
    )
