-- ===== src/Channel/Moves.antt =====
-- The assignments of sources of channel.hpp, and the capacity and the range of values that can be looked
-- at without a read.
use cplease.Base.{ℕ, ◌≡◌, refl, List, length, get_elem?, Option, none, ◌>>=◌, when}
use cplease.Circbuff.Reader
use cplease.Channel.{Link, Source, new_source, copy_source, move_source, put}

module _ {ℓ κ} {A : Type ℓ} {S : Type κ} where
  -- `operator=(const source& other)`
  pub copy_assign_source : Source S A → Source S A → Source S A
  copy_assign_source source other = record source { has_channel = other.has_channel }

  -- `operator=(source&& other)` swaps the channels alone: the source, and what is left of the other.
  pub move_assign_source : Source S A → Source S A → Source S A × Source S A
  move_assign_source source other = (
    record source { has_channel = other.has_channel },
    record other { has_channel = source.has_channel },
  )

  -- The capacity of the channel of a source.
  pub source_buffer_capacity : Source S A → Link S A → Option ℕ
  source_buffer_capacity source link = when source.has_channel (length link.channel.buffer)

  -- `peek(values, count)` of a sink
  pub peek_into : ℕ → Link S A → ℕ → List A → ℕ → Option (List A)
  peek_into capacity link sink values count = do
    reader ← get_elem? link.sinks sink
    Reader.peek_into capacity reader link.channel.buffer values count

  -- The source that another was moved to writes without the notify functions, which stay behind in a
  -- source that can not write any more.
  put-move_source :
      (capacity : ℕ) (other : Source S A) (link : Link S A) (value : A)
      → (put capacity (move_source other).0 link value
          ≡ put capacity (copy_source other) link value)
        × ((put capacity (move_source other).1 link value ≡ none)
            × ((move_source other).1.notif_funcs ≡ other.notif_funcs))
  unfolding move_source copy_source new_source put
  put-move_source capacity other link value = (refl, (refl, refl))
