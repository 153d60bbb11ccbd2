-- ===== src/Channel.antt =====
-- include/plz/circbuff/channel.hpp: sources that write to a circular buffer, and sinks that read it.
-- What all of them share is an argument of each operation. A notification runs inside put or write.
mod Examples
pub mod Connect
pub mod Broadcast
pub mod Pending
mod Moves
pub mod Refine
use cplease.Base.{
  ℕ, ◌+◌, min, Bool, true, false, not, ltb, ◌==◌, if◌then◌else◌, List, [], ◌∷◌, ◌++◌, length, set,
  get_elem?, replicate, Option, none, some, ◌>>=◌, when,
}
use cplease.Word.{add_size, sub_size}
use cplease.Memory.{Func}
use cplease.Circbuff.Writer
use cplease.Circbuff.Writer.{Writer}
use cplease.Circbuff.Reader
use cplease.Circbuff.Reader.{Reader}

-- detail::channel: what m_buffer points to, and the writer of all sources.
pub record Channel {ℓ} (A : Type ℓ) : Type ℓ where
  pub buffer : List A
  pub writer : Writer A

-- A task that a connection over a thread pool leaves to the pool.
pub record SinkTask {ℓ κ} (S : Type κ) (A : Type ℓ) : Type (ℓ ⊔ κ) where
  pub sink : ℕ
  pub func : Func S A
  pub count : ℕ

-- What a notify function can reach: the channel, the readers of the sinks, what the connected
-- functions have captured, and the tasks given to a pool, the oldest first.
pub record Link {ℓ κ} (S : Type κ) (A : Type ℓ) : Type (ℓ ⊔ κ) where
  pub channel : Channel A
  pub sinks : List (Reader A)
  pub captured : S
  pub tasks : List (SinkTask S A)

abbrev pub NotifyFunction {ℓ κ} : Type κ → Type ℓ → Type (ℓ ⊔ κ)
NotifyFunction S A = Link S A → ℕ → Option (Link S A)

-- has_channel says that m_channel is not the null pointer.
pub record Source {ℓ κ} (S : Type κ) (A : Type ℓ) : Type (ℓ ⊔ κ) where
  pub has_channel : Bool
  pub notify_function_id_counter : ℕ
  pub notif_funcs : List (ℕ × NotifyFunction S A)

module _ {ℓ κ} {A : Type ℓ} {S : Type κ} where
  -- The constructor from a channel, and the default constructor.
  pub new_source : Bool → Source S A
  new_source has_channel = record {
    has_channel = has_channel;
    notify_function_id_counter = 0;
    notif_funcs = [];
  }

  -- clone, the copy constructor and the copy assignment (to a new source) take the channel alone.
  pub copy_source : Source S A → Source S A
  unfolding new_source
  copy_source other = new_source other.has_channel

  -- The move constructor: the new source, and what is left of the other.
  pub move_source : Source S A → Source S A × Source S A
  unfolding new_source
  move_source other = (new_source other.has_channel, record other { has_channel = false })

  -- `for(auto& [_, func] : m_notif_funcs) func(count)`
  pub notify : List (ℕ × NotifyFunction S A) → Link S A → ℕ → Option (Link S A)
  notify [] link count = some link
  notify ((id, func) ∷ funcs) link count =
      let rest = λ (l : Link S A). notify funcs l count in func link count >>= rest

  pub register_notify_function : Source S A → NotifyFunction S A → Source S A × ℕ
  register_notify_function source func =
      let id = source.notify_function_id_counter in
      (
        record source {
          notify_function_id_counter = add_size id 1;
          notif_funcs = source.notif_funcs ++ ((id, func) ∷ []);
        },
        id,
      )

  -- std::erase_if by the id: what is left, and how many were erased.
  pub erase_id : ℕ → List (ℕ × NotifyFunction S A) → List (ℕ × NotifyFunction S A) × ℕ
  erase_id id [] = ([], 0)
  erase_id id ((i, func) ∷ funcs) =
      let (kept, erased) = erase_id id funcs in
      if i == id then (kept, erased + 1) else ((i, func) ∷ kept, erased)

  pub unregister_notify_function : Source S A → ℕ → Source S A × Bool
  unregister_notify_function source id =
      let (kept, erased) = erase_id id source.notif_funcs in
      (record source { notif_funcs = kept }, ltb 0 erased)

module _ {ℓ κ} {A : Type ℓ} {S : Type κ} (capacity : ℕ) where
  -- Writes through a source whose channel is null are undefined.
  pub put : Source S A → Link S A → A → Option (Link S A)
  put source link value = do
    here ← when source.has_channel link.channel
    (writer, buffer) ← Writer.put capacity here.writer here.buffer value
    notify source.notif_funcs
        (record link { channel = record { buffer = buffer; writer = writer } }) 1

  pub write : Source S A → Link S A → List A → ℕ → Option (Link S A)
  write source link values count = do
    here ← when source.has_channel link.channel
    (writer, buffer) ← Writer.write capacity 0 here.writer here.buffer values count
    notify source.notif_funcs
        (record link { channel = record { buffer = buffer; writer = writer } }) count

-- The sinks are told apart by their place among the readers.
module _ {ℓ κ} {A : Type ℓ} {S : Type κ} where
  pub get_buffer_capacity : Link S A → ℕ
  get_buffer_capacity link = length link.channel.buffer

  -- clone: a sink with the index of another.
  pub clone_sink : A → Link S A → ℕ → Option (Link S A)
  clone_sink d link sink = do
    reader ← get_elem? link.sinks sink
    some (record link { sinks = link.sinks ++ (Reader.copy_reader 0 d reader ∷ []) })

  pub get_available_data_size : Link S A → Reader A → ℕ
  unfolding get_buffer_capacity
  get_available_data_size link reader =
      min (sub_size link.channel.writer.index reader.index) (get_buffer_capacity link)

  set_sink : Link S A → ℕ → Reader A → Link S A
  set_sink link sink reader = record link { sinks = set link.sinks sink reader }

module _ {ℓ κ} {A : Type ℓ} {S : Type κ} (capacity : ℕ) where
  pub get : Link S A → ℕ → Option (Link S A × A)
  unfolding set_sink
  get link sink = do
    reader ← get_elem? link.sinks sink
    (reader', value) ← Reader.get capacity reader link.channel.buffer
    some (set_sink link sink reader', value)

  pub peek : Link S A → ℕ → Option A
  peek link sink = do
    reader ← get_elem? link.sinks sink
    Reader.peek capacity reader link.channel.buffer

  -- `read(values, count)`: the number of values read, and the destination.
  pub read_into : Link S A → ℕ → List A → ℕ → Option (Link S A × List A × ℕ)
  unfolding get_available_data_size set_sink
  read_into link sink values count = do
    reader ← get_elem? link.sinks sink
    let read_count = min (get_available_data_size link reader) count
    (reader', values') ← Reader.read_into capacity 0 reader link.channel.buffer values read_count
    some (set_sink link sink reader', values', read_count)

  -- `read(count)`, into a vector
  pub read : A → Link S A → ℕ → ℕ → Option (Link S A × List A)
  unfolding get_available_data_size set_sink
  read d link sink count = do
    reader ← get_elem? link.sinks sink
    (reader', values) ←
        Reader.read capacity 0 d reader link.channel.buffer
          (min (get_available_data_size link reader) count)
    some (set_sink link sink reader', values)

  pub read_all : A → Link S A → ℕ → Option (Link S A × List A)
  unfolding get_available_data_size read_into
  read_all d link sink = do
    reader ← get_elem? link.sinks sink
    let values = replicate (get_available_data_size link reader) d
    (link', values', read_count) ← read_into link sink values (length values)
    some (link', values')

  -- func works on what the connections have captured.
  pub read_using : Func S A → Link S A → ℕ → ℕ → Option (Link S A × ℕ)
  unfolding get_available_data_size set_sink
  read_using func link sink count = do
    reader ← get_elem? link.sinks sink
    (captured, reader', buffer, n) ←
        Reader.read_using capacity 0 func link.captured reader link.channel.buffer
          (min (get_available_data_size link reader) count)
    some (
      record (set_sink link sink reader') {
        captured = captured;
        channel = record { buffer = buffer; writer = link.channel.writer };
      },
      n,
    )

  -- What connect registers: each notification reads through the sink at once.
  pub direct_notification : ℕ → Func S A → NotifyFunction S A
  unfolding read_using
  direct_notification sink func link count = do
    (link', n) ← read_using func link sink count
    some link'

  -- source_connection holds the id alone.
  pub connect : Source S A → ℕ → Func S A → Source S A × ℕ
  unfolding direct_notification register_notify_function
  connect source sink func = register_notify_function source (direct_notification sink func)

  -- One task of the pool.
  pub run_task : Link S A → Option (Link S A)
  run_task link = elim link.tasks [
    | [] ↦ some link
    | task ∷ tasks ↦
        direct_notification task.sink task.func (record link { tasks = tasks }) task.count
  ]

module _ {ℓ κ} {A : Type ℓ} {S : Type κ} where
  -- What connect over a pool registers, and async_connect over the global one: each notification
  -- is a task for the pool, which is not stopped.
  pub pool_notification : ℕ → Func S A → NotifyFunction S A
  pool_notification sink func link count = some (record link {
    tasks = link.tasks ++ (record { sink = sink; func = func; count = count } ∷ []);
  })

  pub connect_pool : Source S A → ℕ → Func S A → Source S A × ℕ
  unfolding pool_notification register_notify_function
  connect_pool source sink func = register_notify_function source (pool_notification sink func)

  pub disconnect : Source S A → ℕ → Source S A × Bool
  unfolding unregister_notify_function
  disconnect source id = unregister_notify_function source id

  -- make_spmc_channel, and make_channel for one sink: a source and sinks_count sinks.
  pub make_spmc_channel : A → List A → ℕ → S → Source S A × Link S A
  make_spmc_channel d buffer sinks_count captured = (
    new_source true,
    record {
      channel = record { buffer = buffer; writer = Writer.make_writer 0 d };
      sinks = replicate sinks_count (Reader.make_reader 0 d);
      captured = captured;
      tasks = [];
    },
  )

  -- make_mpsc_channel: sources_count sources and a sink.
  pub make_mpsc_channel : A → List A → ℕ → S → List (Source S A) × Link S A
  make_mpsc_channel d buffer sources_count captured = (
    replicate sources_count (new_source true),
    record {
      channel = record { buffer = buffer; writer = Writer.make_writer 0 d };
      sinks = Reader.make_reader 0 d ∷ [];
      captured = captured;
      tasks = [];
    },
  )
