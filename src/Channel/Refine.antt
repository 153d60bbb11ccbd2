-- ===== src/Channel/Refine.antt =====
-- A channel with no sink a round behind delivers as its broadcast does.
use cplease.Base.{
  ℕ, zero, suc, ◌≤◌, min, ◌≡◌, refl, ap, ◌∙◌, true, leb→le, List, [], ◌∷◌, ◌++◌, length, take, drop,
  set, get_elem?, replicate, map, take-all, Option, some, ◌>>=◌, >>=-eq-some, when-eq-some, subst,
  some_inj, take-min, drop-min, &&-left, &&-right, when, arith,
}
use cplease.Circbuff.{advance}
use cplease.Circbuff.Slots.{IsBuffer}
use cplease.Circbuff.Window.{window}
use cplease.Circbuff.Writer
use cplease.Circbuff.Writer.Copy.{write_lem}
use cplease.Circbuff.Reader
use cplease.Circbuff.Reader.{Reader}
use cplease.Circbuff.Reader.Copy.{read_lem}
use cplease.Channel.{
  Channel, Link, Source, make_spmc_channel, new_source, write, read, notify,
  get_available_data_size, get_buffer_capacity, set_sink,
}
use cplease.Channel.Broadcast
use cplease.Channel.Broadcast.{Op, send, receive, has_room}
use cplease.Channel.Pending.{
  Pending, start-Pending, written, written-Pending, written-IsBuffer, window-Pending,
  advance-Pending, available-Pending,
}

module _ {ℓ κ} {A : Type ℓ} {S : Type κ} (capacity : ℕ) (d : A) where
  -- Calls of a source with no connection and of the sinks, and what the reads return.
  pub run : Source S A → Link S A → List (Op A) → Option (List (List A))
  run source link [] = some []
  run source link (send values ∷ ops) =
      let rest = λ (l : Link S A). run source l ops in
      write capacity source link values (length values) >>= rest
  run source link (receive sink n ∷ ops) =
      let rest = λ (l : Link S A). run source l ops in
      do
        (link', values) ← read capacity d link sink n
        received ← rest link'
        some (values ∷ received)

module _ {ℓ} {A : Type ℓ} (capacity : ℕ) (d : A) where
  -- Each sink has its queue before it.
  pub data AllPending (channel : Channel A) : List (Reader A) → List (List A) → Type ℓ where
    none_left : AllPending channel [] []
    and_then :
        {reader : Reader A} {readers : List (Reader A)} {queue : List A} {queues : List (List A)}
        → Pending capacity d channel reader queue
        → AllPending channel readers queues
        → AllPending channel (reader ∷ readers) (queue ∷ queues)

  written-AllPending :
      (channel : Channel A) (vs : List A) {readers : List (Reader A)} {queues : List (List A)}
      → AllPending channel readers queues
      → has_room capacity (length vs) queues ≡ true
      → AllPending (written capacity d channel vs) readers (map (λ q. q ++ vs) queues)
  unfolding has_room
  written-AllPending channel vs none_left h = none_left
  written-AllPending channel vs (and_then {reader = r} {queue = q} {queues = qs} p ps) h =
      and_then (written-Pending capacity d channel r q vs p (leb→le _ _ (&&-left _ _ h)))
        (written-AllPending channel vs ps (&&-right _ _ h))

  has_room-le : (n : ℕ) (queues : List (List A)) → has_room capacity n queues ≡ true → n ≤ capacity
  unfolding has_room
  has_room-le n [] h = leb→le _ _ h
  has_room-le n (q ∷ qs) h = has_room-le n qs (&&-right _ _ h)

  -- The reader of a sink, by the queue of that sink.
  reader_of :
      (channel : Channel A) (sink : ℕ) {readers : List (Reader A)} {queues : List (List A)}
      → AllPending channel readers queues
      → {queue : List A} → get_elem? queues sink ≡ some queue
      → (reader : Reader A) × (get_elem? readers sink ≡ some reader)
        × Pending capacity d channel reader queue
  reader_of channel sink none_left e = cc
  reader_of channel zero (and_then {reader = r} p ps) e =
      (r, refl, subst (Pending capacity d channel r) (some_inj _ _ e) p)
  reader_of channel (suc sink) (and_then p ps) e = reader_of channel sink ps e

  set-AllPending :
      (channel : Channel A) (sink : ℕ) {readers : List (Reader A)} {queues : List (List A)}
      (reader : Reader A) (queue : List A)
      → AllPending channel readers queues
      → Pending capacity d channel reader queue
      → AllPending channel (set readers sink reader) (set queues sink queue)
  set-AllPending channel sink reader queue none_left q = none_left
  set-AllPending channel zero reader queue (and_then p ps) q = and_then q ps
  set-AllPending channel (suc sink) reader queue (and_then p ps) q =
      and_then p (set-AllPending channel sink reader queue ps q)

module _ {ℓ κ} {A : Type ℓ} {S : Type κ} (capacity : ℕ) (d : A) where
  -- The buffer of the link is a circular buffer, and each sink has its queue before it.
  pub record Holds (link : Link S A) (queues : List (List A)) : Type ℓ where
    pub buffer : IsBuffer capacity link.channel.buffer
    pub pending : AllPending capacity d link.channel link.sinks queues

  -- A new channel has nothing before any of its sinks.
  pub make_spmc_channel-Holds :
      (buffer : List A) (sinks_count : ℕ) (captured : S)
      → IsBuffer capacity buffer
      → Holds (make_spmc_channel d buffer sinks_count captured).1 (replicate sinks_count [])
  unfolding make_spmc_channel
  make_spmc_channel-Holds buffer sinks_count captured b = record {
    buffer = b;
    pending = all sinks_count;
  }
    where
      channel : Channel A
      channel = record { buffer = buffer; writer = Writer.make_writer 0 d }

      all :
          (n : ℕ)
          → AllPending capacity d channel (replicate n (Reader.make_reader 0 d)) (replicate n [])
      all zero = none_left
      all (suc n) =
          and_then (start-Pending capacity d channel (Reader.make_reader 0 d) b (omega arith) refl)
            (all n)

  -- A source that has the channel and no connection.
  abbrev pub IsPlain : Source S A → Type (ℓ ⊔ κ)
  IsPlain source = (source.has_channel ≡ true) × (source.notif_funcs ≡ [])

  IsPlain-make_spmc_channel :
      (buffer : List A) (sinks_count : ℕ) (captured : S)
      → IsPlain (make_spmc_channel d buffer sinks_count captured).0
  unfolding make_spmc_channel new_source
  IsPlain-make_spmc_channel buffer sinks_count captured = (refl, refl)

  sent : Link S A → List A → Link S A
  sent link vs = record link { channel = written capacity d link.channel vs }

  write-sent :
      (source : Source S A) (link : Link S A) (vs : List A)
      → IsPlain source
      → IsBuffer capacity link.channel.buffer
      → length vs ≤ capacity
      → write capacity source link vs (length vs) ≡ some (sent link vs)
  unfolding write notify sent
  write-sent source link vs plain b le =
      rw (plain.0, when, ◌>>=◌)
        (rw
          (
            write_lem capacity link.channel.writer link.channel.buffer vs (length vs) b le
                (omega arith),
            ◌>>=◌,
          )
          (rw (plain.1, notify) (rw (take-all (length vs) vs (omega arith)) refl)))

  available :
      (link : Link S A) (reader : Reader A) (queue : List A)
      → Pending capacity d link.channel reader queue
      → get_available_data_size link reader ≡ length queue
  unfolding get_available_data_size get_buffer_capacity
  available link reader queue p = available-Pending capacity d link.channel reader queue p

  sent-Holds :
      (link : Link S A) (queues : List (List A)) (vs : List A)
      → Holds link queues
      → has_room capacity (length vs) queues ≡ true
      → Holds (sent link vs) (map (λ q. q ++ vs) queues)
  unfolding sent
  sent-Holds link queues vs h room = record {
    buffer = written-IsBuffer capacity d link.channel vs h.buffer;
    pending = written-AllPending capacity d link.channel vs h.pending room;
  }

  read-Holds :
      (link : Link S A) (queues : List (List A)) (sink n : ℕ) (queue : List A)
      → Holds link queues
      → get_elem? queues sink ≡ some queue
      → (link' : Link S A) × (read capacity d link sink n ≡ some (link', take n queue))
        × Holds link' (set queues sink (drop n queue))
  unfolding read set_sink
  read-Holds link queues sink n queue h e =
      let (reader, here, p) = reader_of capacity d link.channel sink h.pending e in
      let m = min (length queue) n in
      let size : min (get_available_data_size link reader) n ≡ m =
        ap (λ k. min k n) (available link reader queue p) in
      let values : window capacity d link.channel.buffer reader.index m ≡ take n queue =
        window-Pending capacity d link.channel reader queue p m (omega arith) ∙ take-min n queue in
      let moved : Pending capacity d link.channel (advance reader m) (drop n queue) =
        subst (Pending capacity d link.channel (advance reader m)) (drop-min n queue)
          (advance-Pending capacity d link.channel reader queue p m (omega arith)) in
      (
        set_sink link sink (advance reader m),
        rw (here, ◌>>=◌)
            (rw
              (
                size,
                read_lem capacity d reader link.channel.buffer m h.buffer (omega (arith, p.fits)),
                ◌>>=◌,
              )
              (ap (λ v. some (set_sink link sink (advance reader m), v)) values)),
        record {
          buffer = h.buffer;
          pending =
              set-AllPending capacity d link.channel sink (advance reader m) (drop n queue)
                h.pending moved;
        },
      )

  -- While no send finds a sink without room, each receive returns what the broadcast delivers.
  pub run_refines :
      (source : Source S A) (ops : List (Op A)) (link : Link S A) (queues : List (List A))
      {received : List (List A)}
      → IsPlain source
      → Holds link queues
      → Broadcast.run capacity queues ops ≡ some received
      → run capacity d source link ops ≡ some received
  unfolding run Broadcast.run
  run_refines source [] link queues plain h e = e
  run_refines source (send vs ∷ ops) link queues plain h e =
      let after = map (λ q. q ++ vs) queues in
      let (room, rest) = when-eq-some (has_room capacity (length vs) queues) after _ e in
      let le : length vs ≤ capacity = has_room-le capacity d (length vs) queues room in
      let h' : Holds (sent link vs) after = sent-Holds link queues vs h room in
      rw (write-sent source link vs plain h.buffer le, ◌>>=◌)
        (run_refines source ops (sent link vs) after plain h' rest)
  run_refines source (receive sink n ∷ ops) link queues {received} plain h e =
      let (queue, there, rest) = >>=-eq-some (get_elem? queues sink) _ e in
      let (got, more, out) =
        >>=-eq-some (Broadcast.run capacity (set queues sink (drop n queue)) ops) _ rest in
      let (link', done, h') = read-Holds link queues sink n queue h there in
      rw (done, ◌>>=◌)
        (rw (run_refines source ops link' (set queues sink (drop n queue)) plain h' more, ◌>>=◌)
          out)

  -- On a new channel over a circular buffer, with any number of sinks, as long as no send finds a
  -- sink without room, each receive returns what the broadcast of the sent values delivers: all of
  -- them, in order, to each sink.
  pub make_spmc_channel-refines :
      (buffer : List A) (sinks_count : ℕ) (captured : S) (ops : List (Op A))
      {received : List (List A)}
      → IsBuffer capacity buffer
      → Broadcast.run capacity (replicate sinks_count []) ops ≡ some received
      → let (source, link) = make_spmc_channel d buffer sinks_count captured in
        run capacity d source link ops ≡ some received
  make_spmc_channel-refines buffer sinks_count captured ops b e =
      run_refines (make_spmc_channel d buffer sinks_count captured).0 ops
        (make_spmc_channel d buffer sinks_count captured).1 (replicate sinks_count [])
        (IsPlain-make_spmc_channel buffer sinks_count captured)
        (make_spmc_channel-Holds buffer sinks_count captured b) e
