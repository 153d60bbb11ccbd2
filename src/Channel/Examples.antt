-- ===== src/Channel/Examples.antt =====
-- channel.hpp at a channel of two sinks.
use cplease.Base.{ℕ, ◌≡◌, refl, List, [], ◌∷◌, replicate, true, false, none, some, ◌>>=◌, arith}
use cplease.Circbuff.Slots.{IsBuffer}
use cplease.Channel.{
  Link, Source, make_spmc_channel, new_source, register_notify_function, unregister_notify_function,
  notify, pool_notification,
}
use cplease.Channel.Broadcast
use cplease.Channel.Broadcast.{Op, send, receive, has_room}
use cplease.Channel.Refine.{run, make_spmc_channel-refines}
use cplease.Channel.Connect.{IdsBelow, register-unregister}

abbrev zeros : List ℕ
zeros = replicate 4 0

abbrev made : Source ℕ ℕ × Link ℕ ℕ
made = make_spmc_channel 0 zeros 2 0

abbrev calls : List (Op ℕ)
calls = send (1 ∷ 2 ∷ 3 ∷ []) ∷ receive 0 2 ∷ receive 1 9 ∷ send (4 ∷ 5 ∷ 6 ∷ []) ∷ receive 0 4 ∷ []

zeros-IsBuffer : IsBuffer 4 zeros
zeros-IsBuffer = record { exponent = 2; power = refl; small = omega arith; size = refl }

make_spmc_channel-refines_example :
    run 4 0 made.0 made.1 calls ≡ some ((1 ∷ 2 ∷ []) ∷ (1 ∷ 2 ∷ 3 ∷ []) ∷ (3 ∷ 4 ∷ 5 ∷ 6 ∷ []) ∷ [])
unfolding Broadcast.run has_room
make_spmc_channel-refines_example =
    make_spmc_channel-refines 4 0 zeros 2 0 calls zeros-IsBuffer refl

register-unregister_example :
    let (source', id) = register_notify_function made.0 (pool_notification 1 (λ s region. none)) in
    IdsBelow source'.notify_function_id_counter source'.notif_funcs
    × (notify source'.notif_funcs made.1 3
        ≡ (notify made.0.notif_funcs made.1 3 >>= λ l. pool_notification 1 (λ s region. none) l 3))
    × ((unregister_notify_function source' id).0.notif_funcs ≡ made.0.notif_funcs)
    × ((unregister_notify_function source' id).1 ≡ true)
    × (unregister_notify_function source' 5 ≡ (source', false))
unfolding make_spmc_channel new_source
register-unregister_example =
    register-unregister made.0 (pool_notification 1 (λ s region. none)) made.1 3 5 tt (omega arith)
      (omega arith)
