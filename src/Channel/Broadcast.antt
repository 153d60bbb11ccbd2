-- ===== src/Channel/Broadcast.antt =====
-- What a channel promises while no sink falls a whole round behind: each sink receives all values
-- that are sent, in order, at its own pace.
use cplease.Base.{
  ℕ, ◌+◌, Bool, leb, ◌&&◌, List, [], ◌∷◌, ◌++◌, length, take, drop, map, set, get_elem?, Option,
  some, ◌>>=◌, when,
}

pub data Op {ℓ} (A : Type ℓ) : Type ℓ where
  send : List A → Op A
  receive : ℕ → ℕ → Op A

module _ {ℓ} {A : Type ℓ} where
  -- Room for n values in the buffer, and for n more at each sink.
  unfoldable pub has_room : ℕ → ℕ → List (List A) → Bool
  has_room capacity n [] = leb n capacity
  has_room capacity n (q ∷ qs) = leb (length q + n) capacity && has_room capacity n qs

  -- The queues hold what each sink has not yet received; the result is what is received.
  unfoldable pub run : ℕ → List (List A) → List (Op A) → Option (List (List A))
  run capacity queues [] = some []
  run capacity queues (send values ∷ ops) =
      let rest = λ (qs : List (List A)). run capacity qs ops in
      when (has_room capacity (length values) queues) (map (λ q. q ++ values) queues) >>= rest
  run capacity queues (receive sink n ∷ ops) =
      let rest = λ (qs : List (List A)). run capacity qs ops in
      do
        queue ← get_elem? queues sink
        received ← rest (set queues sink (drop n queue))
        some (take n queue ∷ received)
