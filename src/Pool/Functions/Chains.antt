-- ===== src/Pool/Functions/Chains.antt =====
-- A `then` that returns a future, in a program that uses thread_pool.hpp.
use cplease.Base.{
  ℕ, ◌≤◌, ◌≡◌, refl, sym, ap, ◌∙◌, false, [], ◌∷◌, length, length-append, length-set, set,
  get_elem?, some, arith,
}
use cplease.Future.Monad.{
  State, World, Run, done, threw, stuck, fault, out_of_fuel, new_state, put_state, SuccessHandler,
  call_value, call_future, pass_on,
}
use cplease.Future.{then_value, then_future}
use cplease.Future.Then.{with_continuation, after_then, then_value-after_then}
use cplease.Task.{PackagedTask}
use cplease.Task.Ready.{IsDone, IsDone-IsKept}
use cplease.Pool.Functions.Sound.{ready_at-append}

module _ {ℓ κ} {V : Type ℓ} {X : Type κ} where
  world_or {ι} : {B : Type ι} → World V X → Run V X B → World V X
  world_or d (done b w) = w
  world_or d (threw e w) = d
  world_or d stuck = d
  world_or d fault = d
  world_or d out_of_fuel = d

  module _ (d : V) (future func next : ℕ) (s : State V X) (w world : World V X)
      (found : get_elem? w.states future ≡ some s) (free : s.locked ≡ false) where
    pub then_value-world :
        then_value d future func w ≡ done next world
        → world ≡ after_then d future (call_value func (length w.states)) s w
    unfolding world_or
    then_value-world e =
        ap (world_or w) (sym e ∙ (then_value-after_then d future func s w found free).0)

    pub then_future-world :
        then_future d future func w ≡ done next world
        → world ≡ after_then d future (call_future func (length w.states)) s w
    unfolding world_or
    then_future-world e =
        ap (world_or w) (sym e ∙ (then_value-after_then d future func s w found free).1)

  module _ (d : V) (future : ℕ) (callback : SuccessHandler) (s : State V X) (w : World V X)
      (found : get_elem? w.states future ≡ some s) where
    pub after_then-IsDone :
        (t : PackagedTask V) → IsDone t w → IsDone t (after_then d future callback s w)
    after_then-IsDone t h =
        let continued : State V X = with_continuation callback (pass_on (length w.states)) s in
        let kept : IsDone t (put_state future continued w) =
          (IsDone-IsKept t).stable.same_ready w future s continued found refl h in
        (ready_at-append (set w.states future continued) _ t.promise kept.0, kept.1)

    pub length-after_then : length w.states ≤ length (after_then d future callback s w).states
    length-after_then =
        let continued : State V X = with_continuation callback (pass_on (length w.states)) s in
        omega (
          arith,
          length-append (set w.states future continued)
              (record (new_state d) { pool = s.pool } ∷ []),
          length-set w.states future continued,
        )
