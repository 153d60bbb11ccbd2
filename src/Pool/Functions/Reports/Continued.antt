-- ===== src/Pool/Functions/Reports/Continued.antt =====
-- A `then` that returns a future, in such a program of thread_pool.hpp.
use cplease.Base.{
  ℕ, zero, suc, ◌+◌, ◌≤◌, ◌≡◌, refl, sym, ap, ◌∙◌, subst, List, [], ◌∷◌, ◌++◌, length,
  length-append, length-set, set, get_elem?, some, ◌⊎◌, inl, inr, arith,
}
use mathlib.Core.Option.{none-ne-some, some-injective}
use cplease.Future.Monad.{State, World, SuccessHandler, pass_on, new_state, put_state}
use cplease.Future.{Callbacks}
use cplease.Future.Then.{with_continuation, after_then}
use cplease.Futures.{ResultVariant}
use cplease.Pool.Functions.{Values, Program}
use cplease.Pool.Functions.Reports.{Outside, TameSuccess, IsTame, Reported}
use cplease.Pool.Functions.Reports.Writes.{
  Grows, continued-Grows, handled-Grows, put_state-Reported,
}
use cplease.Pool.Functions.Reports.Births.{append-Reported}
use cplease.Pool.Functions.Reports.Programs.{Owned}
use cplease.Pool.Functions.Reports.Owned.{Phase}

module _ {ℓ κ} {V : Type ℓ} {X : Type κ} (base n : ℕ) (rs : List (ResultVariant V X)) where
  with_continuation-Grows :
      (p q : ℕ) (s : State V X) (callback : SuccessHandler)
      → TameSuccess base n (length rs) callback
      → Outside base n (length rs) q
      → Grows base n rs p s (with_continuation callback (pass_on q) s)
  with_continuation-Grows p q s callback tame outside =
      let continued : State V X = record s {
        success_handlers = s.success_handlers ++ (callback ∷ []);
      } in
      let one : Grows base n rs p s continued = continued-Grows base n rs p s callback (tame, tt) in
      let two : Grows base n rs p continued (with_continuation callback (pass_on q) s) =
        handled-Grows base n rs p continued (pass_on q) (outside, tt) in
      record { tame = λ h. two.tame (one.tame h); watched = λ h. two.watched (one.watched h) }

  module _ (d : Values V) (future : ℕ) (callback : SuccessHandler) (s : State V X) where
    one_new :
        (m : ℕ) (j : ℕ) (u : State V X)
        → Outside base n (length rs) m
        → get_elem? (record (new_state d.default_value) { pool = s.pool } ∷ []) j ≡ some u
        → IsTame base n rs u × Outside base n (length rs) (m + j)
    one_new m zero u outside e = (
      subst (IsTame base n rs)
          (some-injective (record (new_state d.default_value) { pool = s.pool }) u e) (tt, tt),
      subst (Outside base n (length rs)) (omega arith) outside,
    )
    one_new m (suc j) u outside e = absurd (none-ne-some u e)

    after_then-Reported :
        (w : World V X)
        → get_elem? w.states future ≡ some s
        → TameSuccess base n (length rs) callback
        → Outside base n (length rs) (length w.states)
        → Reported base n rs w
        → Reported base n rs (after_then d.default_value future callback s w)
    after_then-Reported w found tame outside h =
        let continued : State V X = with_continuation callback (pass_on (length w.states)) s in
        let grows : Grows base n rs future s continued =
          with_continuation-Grows future (length w.states) s callback tame outside in
        append-Reported base n rs (put_state future continued w) _
          (λ j u e.
            one_new (length (set w.states future continued)) j u
              (subst (Outside base n (length rs)) (sym (length-set w.states future continued))
                outside)
              e)
          (put_state-Reported base n rs w future s continued found grows h λ i lt same. refl)

    -- The new promise is none of the futures.
    after_then-Outside :
        (w : World V X)
        → (length (after_then d.default_value future callback s w).states ≤ n)
          ⊎ (n + length rs ≤ length w.states)
        → Outside base n (length rs) (length w.states)
    after_then-Outside w (inl few) behind =
        let continued : State V X = with_continuation callback (pass_on (length w.states)) s in
        absurd (
          omega (
            arith,
            length-append (set w.states future continued)
                (record (new_state d.default_value) { pool = s.pool } ∷ []),
            length-set w.states future continued,
          ))
    after_then-Outside w (inr made) behind = made

    pub after_then-Owned :
        (callbacks : Callbacks V X) (self : ℕ) (before after : Program V X) (world : World V X)
        → get_elem? before.world.states future ≡ some s
        → world ≡ after_then d.default_value future callback s before.world
        → after ≡ record before { world = world }
        → (Outside base n (length rs) (length before.world.states)
            → TameSuccess base n (length rs) callback)
        → Phase base n rs callbacks d self before after
        → Owned base n rs callbacks before
        → Owned base n rs callbacks after
    after_then-Owned callbacks self before after world found e e' tame phase h =
        let made : Program V X = record before {
          world = after_then d.default_value future callback s before.world;
        } in
        let same : made ≡ after = sym (e' ∙ ap (λ w. record before { world = w }) e) in
        let outside : Outside base n (length rs) (length before.world.states) =
          after_then-Outside before.world
            (subst (Phase base n rs callbacks d self before) (sym same) phase) in
        subst (Owned base n rs callbacks) same (record {
          reported = after_then-Reported before.world found (tame outside) outside h.reported;
          fair = h.fair;
        })
