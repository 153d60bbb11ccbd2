-- ===== src/Pool/Wait/Rounds.antt =====
-- When wait_for of thread_pool.hpp returns.
use cplease.Base.{ℕ, zero, suc, ◌≡◌, refl, true, false, Bool-cases, inl, inr}
use mathlib.Core.Bool.{true≢false}
use cplease.Pool.{Pool, is_idle}
use cplease.Pool.Wait.{
  Caller, calling, outer, inner, falls_asleep, asleep, woken, returned, has_returned, caller_step,
  caller_steps,
}

module _ {ℓ} {T : Type ℓ} where
  -- On a pool that is not idle it does not return.
  stays :
      (n : ℕ) (pool : Pool T) (caller : Caller)
      → is_idle pool ≡ false
      → has_returned caller ≡ false
      → has_returned (caller_steps true n pool caller) ≡ false
  unfolding caller_steps caller_step has_returned
  stays zero pool caller idle h = h
  stays (suc n) pool calling idle h = stays n pool outer idle refl
  stays (suc n) pool outer idle h = rw (caller_steps, idle) (stays n pool inner idle refl)
  stays (suc n) pool inner idle h = rw (caller_steps, idle) (stays n pool falls_asleep idle refl)
  stays (suc n) pool falls_asleep idle h = stays n pool asleep idle refl
  stays (suc n) pool asleep idle h = stays n pool calling idle refl
  stays (suc n) pool woken idle h = stays n pool inner idle refl
  stays (suc n) pool returned idle h = absurd (true≢false h)

  returned_stays : (n : ℕ) (pool : Pool T) → caller_steps true n pool returned ≡ returned
  unfolding caller_steps caller_step
  returned_stays zero pool = refl
  returned_stays (suc n) pool = refl

  -- On an idle pool it returns from the head of its loop, and comes there.
  from_outer :
      (n : ℕ) (pool : Pool T)
      → is_idle pool ≡ true
      → caller_steps true (suc n) pool outer ≡ returned
  unfolding caller_steps caller_step
  from_outer n pool idle = rw (caller_steps, idle) (returned_stays n pool)

  stops :
      (n : ℕ) (pool : Pool T) (caller : Caller)
      → is_idle pool ≡ true
      → caller_steps true (suc (suc (suc (suc n)))) pool caller ≡ returned
  unfolding caller_steps caller_step
  stops n pool calling idle = from_outer (suc (suc n)) pool idle
  stops n pool outer idle = from_outer (suc (suc (suc n))) pool idle
  stops n pool inner idle = rw (caller_steps, idle) (from_outer (suc (suc n)) pool idle)
  stops n pool falls_asleep idle = from_outer n pool idle
  stops n pool asleep idle = from_outer (suc n) pool idle
  stops n pool woken idle = rw (caller_steps, idle) (from_outer (suc n) pool idle)
  stops n pool returned idle = refl

  -- A call of wait_for that has not returned, after any number of steps of its own from 4 on, on a pool
  -- that stays as it is, has returned exactly if the pool is idle: the timeout, which may run out in
  -- each round, does not end the wait.
  pub wait_for-is_idle :
      (n : ℕ) (pool : Pool T) (caller : Caller)
      → has_returned caller ≡ false
      → has_returned (caller_steps true (suc (suc (suc (suc n)))) pool caller) ≡ is_idle pool
  unfolding has_returned
  wait_for-is_idle n pool caller h = elim (Bool-cases (is_idle pool)) [
    | inl idle ↦ rw (idle, stops n pool caller idle) refl
    | inr busy ↦ rw busy (stays (suc (suc (suc (suc n)))) pool caller busy h)
  ]
