-- ===== src/Pool/Functions/Reports/Aggregate.antt =====
-- The aggregate of the futures that map of thread_pool.hpp returns.
use cplease.Base.{
  ℕ, suc, ◌+◌, ◌<◌, ◌≡◌, refl, sym, ap, ◌∙◌, subst, true, false, ◌==◌, List, [], ◌++◌, length,
  length-append, get_elem?, get_elem?-lt, get_elem?-some, Option, some, inl, inr, Bool-cases, arith,
}
use mathlib.Core.Option.{none-ne-some, some-injective}
use mathlib.Core.List.{Mem, mem-append_right}
use cplease.Word.{size_mod}
use cplease.Future.Monad.{State, World}
use cplease.Future.{Callbacks}
use cplease.Future.Ready.{IsReady}
use cplease.Futures.{ResultVariant, Futures, new_futures, deliver}
use cplease.Futures.Outcomes.{expected}
use cplease.Futures.Order.{IsWaiting, Told, after_return}
use cplease.Task.{PackagedTask}
use cplease.Pool.{notifying}
use cplease.Pool.Progress.{Quiet}
use cplease.Pool.Functions.{
  Values, Program, map_function, map_tasks, Comes, begins, continues, calls_map,
}
use cplease.Pool.Functions.Ready.{queued-IsReady}
use cplease.Pool.Functions.Later.{Later, map_function-stopped}
use cplease.Pool.Functions.Observed.{keyed, observed_states}
use cplease.Pool.Functions.Maps.{functor_at, map_function-going, map_tasks-Queues}
use cplease.Pool.Functions.Reports.{reports, results_of, AllApart, Reported}
use cplease.Pool.Functions.Reports.Births.{observed-Reported}
use cplease.Pool.Functions.Reports.Programs.{Leads, Leads-Comes, Leads-Later, new_program, Owned}
use cplease.Pool.Functions.Reports.Owned.{mapped-Owned, mapped-AllFair, length-observed_states}
use cplease.Pool.Functions.Reports.Leading.{before-Owned, after-Owned}
use cplease.Pool.Functions.Reports.Amounts.{
  length-results_of, results_of-AllReady, get_or-results_of, mapped-Mem, reported-aggregate,
  all_reported, one_missing,
}

module _ {ℓ κ} {V : Type ℓ} {X : Type κ} (callbacks : Callbacks V X) (d : Values V)
    (self fuel base : ℕ) (range : List V) where
  -- A program that leaves the futures of this call of map to themselves.
  abbrev pub LeavesThem : (before origin program : Program V X) → Type (ℓ ⊔ κ)
  LeavesThem before origin program =
      Leads callbacks d self fuel base (length before.world.states) (length range) origin program

module _ {ℓ κ} {V : Type ℓ} {X : Type κ} (callbacks : Callbacks V X) (d : Values V)
    (self fuel num_threads base func : ℕ) (range : List V) (handlers : Callbacks (List V) X)
    (bad_variant_access : X) (fuel' aggregate : ℕ) where
  was_going :
      (before made : Program V X) (futures : Futures V V X)
      → map_function base d self func range before ≡ (made, some futures)
      → before.pool.stop ≡ false
  was_going before made futures e = elim (Bool-cases before.pool.stop) [
    | inl stopped ↦ absurd (
        none-ne-some futures (
          ap (λ (r : Program V X × Option (Futures V V X)). r.1)
            (sym (map_function-stopped base d self func range before stopped) ∙ e)))
    | inr going ↦ going
  ]

  module _ (before made after : Program V X) (futures : Futures V V X)
      (apart : AllApart base (length before.world.states) (length range) d func range)
      (starts_leads : LeavesThem callbacks d self fuel base range before
        (new_program num_threads)
        before)
      (e : map_function base d self func range before ≡ (made, some futures))
      (leads : LeavesThem callbacks d self fuel base range before made after) where
    abbrev n : ℕ
    n = length before.world.states

    abbrev rs : List (ResultVariant V X)
    rs = results_of d callbacks func range

    same : length rs ≡ length range
    same = length-results_of d callbacks func range

    made_as : made ≡ record {
      pool = notifying (length range) (map_tasks d self func range before).0.pool;
      world = record before.world {
        states = before.world.states ++ observed_states base d self n range;
      };
    }
    made_as =
        ap (λ (r : Program V X × Option (Futures V V X)). r.0)
          (sym e
            ∙ map_function-going d self base func range before (was_going before made futures e))

    futures_as : futures ≡ new_futures (keyed d n range)
    futures_as = some-injective futures (new_futures (keyed d n range)) (
        ap (λ (r : Program V X × Option (Futures V V X)). r.1)
          (sym e
            ∙ map_function-going d self base func range before (was_going before made futures e)))

    made-Owned : Owned base n rs callbacks made
    made-Owned =
        let leads' : Leads callbacks d self fuel base n (length rs) (new_program num_threads)
            before =
          subst (λ k. Leads callbacks d self fuel base n k (new_program num_threads) before)
            (sym same) starts_leads in
        let apart' : AllApart base n (length rs) d func range =
          subst (λ k. AllApart base n k d func range) (sym same) apart in
        let h : Owned base n rs callbacks before =
          before-Owned base n rs callbacks d self fuel num_threads before leads' (omega arith) in
        subst (Owned base n rs callbacks) (sym made_as) (
          mapped-Owned base n rs callbacks d self func range before
            (observed-Reported base n rs d self range before.world refl (sym same) h.reported)
            (mapped-AllFair base n rs callbacks d self func range n apart' λ j v found. inr (
              j,
              (
                subst (λ k. j < k) (sym same) (get_elem?-lt range j v found),
                (refl, get_or-results_of d callbacks func range j v found),
              ),
            ))
            h)

    size_made : length made.world.states ≡ n + length range
    size_made =
        ap (λ (p : Program V X). length p.world.states) made_as
        ∙ (length-append before.world.states _
            ∙ ap (λ k. n + k) (length-observed_states base n rs callbacks d self base range n))

    owned : Owned base n rs callbacks after
    owned =
        after-Owned base n rs callbacks d self fuel made after
          (subst (λ k. Leads callbacks d self fuel base n k made after) (sym same) leads)
          (omega (arith, size_made, same)) made-Owned

    aggregate_now :
        (u : World (List V) X)
        → IsWaiting aggregate fuel' u
        → 0 < length range
        → Told aggregate (length owned.reported.order == length rs) (expected rs) u (
            deliver handlers bad_variant_access
              (suc fuel')
              aggregate
              (reports base n (length range) after.world.log)
              futures
              u)
    aggregate_now u waiting some_value =
        subst
          (λ fs. Told aggregate (length owned.reported.order == length rs) (expected rs) u (
            deliver handlers bad_variant_access (suc fuel') aggregate
              (reports base n (length range) after.world.log) fs u))
          (sym futures_as)
          (subst
            (λ k. Told aggregate (length owned.reported.order == length rs) (expected rs) u (
              deliver handlers bad_variant_access (suc fuel') aggregate
                (reports base n k after.world.log) (new_futures {V = V} {X = X} (keyed d n range))
                u))
            same
            (reported-aggregate d base n rs handlers bad_variant_access fuel' aggregate u range
              waiting (omega (arith, same)) (sym same) (results_of-AllReady d callbacks func range)
              owned.reported))

    -- The future of each value is of a task that map queued.
    future-IsReady :
        0 < num_threads
        → num_threads < size_mod
        → after.pool.stop ≡ false
        → Quiet after.pool
        → (i : ℕ) → i < length rs
        → IsReady (n + i) after.world
    future-IsReady some_thread small going quiet i lt =
        let (v, found) = get_elem?-some range i (subst (λ k. i < k) same lt) in
        let task : PackagedTask V = record {
          func = functor_at d func i;
          arguments = v;
          promise = n + i;
        } in
        let queued : Mem task made.pool.queued =
          subst (λ (p : Program V X). Mem task p.pool.queued) (sym made_as)
            (subst (Mem task)
              (sym (map_tasks-Queues d self (λ p. p.pool.queued) (λ f w p. refl) func range before))
              (mem-append_right before.pool.queued (mapped-Mem d func range n i v found))) in
        let later : Later made after =
          Leads-Later callbacks d self fuel base n (length range) made after leads in
        let come_before : Comes callbacks d self fuel num_threads before =
          Leads-Comes callbacks d self fuel base n (length range) num_threads
            (new_program num_threads) before (begins (record { states = []; log = [] }))
            starts_leads in
        let come : Comes callbacks d self fuel num_threads after =
          Leads-Comes callbacks d self fuel base n (length range) num_threads made after
            (continues before made come_before (calls_map base func range futures e)) leads in
        (queued-IsReady callbacks d self fuel num_threads after task some_thread small come going
          quiet (later.queued task queued)).0

  -- A program makes a pool of threads and calls map on some values, at least one. Before and after
  -- that it calls run, map and quit and adds continuations and handlers, in any interleaving with the
  -- threads, the notifications and spurious wake-ups, but does not itself call the lambdas that report
  -- to the aggregate or add continuations that fulfil the promises of the futures. When the pool is not
  -- stopped, every notification was made and no thread can take a step, the calls of the lambdas that
  -- were made have fulfilled the aggregate promise, if they end, and the fuel does not run out. Then get
  -- on its future returns, in the order of the values and whatever the order in which the tasks have
  -- returned, what the function returns on the first value, what is left of it after a move on the
  -- second, after two moves on the third, and so on; or it throws the exception of the first value in
  -- that order that has one. This is for at least one thread and fewer than 2^64, while no call of a
  -- task has hung or has ended the process, and for an aggregate promise that is free, not ready and
  -- without an exception, with fuel above the number of the states that are not ready.
  pub map-aggregate :
      (before made after : Program V X) (futures : Futures V V X) (u : World (List V) X)
      → 0 < num_threads
      → num_threads < size_mod
      → 0 < length range
      → AllApart base (length before.world.states) (length range) d func range
      → LeavesThem callbacks d self fuel base range before (new_program num_threads) before
      → map_function base d self func range before ≡ (made, some futures)
      → LeavesThem callbacks d self fuel base range before made after
      → after.pool.stop ≡ false
      → Quiet after.pool
      → IsWaiting aggregate fuel' u
      → Told aggregate true (expected (results_of d callbacks func range)) u (
          deliver handlers bad_variant_access
            (suc fuel')
            aggregate
            (reports base (length before.world.states) (length range) after.world.log)
            futures
            u)
  map-aggregate before made after futures u some_thread small some_value apart starts e leads going
        quiet waiting =
      let rs : List (ResultVariant V X) = results_of d callbacks func range in
      let h : Reported base (length before.world.states) rs after.world =
        (owned before made after futures apart starts e leads).reported in
      let all : length h.order ≡ length rs =
        all_reported d base (length before.world.states) rs after.world
          (results_of-AllReady d callbacks func range) h
          (future-IsReady before made after futures apart starts e leads some_thread small going
            quiet) in
      let full : (length h.order == length rs) ≡ true = ground (arith, all) in
      subst
        (λ b. Told aggregate b (expected rs) u (
          deliver handlers bad_variant_access (suc fuel') aggregate
            (reports base (length before.world.states) (length range) after.world.log) futures u))
        full (aggregate_now before made after futures apart starts e leads u waiting some_value)

  -- In such a program, while the future of some value is not ready, the calls of the lambdas that
  -- were made return, and leave the aggregate promise as it is.
  pub map-not_yet :
      (before made after : Program V X) (futures : Futures V V X) (u : World (List V) X) (i : ℕ)
      (s : State V X)
      → 0 < length range
      → AllApart base (length before.world.states) (length range) d func range
      → LeavesThem callbacks d self fuel base range before (new_program num_threads) before
      → map_function base d self func range before ≡ (made, some futures)
      → LeavesThem callbacks d self fuel base range before made after
      → i < length range
      → get_elem? after.world.states (length before.world.states + i) ≡ some s
      → s.is_ready ≡ false
      → IsWaiting aggregate fuel' u
      → after_return (
          deliver handlers bad_variant_access
            (suc fuel')
            aggregate
            (reports base (length before.world.states) (length range) after.world.log)
            futures
            u)
        ≡ some u
  map-not_yet before made after futures u i s some_value apart starts e leads lt found waits
        waiting =
      let rs : List (ResultVariant V X) = results_of d callbacks func range in
      let h : Reported base (length before.world.states) rs after.world =
        (owned before made after futures apart starts e leads).reported in
      let fewer : length h.order < length rs =
        one_missing d base (length before.world.states) rs after.world i s
          (results_of-AllReady d callbacks func range) h
          (omega (arith, lt, length-results_of d callbacks func range)) found waits in
      let early : (length h.order == length rs) ≡ false = ground (arith, fewer) in
      subst
        (λ b. Told aggregate b (expected rs) u (
          deliver handlers bad_variant_access (suc fuel') aggregate
            (reports base (length before.world.states) (length range) after.world.log) futures u))
        early (aggregate_now before made after futures apart starts e leads u waiting some_value)
