-- ===== src/Pool/Functions/Reports/Owned.antt =====
-- Each step of such a program of thread_pool.hpp keeps the reports of the futures in step with their states.
use cplease.Base.{
  ℕ, zero, suc, ◌+◌, ◌≤◌, ◌<◌, ◌≡◌, refl, sym, ap, subst, Bool, true, false, if◌then◌else◌, List,
  [], ◌∷◌, ◌++◌, length, length-append, get_elem?, get_elem?-lt, Option, none, some, ◌⊎◌, inl, inr,
  Bool-cases, arith,
}
use mathlib.Core.Option.{none-ne-some, some-injective}
use cplease.Future.Monad.{State}
use cplease.Future.{Callbacks}
use cplease.Futures.{ResultVariant}
use cplease.Pool.{enqueue, notifying}
use cplease.Pool.Functions.{Values, Program, run_function, map_function, map_tasks}
use cplease.Pool.Functions.Sound.{with_new, task_of, run_function-run}
use cplease.Pool.Functions.Later.{map_function-stopped}
use cplease.Pool.Functions.Observed.{fresh_state, observed_states}
use cplease.Pool.Functions.Maps.{
  mapped, functor_at, map_function-going, map_tasks-Queues, map_tasks-same,
}
use cplease.Pool.Functions.Reports.{Outside, Apart, AllApart, IsTame, Reported}
use cplease.Pool.Functions.Reports.Births.{append-Reported, get_elem?-observed_states}
use cplease.Pool.Functions.Reports.Calls.{IsOwn}
use cplease.Pool.Functions.Reports.Programs.{AllFair, Owned, enqueued-Fair}

module _ {ℓ κ} {V : Type ℓ} {X : Type κ} (base n : ℕ) (rs : List (ResultVariant V X))
    (callbacks : Callbacks V X) (d : Values V) (self : ℕ) where
  -- The futures are not made yet after a step, or are made before it.
  abbrev pub Phase : Program V X → Program V X → Type 0
  Phase before after =
      (length after.world.states ≤ n) ⊎ (n + length rs ≤ length before.world.states)

  abbrev pub AllOwned {ι} : {B : Type ι} → Program V X → Program V X × Option B → Type (ℓ ⊔ κ)
  AllOwned before (after, none) = Unit
  AllOwned before (after, some b) = Phase before after → Owned base n rs callbacks after

  one_fresh :
      (j : ℕ) (s : State V X)
      → get_elem? (fresh_state d self ∷ []) j ≡ some s
      → IsTame base n rs s × (j ≡ 0)
  one_fresh zero s e =
      (subst (IsTame base n rs) (some-injective (fresh_state d self) s e) (tt, tt), refl)
  one_fresh (suc j) s e = absurd (none-ne-some s e)

  enqueued-Owned :
      (func : ℕ) (arguments : V) (before : Program V X)
      → Apart base n (length rs) func
      → Outside base n (length rs) (length before.world.states)
      → Owned base n rs callbacks before
      → Owned base n rs callbacks (record {
        pool = notifying 1 (enqueue before.pool (task_of func arguments before.world));
        world = with_new d self before.world;
      })
  enqueued-Owned func arguments before apart outside h = record {
    reported =
        append-Reported base n rs before.world (fresh_state d self ∷ [])
          (λ j s e.
            let one = one_fresh j s e in
            (
              one.0,
              λ behind.
                  let there : n + length rs ≤ length before.world.states =
                    outside (omega (arith, behind, one.1)) in
                  omega (arith, there),
            ))
          h.reported;
    fair =
        enqueued-Fair base n rs callbacks before.pool
          (notifying 1 (enqueue before.pool (task_of func arguments before.world)))
          (task_of func arguments before.world ∷ []) h.fair refl refl ((apart, inl outside), tt);
  }

  pub run_function-Owned :
      (func : ℕ) (arguments : V) (before : Program V X)
      → Apart base n (length rs) func
      → Owned base n rs callbacks before
      → AllOwned before (run_function d self func arguments before)
  run_function-Owned func arguments before apart h =
      subst (AllOwned before) (sym (run_function-run d self func arguments before))
        (at_stop before.pool.stop)
    where
      outside :
          (length (before.world.states ++ (fresh_state d self ∷ [])) ≤ n)
            ⊎ (n + length rs ≤ length before.world.states)
          → Outside base n (length rs) (length before.world.states)
      outside (inl few) behind =
          absurd
            (omega (arith, length-append before.world.states (fresh_state {X = X} d self ∷ [])))
      outside (inr made) behind = made

      at_stop :
          (b : Bool)
          → AllOwned before (
              if b then (record before { world = with_new d self before.world }, none) else (
                record {
                  pool = notifying 1 (enqueue before.pool (task_of func arguments before.world));
                  world = with_new d self before.world;
                },
                some (length before.world.states),
              ))
      at_stop true = tt
      at_stop false = λ phase. enqueued-Owned func arguments before apart (outside phase) h

  pub mapped-AllFair :
      (func : ℕ) (range : List V) (k : ℕ)
      → AllApart base n (length rs) d func range
      → ((j : ℕ) (v : V)
          → get_elem? range j ≡ some v
          → IsOwn base n rs callbacks
              (record { func = functor_at d func j; arguments = v; promise = k + j }))
      → AllFair base n rs callbacks (mapped d func k range)
  mapped-AllFair func [] k apart own = tt
  mapped-AllFair func (v ∷ range) k apart own = (
    (apart.0, at_promise func v (k + 0) k (omega arith) (own 0 v refl)),
    mapped-AllFair (d.moved_functor func) range (suc k) apart.1 λ j u e.
        at_promise (functor_at d (d.moved_functor func) j) u (k + suc j) (suc k + j) (omega arith)
          (own (suc j) u e),
  )
    where
      at_promise :
          (func : ℕ) (v : V) (p q : ℕ)
          → p ≡ q
          → IsOwn base n rs callbacks (record { func = func; arguments = v; promise = p })
          → IsOwn base n rs callbacks (record { func = func; arguments = v; promise = q })
      at_promise func v p q e own =
          subst
            (λ r. IsOwn base n rs callbacks (record { func = func; arguments = v; promise = r })) e
            own

  pub length-observed_states :
      (base' : ℕ) (range : List V) (p : ℕ)
      → length (observed_states {X = X} base' d self p range) ≡ length range
  length-observed_states base' [] p = refl
  length-observed_states base' (v ∷ range) p = ap suc (length-observed_states base' range (suc p))

  -- What map has made.
  pub mapped-Owned :
      (func : ℕ) (range : List V) (before : Program V X)
      → Reported base n rs (record before.world {
        states =
            before.world.states ++ observed_states base d self (length before.world.states) range;
      })
      → AllFair base n rs callbacks (mapped d func (length before.world.states) range)
      → Owned base n rs callbacks before
      → Owned base n rs callbacks (record {
        pool = notifying (length range) (map_tasks d self func range before).0.pool;
        world = record before.world {
          states =
              before.world.states ++ observed_states base d self (length before.world.states) range;
        };
      })
  mapped-Owned func range before reported fair h = record {
    reported = reported;
    fair =
        enqueued-Fair base n rs callbacks before.pool
          (notifying (length range) (map_tasks d self func range before).0.pool)
          (mapped d func (length before.world.states) range) h.fair
          (map_tasks-Queues d self (λ p. p.pool.tasks) (λ f w p. refl) func range before)
          (map_tasks-same d self (λ p. p.threads) (λ pool task. refl) func range before) fair;
  }

  pub map_function-Owned :
      (func : ℕ) (range : List V) (before : Program V X)
      → AllApart base n (length rs) d func range
      → Owned base n rs callbacks before
      → AllOwned before (map_function base d self func range before)
  map_function-Owned func range before apart h = elim (Bool-cases before.pool.stop) [
    | inl stopped ↦
        subst (AllOwned before) (sym (map_function-stopped base d self func range before stopped))
          tt
    | inr going ↦
        subst (AllOwned before) (sym (map_function-going d self base func range before going))
          λ phase.
            mapped-Owned func range before
              (append-Reported base n rs before.world _
                (λ j s e.
                  let here = get_elem?-observed_states base d self range k j s e in
                  let out : Outside base n (length rs) (k + j) = outside phase j here.1 in
                  (subst (IsTame base n rs) (sym here.0) (lambda out, lambda out), out))
                h.reported)
              (mapped-AllFair func range k apart
                λ j v e. inl (outside phase j (get_elem?-lt range j v e)))
              h
  ]
    where
      k : ℕ
      k = length before.world.states

      news : List (State V X)
      news = observed_states base d self k range

      outside :
          (length (before.world.states ++ news) ≤ n) ⊎ (n + length rs ≤ k)
          → (j : ℕ) → j < length range
          → Outside base n (length rs) (k + j)
      outside (inl few) j lt behind = absurd (
          omega
            (arith, length-append before.world.states news, length-observed_states base range k))
      outside (inr made) j lt behind = omega arith

      lambda :
          {p : ℕ} → Outside base n (length rs) p → Apart base n (length rs) (base + p) × Unit {0}
      lambda {p} out =
          (λ behind. let there : n + length rs ≤ p = out (omega arith) in omega arith, tt)
