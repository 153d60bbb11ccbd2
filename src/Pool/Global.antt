-- ===== src/Pool/Global.antt =====
-- The global instance of thread_pool.hpp and the free functions that use it. Its number of threads, an
-- int, is not negative.
use cplease.Base.{ℕ, ◌≡◌, refl, Bool, true, false, if◌then◌else◌, Option, none, some}
use cplease.Pool.{Pool, new_pool, run, quit}
use cplease.Pool.Wait.{Waiting, calling}

-- The static variables; the instance is none before its first use.
pub record Global {ℓ} (T : Type ℓ) : Type ℓ where
  pub count_threads : ℕ
  pub initialized : Bool
  pub instance_pool : Option (Pool T)

module _ {ℓ} {T : Type ℓ} where
  -- The Boolean is false if it throws.
  pub set_global_instance_thread_count : ℕ → Global T → Global T × Bool
  set_global_instance_thread_count num_threads global =
      let global' : Global T = record global { count_threads = num_threads } in
      if global.initialized then (global', false) else (global', true)

  pub global_instance : Global T → Global T × Pool T
  global_instance global = elim global.instance_pool [
    | some pool ↦ (record global { initialized = true }, pool)
    | none ↦
        let pool = new_pool global.count_threads in
        (record global { initialized = true; instance_pool = some pool }, pool)
  ]

  -- `plz::run` of a task; the Boolean is false if it throws.
  pub run_global : T → Global T → Global T × Bool
  run_global task global =
      let (global', pool) = global_instance global in
      elim (run pool task) [
        | none ↦ (global', false)
        | some pool' ↦ (record global' { instance_pool = some pool' }, true)
      ]

  pub quit_global : Global T → Global T
  quit_global global =
      let (global', pool) = global_instance global in
      record global' { instance_pool = some (quit pool) }

  -- `plz::wait` and `plz::wait_for` begin.
  pub wait_global : Global T → Global T × Waiting T
  wait_global global =
      let (global', pool) = global_instance global in
      (global', record { pool = pool; caller = calling })

  -- Once the instance was used, a new number of threads makes set_global_instance_thread_count throw and
  -- does not change the instance.
  set_global_instance_thread_count-global_instance :
      (num_threads : ℕ) (global : Global T)
      → ((set_global_instance_thread_count num_threads (global_instance global).0).1 ≡ false)
        × ((global_instance
              (set_global_instance_thread_count num_threads (global_instance global).0).0).1
            ≡ (global_instance global).1)
  unfolding set_global_instance_thread_count global_instance
  set_global_instance_thread_count-global_instance num_threads global =
      at_instance global.instance_pool
    where
      at_instance :
          (o : Option (Pool T))
          → ((set_global_instance_thread_count num_threads
                (global_instance (record global { instance_pool = o })).0).1
              ≡ false)
            × ((global_instance
                  (set_global_instance_thread_count num_threads
                    (global_instance (record global { instance_pool = o })).0).0).1
                ≡ (global_instance (record global { instance_pool = o })).1)
      at_instance none = (refl, refl)
      at_instance (some pool) = (refl, refl)
