-- ===== src/Executor/Spawn.antt =====
-- `MictExecutor::spawn` of kernel/src/task/executor.rs, on every branch.
use polymorph_os.Prelude.{ℕ, ◌<◌, ◌≡◌, refl, []}
use polymorph_os.Prelude.{◌∷◌, ◌++◌, Option, none, some, ◌==◌, if◌then◌else◌, length, done, panic}
use polymorph_os.Executor
use polymorph_os.Executor.{ArrayQueue, Futures, MictExecutor, find, spawn}
use polymorph_os.Executor.Registry.{find-cons}

module _ (queues : ArrayQueue) (futures : Futures) where
  open queues use {Queue, new, push, pop, items, capacity}
  open futures use {Future, poll}

  -- `spawn` panics for an id that is registered, and if the ready queue is full; otherwise it registers
  -- the task, leaves the other tasks as they are, and puts the id behind the ids that are ready.
  pub spawn_lem :
      (e : MictExecutor queues futures) (id : ℕ) (future : Future)
      → ((old : Future) → find id e.registry ≡ some old → spawn queues futures e id future ≡ panic)
        × (length (items e.ready_queue) ≡ capacity e.ready_queue
            → spawn queues futures e id future ≡ panic)
        × (find id e.registry ≡ none
            → length (items e.ready_queue) < capacity e.ready_queue
            → (e' : MictExecutor queues futures) × (spawn queues futures e id future ≡ done e')
              × ((j : ℕ)
                  → find j e'.registry ≡ (if id == j then some future else find j e.registry))
              × (items e'.ready_queue ≡ items e.ready_queue ++ (id ∷ []))
              × (e'.waker_cache ≡ e.waker_cache)
              × (e'.current_tick ≡ e.current_tick))
  unfolding spawn
  spawn_lem e id future = (
    λ old h. rw (spawn, h),
    λ full. full_case (find id e.registry) full,
    λ free room.
        let (q, pushed, holds, _) = queues.push_room e.ready_queue id room in
        (
          record e { registry = (id, future) ∷ e.registry; ready_queue = q },
          rw (spawn, free, pushed),
          λ j. find-cons id j future e.registry,
          holds,
          refl,
          refl,
        ),
  )
    where
      full_case :
          (o : Option Future)
          → length (items e.ready_queue) ≡ capacity e.ready_queue
          → elim o as (λ _. Executor.Call (MictExecutor queues futures)) [
            | some old ↦ panic
            | none ↦ elim (push e.ready_queue id) [
              | none ↦ panic
              | some q ↦ done (record e { registry = (id, future) ∷ e.registry; ready_queue = q })
            ]
          ]
            ≡ panic
      full_case (some old) full = refl
      full_case none full = rw (queues.push_full e.ready_queue id full)
