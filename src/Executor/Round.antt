-- ===== src/Executor/Round.antt =====
-- One popped task id of `run_ready_tasks` in kernel/src/task/executor.rs.
use polymorph_os.Prelude.{ℕ, ◌+◌, ◌≤◌, ◌≡◌, refl, not, List, [], arith}
use polymorph_os.Prelude.{◌∷◌, ◌++◌, none, some, ◌==◌, if◌then◌else◌, length, done, ◌∙◌}
use polymorph_os.Prelude.{append-nil, append_assoc, length-append, sym, ap, Bool-cases, inl, inr}
use polymorph_os.Executor.{ArrayQueue, Futures, MictExecutor, find, put, remove, has, forget}
use polymorph_os.Executor.{wake_all, run_task}
use polymorph_os.Executor.Registry.{find-put, find-remove, has-forget, has-cached, cached}

module _ (queues : ArrayQueue) (futures : Futures) where
  open queues use {Queue, new, push, pop, items, capacity}
  open futures use {Future, poll}

  -- Wakes that fit are queued in order.
  pub wake_all_lem :
      (ids : List ℕ) (q : Queue)
      → length (items q) + length ids ≤ capacity q
      → (q' : Queue) × (wake_all queues futures q ids ≡ done q')
        × (items q' ≡ items q ++ ids)
        × (capacity q' ≡ capacity q)
  unfolding wake_all
  wake_all_lem [] q fits = (q, refl, sym (append-nil (items q)), refl)
  wake_all_lem (id ∷ ids) q fits =
      let (q1, pushed, holds, cap) = queues.push_room q id (omega arith) in
      let fits1 : length (items q1) + length ids ≤ capacity q1 =
        omega (arith, ap length holds, length-append (items q) (id ∷ []), cap) in
      let (q2, rest, holds2, cap2) = wake_all_lem ids q1 fits1 in
      (
        q2,
        rw (wake_all, pushed) rest,
        holds2 ∙ ap (λ l. l ++ ids) holds ∙ append_assoc (items q) (id ∷ []) ids,
        cap2 ∙ cap,
      )

  -- For a registered id whose poll calls wakers that fit into the ready queue, `run_task` returns. If
  -- the future is ready, its task leaves the registry and the waker cache; otherwise the task stays,
  -- with its new future, and has a waker. All other tasks and wakers stay as they are, and the ids woken
  -- are queued in order.
  pub run_task_lem :
      (e : MictExecutor queues futures) (id : ℕ) (f : Future)
      → find id e.registry ≡ some f
      → length (items e.ready_queue) + length (poll f).wakes ≤ capacity e.ready_queue
      → (e' : MictExecutor queues futures) × (run_task queues futures e id ≡ done e')
        × ((j : ℕ)
            → find j e'.registry ≡ (
                if id == j
                then (if (poll f).is_ready then none else some (poll f).future)
                else find j e.registry))
        × ((j : ℕ)
            → has j e'.waker_cache
              ≡ (if id == j then not (poll f).is_ready else has j e.waker_cache))
        × (items e'.ready_queue ≡ items e.ready_queue ++ (poll f).wakes)
        × (capacity e'.ready_queue ≡ capacity e.ready_queue)
        × (e'.registry ≡ (
            if (poll f).is_ready then remove id e.registry else put id (poll f).future e.registry))
  unfolding run_task
  run_task_lem e id f h fits =
      let (q, woken, holds, cap) = wake_all_lem (poll f).wakes e.ready_queue fits in
      elim (Bool-cases (poll f).is_ready) [
        | inl y ↦ (
          record e {
            registry = remove id e.registry;
            ready_queue = q;
            waker_cache = forget id (cached id e.waker_cache);
          },
          rw (run_task, h, woken, y),
          λ j. rw y (find-remove id j e.registry),
          λ j. rw y (
              has-forget id j (cached id e.waker_cache)
              ∙ ground (arith, has-cached id j e.waker_cache)),
          holds,
          cap,
          rw y,
        )
        | inr n ↦ (
          record e {
            registry = put id (poll f).future e.registry;
            ready_queue = q;
            waker_cache = cached id e.waker_cache;
          },
          rw (run_task, h, woken, n),
          λ j. rw n (find-put id j f (poll f).future e.registry h),
          λ j. rw n (has-cached id j e.waker_cache),
          holds,
          cap,
          rw n,
        )
      ]
