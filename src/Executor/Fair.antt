-- ===== src/Executor/Fair.antt =====
-- `run_ready_tasks` of kernel/src/task/executor.rs runs the queued ids in order and starves none, also
-- where the tasks wake themselves without end.
use polymorph_os.Prelude.{ℕ, zero, suc, ◌+◌, ◌*◌, ◌≤◌, ◌≡◌, refl, sym, ap, List, [], ◌∷◌, ◌++◌}
use polymorph_os.Prelude.{arith, some, length, done, ◌∙◌, append-nil, append_assoc}
use polymorph_os.Prelude.{
  none, ◌⊎◌, ◌==◌, if◌then◌else◌, not, length-append, Option-cases, inl, inr,
}
use polymorph_os.Executor.{ArrayQueue, Futures, MictExecutor, find, has, run_task, run_ready_tasks}
use polymorph_os.Executor.Round.{run_task_lem}

-- The room that is left when one of `suc n` ids is popped, before and after its wakes.
room_lem :
    (k n x cap : ℕ)
    → suc x ≤ cap
    → suc x + k * suc n ≤ cap + suc n
    → (x + k ≤ cap) × ((w : ℕ) → w ≤ k → x + w + k * n ≤ cap + n)
room_lem zero n x cap one room = (omega arith, λ w le. omega arith)
room_lem (suc k) n x cap one room = (omega arith, λ w le. omega arith)

module _ (queues : ArrayQueue) (futures : Futures) where
  open queues use {Queue, pop, items, capacity}
  open futures use {Future, poll}

  -- What running an id comes to: nothing where no task of the id is registered; otherwise the task's
  -- future is polled once, a ready one leaves the registry with its waker, one that is not ready stays
  -- as the future that the poll left, with a waker, all other tasks and wakers stay, and the ids woken
  -- are queued in order.
  abbrev pub Ran : MictExecutor queues futures → ℕ → MictExecutor queues futures → Type 0
  Ran e id e' =
      ((find id e.registry ≡ none) × (e' ≡ e))
      ⊎ ((f : Future) × (find id e.registry ≡ some f)
          × ((j : ℕ)
              → find j e'.registry ≡ (
                  if id == j
                  then (if (poll f).is_ready then none else some (poll f).future)
                  else find j e.registry))
          × ((j : ℕ)
              → has j e'.waker_cache
                ≡ (if id == j then not (poll f).is_ready else has j e.waker_cache))
          × (items e'.ready_queue ≡ items e.ready_queue ++ (poll f).wakes))

  -- The ids that are popped and run, in order.
  abbrev pub Runs : MictExecutor queues futures → List ℕ → MictExecutor queues futures → Type 0
  Runs e [] e' = e' ≡ e
  Runs e (id ∷ ids) e' =
      (q : Queue) × (e1 : MictExecutor queues futures) × (pop e.ready_queue ≡ some (id, q))
      × (run_task queues futures (record e { ready_queue = q }) id ≡ done e1)
      × Ran (record e { ready_queue = q }) id e1
      × Runs e1 ids e'

  -- Between one poll and the next at most `k` wakers are called.
  abbrev pub WakesAtMost : ℕ → Type 0
  WakesAtMost k = (f : Future) → length (poll f).wakes ≤ k

  run_task-queued :
      (k : ℕ) (e : MictExecutor queues futures) (id : ℕ)
      → WakesAtMost k
      → length (items e.ready_queue) + k ≤ capacity e.ready_queue
      → (e' : MictExecutor queues futures) × (woken : List ℕ) × (run_task queues futures e id
          ≡ done e')
        × Ran e id e'
        × (items e'.ready_queue ≡ items e.ready_queue ++ woken)
        × (length woken ≤ k)
        × (capacity e'.ready_queue ≡ capacity e.ready_queue)
  unfolding run_task
  run_task-queued k e id few fits = elim (Option-cases (find id e.registry)) [
    | inl gone ↦ (
      e,
      [],
      rw (run_task, gone),
      inl (gone, refl),
      sym (append-nil (items e.ready_queue)),
      omega arith,
      refl,
    )
    | inr (f, h) ↦
        let (e', ran, registered, cached, queued, cap, _) =
          run_task_lem queues futures e id f h (omega (arith, few f)) in
        (e', (poll f).wakes, ran, inr (f, h, registered, cached, queued), queued, few f, cap)
  ]

  run_ready_tasks-next :
      (fuel : ℕ) (e : MictExecutor queues futures) (id : ℕ) (q : Queue)
      (e1 : MictExecutor queues futures)
      → pop e.ready_queue ≡ some (id, q)
      → run_task queues futures (record e { ready_queue = q }) id ≡ done e1
      → run_ready_tasks queues futures (suc fuel) e ≡ run_ready_tasks queues futures fuel e1
  unfolding run_ready_tasks
  run_ready_tasks-next fuel e id q e1 popped ran = rw (run_ready_tasks, popped, ran)

  run_ready_tasks-on :
      (n fuel : ℕ) (e : MictExecutor queues futures) (id : ℕ) (q : Queue)
      (e1 e2 : MictExecutor queues futures)
      → pop e.ready_queue ≡ some (id, q)
      → run_task queues futures (record e { ready_queue = q }) id ≡ done e1
      → run_ready_tasks queues futures (n + fuel) e1 ≡ run_ready_tasks queues futures fuel e2
      → run_ready_tasks queues futures (suc n + fuel) e ≡ run_ready_tasks queues futures fuel e2
  run_ready_tasks-on n fuel e id q e1 e2 popped ran on =
      let more : suc n + fuel ≡ suc (n + fuel) = omega arith in
      ap (λ m. run_ready_tasks queues futures m e) more
      ∙ run_ready_tasks-next (n + fuel) e id q e1 popped ran
      ∙ on

  -- If between one poll and the next at most `k` wakers are called, and `k` ids for each of those queued
  -- in front have room in the ready queue, counting the places that they leave, then no push fails, and
  -- `run_ready_tasks` first runs just the ids queued in front, in order: each polls once the task that is
  -- registered under it, if there is one, and no other. Then the queue holds the other ids that it held
  -- and, behind them, those woken meanwhile, and the loop goes on from there.
  pub run_ready_tasks_fair :
      (k : ℕ) (front behind : List ℕ) (e : MictExecutor queues futures)
      → WakesAtMost k
      → items e.ready_queue ≡ front ++ behind
      → length (items e.ready_queue) + k * length front ≤ capacity e.ready_queue + length front
      → (e' : MictExecutor queues futures) × (woken : List ℕ) × Runs e front e'
        × (items e'.ready_queue ≡ behind ++ woken)
        × (length woken ≤ k * length front)
        × ((fuel : ℕ)
            → run_ready_tasks queues futures (length front + fuel) e
              ≡ run_ready_tasks queues futures fuel e')
  unfolding run_ready_tasks
  run_ready_tasks_fair k [] behind e few holds fits = (
    e,
    [],
    refl,
    holds ∙ sym (append-nil behind),
    omega arith,
    λ fuel. rw (let z : 0 + fuel ≡ fuel = omega arith in z),
  )
  run_ready_tasks_fair k (id ∷ front) behind e few holds fits =
      let (q, popped, left, cap) = queues.pop_cons e.ready_queue id (front ++ behind) holds in
      let e0 : MictExecutor queues futures = record e { ready_queue = q } in
      let one_less : length (items e.ready_queue) ≡ suc (length (items q)) =
        omega (arith, ap length left, ap length holds) in
      let (room, room_after) =
        room_lem k (length front) (length (items q)) (capacity q)
          (omega (arith, cap, one_less, queues.bounded e.ready_queue))
          (rw (one_less, ← cap) at fits) in
      let (e1, woken1, ran, polled, queued, few1, cap1) = run_task-queued k e0 id few room in
      let next = queued ∙ ap (λ l. l ++ woken1) left ∙ append_assoc front behind woken1 in
      let (e2, woken2, runs, holds2, few2, on) =
        run_ready_tasks_fair k front (behind ++ woken1) e1 few next (
          omega (
            arith,
            cap1,
            ap length queued,
            length-append (items q) woken1,
            room_after (length woken1) few1,
          )) in
      (
        e2,
        woken1 ++ woken2,
        (q, e1, popped, ran, polled, runs),
        holds2 ∙ append_assoc behind woken1 woken2,
        omega (arith, length-append woken1 woken2),
        λ fuel. run_ready_tasks-on (length front) fuel e id q e1 e2 popped ran (on fuel),
      )
