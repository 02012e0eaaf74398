-- ===== src/Executor/Drain.antt =====
-- The loop of `run_ready_tasks` in kernel/src/task/executor.rs ends, if the futures do not call wakers
-- without end.
use polymorph_os.Prelude.{
  ℕ, zero, suc, ◌+◌, ◌≤◌, ◌<◌, ◌≡◌, refl, true, false, List, [], ◌∷◌, ◌++◌, ◌%◌, ◌^◌, arith,
}
use polymorph_os.Prelude.{some, if◌then◌else◌, length, done, ◌∙◌}
use polymorph_os.Prelude.{length-append, ap, Bool-cases, List-cases, Option-cases, inl, inr}
use polymorph_os.Executor.{ArrayQueue, Futures, MictExecutor, find, run_task}
use polymorph_os.Executor.{run_ready_tasks, sleep_if_idle, run_round, Idle, enable, enable_and_hlt}
use polymorph_os.Executor.Registry.{load, load-put, load-remove}
use polymorph_os.Executor.Round.{run_task_lem, wake_all_lem}

module _ (queues : ArrayQueue) (futures : Futures) where
  open queues use {Queue, new, push, pop, items, capacity}
  open futures use {Future, poll}

  -- A budget of wakes: a poll's wakes, and the budget of a future that stays, are paid from it.
  abbrev pub Pays : (Future → ℕ) → Type 0
  Pays budget =
      (f : Future)
      → length (poll f).wakes + (if (poll f).is_ready then 0 else budget (poll f).future) ≤ budget f

  module _ (budget : Future → ℕ) (pays : Pays budget) where
    -- The ids that are queued, and the wakes that may still come.
    abbrev pub work : MictExecutor queues futures → ℕ
    work e = length (items e.ready_queue) + load budget e.registry

    load-find :
        (id : ℕ) (f : Future) (ts : List (ℕ × Future))
        → find id ts ≡ some f
        → budget f ≤ load budget ts
    load-find id f ts h = omega (arith, load-remove budget id f ts h)

    -- Running a popped id does not add to the work.
    run_task-work :
        (e : MictExecutor queues futures) (id : ℕ)
        → work e ≤ capacity e.ready_queue
        → (e' : MictExecutor queues futures) × (run_task queues futures e id ≡ done e')
          × (work e' ≤ work e)
          × (capacity e'.ready_queue ≡ capacity e.ready_queue)
    unfolding run_task
    run_task-work e id fits = elim (Option-cases (find id e.registry)) [
      | inl gone ↦ (e, rw (run_task, gone), omega arith, refl)
      | inr (f, h) ↦
          let enough : length (items e.ready_queue) + length (poll f).wakes
              ≤ capacity e.ready_queue =
            omega (arith, pays f, load-find id f e.registry h) in
          let (e', ran, _, _, queued, cap, tasks) = run_task_lem queues futures e id f h enough in
          let grown = ap length queued ∙ length-append (items e.ready_queue) (poll f).wakes in
          (
            e',
            ran,
            elim (Bool-cases (poll f).is_ready) [
              | inl y ↦
                  rw (tasks, y)
                    (omega (arith, grown, load-remove budget id f e.registry h, paid_ready f y))
              | inr n ↦
                  rw (tasks, n)
                    (omega (
                      arith,
                      grown,
                      load-put budget id f (poll f).future e.registry h,
                      paid_pending f n,
                    ))
            ],
            cap,
          )
    ]
      where
        paid_ready : (f : Future) → (poll f).is_ready ≡ true → length (poll f).wakes ≤ budget f
        paid_ready f y = omega (arith, pays f)

        paid_pending :
            (f : Future)
            → (poll f).is_ready ≡ false
            → length (poll f).wakes + budget (poll f).future ≤ budget f
        paid_pending f n = rw n at (pays f)

    run_ready_tasks_lem :
        (fuel : ℕ) (e : MictExecutor queues futures)
        → work e < fuel
        → work e ≤ capacity e.ready_queue
        → (e' : MictExecutor queues futures) × (run_ready_tasks queues futures fuel e ≡ done e')
          × (items e'.ready_queue ≡ [])
          × (capacity e'.ready_queue ≡ capacity e.ready_queue)
    unfolding run_ready_tasks
    run_ready_tasks_lem zero e lt fits = absurd (omega arith)
    run_ready_tasks_lem (suc fuel) e lt fits = elim (List-cases (items e.ready_queue)) [
      | inl empty ↦ (e, rw (run_ready_tasks, queues.pop_empty e.ready_queue empty), empty, refl)
      | inr (id, rest, some_left) ↦
          let (q, popped, holds, cap) = queues.pop_cons e.ready_queue id rest some_left in
          let e1 : MictExecutor queues futures = record e { ready_queue = q } in
          let fewer : suc (work e1) ≤ work e =
            omega (arith, ap length holds, ap length some_left) in
          let (e2, ran, less, cap2) = run_task-work e1 id (omega (arith, cap)) in
          let (e3, rest_ran, drained, cap3) =
            run_ready_tasks_lem fuel e2 (omega arith) (omega (arith, cap, cap2)) in
          (e3, rw (run_ready_tasks, popped, ran) rest_ran, drained, cap3 ∙ cap2 ∙ cap)
    ]

-- The processor is halted exactly if no id is queued at the check.
abbrev pub idle_of : List ℕ → Idle
idle_of [] = enable_and_hlt
idle_of (id ∷ ids) = enable

sleep_if_idle_lem :
    (queues : ArrayQueue) (futures : Futures) (e : MictExecutor queues futures) (ids : List ℕ)
    → queues.items e.ready_queue ≡ ids
    → sleep_if_idle queues futures e ≡ idle_of ids
unfolding sleep_if_idle
sleep_if_idle_lem queues futures e [] empty =
    rw (sleep_if_idle, queues.is_empty_nil e.ready_queue empty)
sleep_if_idle_lem queues futures e (id ∷ ids) some_left =
    rw (sleep_if_idle, queues.is_empty_cons e.ready_queue id ids some_left)

-- If every future pays its wakes from a budget, the queued ids with all the budgets fit into the ready
-- queue, and so do the ids woken late, then one round of `run`, on any fuel above that sum, returns: no
-- push fails, just the ids woken late are queued, and the processor is halted if there is none.
pub run_round_lem :
    (queues : ArrayQueue) (futures : Futures) (budget : futures.Future → ℕ) (fuel : ℕ)
    (late : List ℕ) (e : MictExecutor queues futures)
    → (paid : Pays queues futures budget) → work queues futures budget paid e < fuel
    → work queues futures budget paid e ≤ queues.capacity e.ready_queue
    → length late ≤ queues.capacity e.ready_queue
    → (e' : MictExecutor queues futures) × (run_round queues futures fuel late e
        ≡ done (idle_of late, e'))
      × (queues.items e'.ready_queue ≡ late)
unfolding run_round
run_round_lem queues futures budget fuel late e paid lt fits late_fits =
    let e1 : MictExecutor queues futures = record e {
      current_tick = (e.current_tick + 1) % 2 ^ 64;
    } in
    let (e2, ran, drained, cap) = run_ready_tasks_lem queues futures budget paid fuel e1 lt fits in
    let (q, woken, holds, _) =
      wake_all_lem queues futures late e2.ready_queue (omega (arith, ap length drained, cap)) in
    let queued : queues.items q ≡ late = holds ∙ ap (λ l. l ++ late) drained in
    let e3 : MictExecutor queues futures = record e2 { ready_queue = q } in
    (e3, rw (ran, woken, sleep_if_idle_lem queues futures e3 late queued), queued)
