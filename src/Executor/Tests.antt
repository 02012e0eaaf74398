-- ===== src/Executor/Tests.antt =====
-- Runs of the executor of kernel/src/task/executor.rs with tasks that yield once.
use polymorph_os.Prelude.{
  ℕ, zero, suc, ◌+◌, ◌≤◌, ◌<◌, ◌≡◌, refl, Bool, true, false, List, [], arith,
}
use polymorph_os.Prelude.{◌∷◌, ◌++◌, Option, none, some, length, done, ap, inl, inr, ◌⊎◌}
use polymorph_os.Prelude.{length-append}
use polymorph_os.Executor
use polymorph_os.Executor.{ArrayQueue, Futures, MictExecutor, find, poll_yield}
use polymorph_os.Executor.{run_round, run_ready_tasks, next_task_id, enable}
use polymorph_os.Executor.Fair.{Runs, WakesAtMost, run_ready_tasks_fair}

-- The free places of a queue, and what it holds.
record Places : Type 0 where
  free : ℕ
  held : List ℕ

push : Places → ℕ → Option Places
push q x = elim q.free [
  | zero ↦ none
  | suc n ↦ some (record { free = n; held = q.held ++ (x ∷ []) })
]

pop : Places → Option (ℕ × Places)
pop q = elim q.held [ [] ↦ none | x ∷ rest ↦ some (x, record { free = suc q.free; held = rest }) ]

is_empty : Places → Bool
is_empty q = elim q.held [ [] ↦ true | _ ∷ _ ↦ false ]

no_place : (q : Places) (x : ℕ) → q.free ≡ 0 → push q x ≡ none
unfolding push
no_place q x h = rw h

a_place :
    (n : ℕ) (q : Places) (x : ℕ)
    → q.free ≡ suc n
    → push q x ≡ some (record { free = n; held = q.held ++ (x ∷ []) })
unfolding push
a_place n q x h = rw h

no_item : (q : Places) → q.held ≡ [] → pop q ≡ none
unfolding pop
no_item q h = rw h

an_item :
    (q : Places) (x : ℕ) (rest : List ℕ)
    → q.held ≡ x ∷ rest
    → pop q ≡ some (x, record { free = suc q.free; held = rest })
unfolding pop
an_item q x rest h = rw h

-- A place is free, or none is.
free-cases : (n : ℕ) → (n ≡ 0) ⊎ ((m : ℕ) × (n ≡ suc m))
free-cases zero = inl refl
free-cases (suc m) = inr (m, refl)

room_lem :
    (q : Places) (x : ℕ)
    → length q.held < q.free + length q.held
    → (q' : Places) × (push q x ≡ some q')
      × (q'.held ≡ q.held ++ (x ∷ []))
      × (q'.free + length q'.held ≡ q.free + length q.held)
room_lem q x room = elim (free-cases q.free) [
  | inl z ↦ absurd (omega arith)
  | inr (m, s) ↦ (
    record { free = m; held = q.held ++ (x ∷ []) },
    a_place m q x s,
    refl,
    omega (arith, s, length-append q.held (x ∷ [])),
  )
]

pop_lem :
    (q : Places) (x : ℕ) (rest : List ℕ)
    → q.held ≡ x ∷ rest
    → (q' : Places) × (pop q ≡ some (x, q'))
      × (q'.held ≡ rest)
      × (q'.free + length q'.held ≡ q.free + length q.held)
pop_lem q x rest h = (
  record { free = suc q.free; held = rest },
  an_item q x rest h,
  refl,
  omega (arith, ap length h),
)

is_empty-held : (q : Places) → q.held ≡ [] → is_empty q ≡ true
unfolding is_empty
is_empty-held q h = rw h

is_empty-cons : (q : Places) (x : ℕ) (rest : List ℕ) → q.held ≡ x ∷ rest → is_empty q ≡ false
unfolding is_empty
is_empty-cons q x rest h = rw h

abbrev places : ArrayQueue
places = record {
  Queue = Places;
  new = λ n. record { free = n; held = [] };
  push = push;
  pop = pop;
  is_empty = is_empty;
  items = λ q. q.held;
  capacity = λ q. q.free + length q.held;
  items-new = λ n. refl;
  capacity-new = λ n. omega arith;
  bounded = λ q. omega arith;
  push_full = λ q x full. no_place q x (omega arith);
  push_room = room_lem;
  pop_empty = no_item;
  is_empty_nil = is_empty-held;
  is_empty_cons = is_empty-cons;
  pop_cons = pop_lem;
}

-- A task that awaits `yield_now()` once, with its own id.
abbrev yielding : Futures
yielding = record {
  Future = ℕ × Bool;
  poll = λ (self, yielded).
      let p = poll_yield self yielded in
      record { is_ready = p.is_ready; future = (self, p.future); wakes = p.wakes };
}

yielding-WakesAtMost : WakesAtMost places yielding 1
unfolding poll_yield
yielding-WakesAtMost (self, true) = omega arith
yielding-WakesAtMost (self, false) = omega arith

-- Task 4 is queued, task 9 waits.
abbrev two_tasks : MictExecutor places yielding
two_tasks = record {
  registry = (4, (4, false)) ∷ (9, (9, true)) ∷ [];
  ready_queue = record { free = 5; held = 4 ∷ [] };
  waker_cache = 9 ∷ [];
  current_tick = 12;
}

ids_wrap : next_task_id 18446744073709551615 ≡ (18446744073709551615, 0)
unfolding next_task_id
ids_wrap = refl

four_found : find 4 two_tasks.registry ≡ some (4, false)
unfolding find
four_found = refl

-- Task 4 yields, task 9 is woken late: the processor is not halted.
late_wake :
    run_round places yielding 3 (9 ∷ []) two_tasks
    ≡ done (
      enable,
      record {
        registry = (9, (9, true)) ∷ [];
        ready_queue = record { free = 5; held = 9 ∷ [] };
        waker_cache = 9 ∷ [];
        current_tick = 13;
      },
    )
unfolding run_round poll_yield find push pop is_empty run_ready_tasks Executor.run_task
    Executor.wake_all Executor.put Executor.sleep_if_idle Executor.remove Executor.forget
    Executor.has
late_wake = refl

run_ready_tasks_fair_example :
    (e' : MictExecutor places yielding) × (woken : List ℕ) × Runs places yielding two_tasks
      (4 ∷ [])
      e'
    × (e'.ready_queue.held ≡ [] ++ woken)
    × (length woken ≤ 1)
    × ((fuel : ℕ)
        → run_ready_tasks places yielding (1 + fuel) two_tasks
          ≡ run_ready_tasks places yielding fuel e')
run_ready_tasks_fair_example =
    run_ready_tasks_fair places yielding 1 (4 ∷ []) [] two_tasks yielding-WakesAtMost refl
      (omega arith)
