-- ===== src/Executor.antt =====
-- kernel/src/task/executor.rs and kernel/src/task/mod.rs: tasks and the executor.
-- The registry is an association list from task ids to futures (the code reads its BTreeMap by key
-- only), the waker cache a list of the ids that have a waker, since a cached waker is determined by its
-- id. crossbeam's `ArrayQueue` and the futures are parameters: a poll answers whether the future is
-- ready, the future after it, and the ids whose wakers are called, by the future itself or by interrupts,
-- from the `pop` of the task's id to the next `pop`. `run_ready_tasks` is on fuel, a unit for each id
-- popped, and `spin` where the fuel is used up. A failed `expect` is `panic`.
pub mod Registry
pub mod Spawn
pub mod Round
pub mod Drain
pub mod Fair
mod Tests
use polymorph_os.Prelude.{
  ℕ, zero, suc, ◌+◌, ◌%◌, ◌^◌, ◌≤◌, ◌<◌, ◌≡◌, Bool, true, false, not, List, [],
}
use polymorph_os.Prelude.{
  ◌∷◌, ◌++◌, Option, none, some, ◌==◌, if◌then◌else◌, length, Run, done, panic,
}
use polymorph_os.Prelude.{spin, ◌>>=◌}

-- A bounded first-in first-out queue: a full one refuses a push, an empty one a pop.
pub record ArrayQueue : Type 1 where
  pub Queue : Type 0
  pub new : ℕ → Queue
  pub push : Queue → ℕ → Option Queue
  pub pop : Queue → Option (ℕ × Queue)
  pub is_empty : Queue → Bool
  pub items : Queue → List ℕ
  pub capacity : Queue → ℕ
  pub items-new : (n : ℕ) → items (new n) ≡ []
  pub capacity-new : (n : ℕ) → capacity (new n) ≡ n
  pub bounded : (q : Queue) → length (items q) ≤ capacity q
  pub push_full : (q : Queue) (x : ℕ) → length (items q) ≡ capacity q → push q x ≡ none
  pub push_room :
      (q : Queue) (x : ℕ)
      → length (items q) < capacity q
      → (q' : Queue) × (push q x ≡ some q')
        × (items q' ≡ items q ++ (x ∷ []))
        × (capacity q' ≡ capacity q)
  pub pop_empty : (q : Queue) → items q ≡ [] → pop q ≡ none
  pub is_empty_nil : (q : Queue) → items q ≡ [] → is_empty q ≡ true
  pub is_empty_cons : (q : Queue) (x : ℕ) (rest : List ℕ) → items q ≡ x ∷ rest → is_empty q ≡ false
  pub pop_cons :
      (q : Queue) (x : ℕ) (rest : List ℕ)
      → items q ≡ x ∷ rest
      → (q' : Queue) × (pop q ≡ some (x, q')) × (items q' ≡ rest) × (capacity q' ≡ capacity q)

pub record Polled (F : Type 0) : Type 0 where
  pub is_ready : Bool
  pub future : F
  pub wakes : List ℕ

-- The futures that tasks are made of.
pub record Futures : Type 1 where
  pub Future : Type 0
  pub poll : Future → Polled Future

abbrev pub Call : Type 0 → Type 0
Call A = Run ⊥ A

-- `TaskId::new`: the id, and the counter after `fetch_add` on a u64.
pub next_task_id : ℕ → ℕ × ℕ
next_task_id counter = (counter, (counter + 1) % 2 ^ 64)

-- `YieldNow`: pending once, waking its own task, and then ready.
pub poll_yield : ℕ → Bool → Polled Bool
poll_yield self yielded =
    if yielded
    then record { is_ready = true; future = yielded; wakes = [] }
    else record { is_ready = false; future = true; wakes = self ∷ [] }

pub data Idle : Type 0 where
  enable_and_hlt : Idle
  enable : Idle

abbrev pub Tasks : Type 0 → Type 0
Tasks F = List (ℕ × F)

module _ {F : Type 0} where
  pub find : ℕ → Tasks F → Option F
  find id [] = none
  find id ((k, f) ∷ ts) = if k == id then some f else find id ts

  -- A task found is changed in place.
  pub put : ℕ → F → Tasks F → Tasks F
  put id f [] = []
  put id f ((k, g) ∷ ts) = if k == id then (k, f) ∷ ts else (k, g) ∷ put id f ts

  pub remove : ℕ → Tasks F → Tasks F
  remove id [] = []
  remove id ((k, f) ∷ ts) = if k == id then remove id ts else (k, f) ∷ remove id ts

pub has : ℕ → List ℕ → Bool
has id [] = false
has id (k ∷ ks) = if k == id then true else has id ks

pub forget : ℕ → List ℕ → List ℕ
forget id [] = []
forget id (k ∷ ks) = if k == id then forget id ks else k ∷ forget id ks

module _ (queues : ArrayQueue) (futures : Futures) where
  open queues use {Queue, new, push, pop, is_empty}
  open futures use {Future, poll}

  pub record MictExecutor : Type 0 where
    pub registry : Tasks Future
    pub ready_queue : Queue
    pub waker_cache : List ℕ
    pub current_tick : ℕ

  pub new_executor : MictExecutor
  new_executor = record { registry = []; ready_queue = new 100; waker_cache = []; current_tick = 0 }

  pub spawn : MictExecutor → ℕ → Future → Call MictExecutor
  spawn e id future = elim (find id e.registry) [
    | some old ↦ panic
    | none ↦ elim (push e.ready_queue id) [
      | none ↦ panic
      | some q ↦ done (record e { registry = (id, future) ∷ e.registry; ready_queue = q })
    ]
  ]

  -- `wake_task`, for each waker called.
  pub wake_all : Queue → List ℕ → Call Queue
  wake_all q [] = done q
  wake_all q (id ∷ ids) = elim (push q id) [ none ↦ panic | some q' ↦ wake_all q' ids ]

  -- The body of the loop, for an id popped from the queue.
  pub run_task : MictExecutor → ℕ → Call MictExecutor
  run_task e id = elim (find id e.registry) [
    | none ↦ done e
    | some future ↦
        let cache = if has id e.waker_cache then e.waker_cache else id ∷ e.waker_cache in
        let polled = poll future in
        wake_all e.ready_queue polled.wakes >>= λ q.
        (if polled.is_ready
          then done (record e {
            registry = remove id e.registry;
            ready_queue = q;
            waker_cache = forget id cache;
          })
          else done (record e {
            registry = put id polled.future e.registry;
            ready_queue = q;
            waker_cache = cache;
          }))
  ]

  pub run_ready_tasks : ℕ → MictExecutor → Call MictExecutor
  run_ready_tasks zero e = spin
  run_ready_tasks (suc fuel) e = elim (pop e.ready_queue) [
    | none ↦ done e
    | some (id, q) ↦ run_task (record e { ready_queue = q }) id >>= λ e'. run_ready_tasks fuel e'
  ]

  pub sleep_if_idle : MictExecutor → Idle
  sleep_if_idle e = if is_empty e.ready_queue then enable_and_hlt else enable

  -- One round of `run`. `late` are the ids that interrupts wake after the last `pop` and before
  -- `sleep_if_idle` turns interrupts off; ids woken between two rounds are in the queue that the next
  -- one starts from.
  pub run_round : ℕ → List ℕ → MictExecutor → Call (Idle × MictExecutor)
  run_round fuel late e =
      run_ready_tasks fuel (record e { current_tick = (e.current_tick + 1) % 2 ^ 64 }) >>= λ e'.
      wake_all e'.ready_queue late >>= λ q.
      let e'' : MictExecutor = record e' { ready_queue = q } in done (sleep_if_idle e'', e'')
