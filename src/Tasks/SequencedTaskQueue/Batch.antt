-- ===== src/Tasks/SequencedTaskQueue/Batch.antt =====
-- The batch that `TakeImmediateTasks` takes.
use libnei.Common.{
  ℕ, zero, suc, ◌≤◌, ◌<◌, ◌≡◌, Bool, false, List, [], ◌∷◌, arith, Bool-cases, length, inl, inr,
  length-append,
}
use libnei.Tasks.Task.{Task, is_shutdown_blocking_task}
use libnei.Tasks.SequencedTaskQueue.{
  SequencedTaskQueue, reload_work_queue_if_empty, front_queue, before_take, take_batch,
  take_immediate_tasks,
}
use libnei.Tasks.SequencedTaskQueue.Takes.{contents, IsSplit}
use libnei.Tasks.SequencedTaskQueue.Lifecycle.{Operation, fresh, history}
use libnei.Tasks.SequencedTaskQueue.Invariant.{history-IsValid, new_queue-IsValid}

-- Only the last task may block the shutdown.
abbrev pub StopsAtBlocking : List Task → Type 0
StopsAtBlocking [] = Unit
StopsAtBlocking (t ∷ []) = Unit
StopsAtBlocking (t ∷ u ∷ ts) = (is_shutdown_blocking_task t ≡ false) × StopsAtBlocking (u ∷ ts)

stops_cons :
    (t : Task) (ts : List Task)
    → is_shutdown_blocking_task t ≡ false
    → StopsAtBlocking ts
    → StopsAtBlocking (t ∷ ts)
stops_cons t [] e h = tt
stops_cons t (u ∷ ts) e h = (e, h)

take_batch-StopsAtBlocking : (n : ℕ) (ts : List Task) → StopsAtBlocking (take_batch n ts).0
unfolding take_batch
take_batch-StopsAtBlocking zero ts = tt
take_batch-StopsAtBlocking (suc n) [] = tt
take_batch-StopsAtBlocking (suc n) (t ∷ ts) = elim (Bool-cases (is_shutdown_blocking_task t)) [
  | inl e ↦ rw e tt
  | inr e ↦ rw e (stops_cons t (take_batch n ts).0 e (take_batch-StopsAtBlocking n ts))
]

length-take_batch : (n : ℕ) (ts : List Task) → length (take_batch n ts).0 ≤ n
unfolding take_batch
length-take_batch zero ts = omega arith
length-take_batch (suc n) [] = omega arith
length-take_batch (suc n) (t ∷ ts) = ground (arith, length-take_batch n ts)

take_batch_some : (n : ℕ) (ts : List Task) → 0 < length ts → 0 < length (take_batch (suc n) ts).0
unfolding take_batch
take_batch_some n [] h = absurd (omega arith)
take_batch_some n (t ∷ ts) h = ground arith

-- A queue with work has work where the take looks for it.
front_some :
    (q : SequencedTaskQueue)
    → IsSplit q
    → 0 < length (contents q)
    → 0 < length (front_queue (before_take q))
unfolding before_take front_queue reload_work_queue_if_empty
front_some q split h = ground (arith, length-append q.work_queue q.incoming_queue)

-- A batch holds `max_tasks` tasks at most, and none but its last one blocks the shutdown.
pub take_immediate_tasks_lem :
    (q : SequencedTaskQueue) (max_tasks : ℕ)
    → (length (take_immediate_tasks q max_tasks).0 ≤ max_tasks)
      × StopsAtBlocking (take_immediate_tasks q max_tasks).0
unfolding take_immediate_tasks
take_immediate_tasks_lem q zero = (omega arith, tt)
take_immediate_tasks_lem q (suc n) =
    let ts = front_queue (before_take q) in
    (length-take_batch (suc n) ts, take_batch-StopsAtBlocking (suc n) ts)

-- Whatever a new queue went through: a batch is not empty where a task may be taken and the consumer
-- has one to take.
take_immediate_tasks_some :
    (single_consumer : Bool) (os : List Operation) (max_tasks : ℕ)
    → 0 < max_tasks
    → 0 < length (contents (history os (fresh single_consumer)).queue)
    → 0 < length (take_immediate_tasks (history os (fresh single_consumer)).queue max_tasks).0
unfolding take_immediate_tasks
take_immediate_tasks_some single_consumer os zero allowed work = absurd (omega arith)
take_immediate_tasks_some single_consumer os (suc n) allowed work =
    let q = (history os (fresh single_consumer)).queue in
    let valid = history-IsValid os (fresh single_consumer) (new_queue-IsValid single_consumer) in
    take_batch_some n (front_queue (before_take q)) (front_some q valid.split work)
