-- ===== src/Tasks/SequencedTaskQueue.antt =====
-- `SequencedTaskQueue::Impl` (src/neixx/task/internal/sequenced_task_queue.cpp). An operation holds
-- the lock while it works on the shared fields, so it is one step on the state.
pub mod Takes
pub mod Fifo
pub mod Delayed
pub mod Lifecycle
pub mod Invariant
pub mod Conservation
pub mod Batch
pub mod Overtake
use libnei.Common.{
  ℕ, zero, suc, ◌+◌, ◌<◌, Bool, true, false, not, ◌&&◌, ◌||◌, List, [], ◌∷◌, ◌++◌, Option, none,
  some, ltb, leb, if◌then◌else◌, length, filter,
}
use libnei.Tasks.Task.{
  Task, TaskShutdownBehavior, TaskTraits, is_shutdown_blocking_task, runs_after,
}

pub record SequencedTaskQueue : Type 0 where
  pub single_consumer : Bool
  pub shut_down : Bool
  pub reject_new_tasks : Bool
  pub incoming_queue : List Task
  pub work_queue : List Task
  pub immediate_sequence_num : ℕ
  pub delayed_sequence_num : ℕ
  -- The `std::priority_queue`, as the list of its tasks in the order in which `top` gives them.
  pub delayed_incoming_queue : List Task
  -- Which of the three callbacks are set.
  pub on_task_posted : Bool
  pub on_task_enqueued : Bool
  pub on_delayed_task_posted : Bool

abbrev pub new_queue : Bool → SequencedTaskQueue
new_queue single_consumer = record {
  single_consumer = single_consumer;
  shut_down = false;
  reject_new_tasks = false;
  incoming_queue = [];
  work_queue = [];
  immediate_sequence_num = 0;
  delayed_sequence_num = 0;
  delayed_incoming_queue = [];
  on_task_posted = false;
  on_task_enqueued = false;
  on_delayed_task_posted = false;
}

-- The callbacks that a push calls once the lock is released, in this order.
pub data Notice : Type 0 where
  enqueued : TaskShutdownBehavior → Notice
  posted : Notice
  delayed_posted : Notice

abbrev when : Bool → Notice → List Notice
when true n = n ∷ []
when false n = []

-- A push that is rejected changes nothing and calls nothing.
pub data Pushed : Type 0 where
  refused : Pushed
  accepted : SequencedTaskQueue → List Notice → Pushed

abbrev pub is_null : Task → Bool
is_null t = elim t.task [ none ↦ true | some c ↦ false ]

abbrev is_closed : SequencedTaskQueue → Bool
is_closed q = q.shut_down || q.reject_new_tasks

-- `incoming_queue_.empty() || number >= incoming_queue_.back().sequence_num`
pub goes_last : ℕ → List Task → Bool
goes_last number [] = true
goes_last number (t ∷ []) = leb t.sequence_num number
goes_last number (t ∷ u ∷ ts) = goes_last number (u ∷ ts)

-- `insert` at `std::upper_bound`: before the first task with a greater number, in a range that the
-- numbers order.
pub insert_by_number : Task → List Task → List Task
insert_by_number t [] = t ∷ []
insert_by_number t (u ∷ us) =
    let rest = insert_by_number t us in
    if ltb t.sequence_num u.sequence_num then t ∷ u ∷ us else u ∷ rest

pub enqueue : Task → List Task → List Task
unfolding goes_last insert_by_number
enqueue t ts = if goes_last t.sequence_num ts then ts ++ (t ∷ []) else insert_by_number t ts

-- The number that the task gets.
abbrev pub immediate_number : SequencedTaskQueue → Task → ℕ
immediate_number q t = elim t.sequence_num [ zero ↦ q.immediate_sequence_num + 1 | suc n ↦ suc n ]

abbrev pub numbered : ℕ → Task → Task
numbered number t = record t { sequence_num = number }

-- The counter afterwards.
abbrev pub immediate_counter : SequencedTaskQueue → ℕ → ℕ
immediate_counter q number =
    if ltb q.immediate_sequence_num number then number else q.immediate_sequence_num

abbrev is_empty {ℓ} : {A : Type ℓ} → List A → Bool
is_empty [] = true
is_empty (x ∷ xs) = false

abbrev pub immediate_notices : SequencedTaskQueue → Task → List Notice
immediate_notices q t =
    when q.on_task_enqueued (enqueued t.traits.shutdown_behavior)
    ++ when (is_empty q.incoming_queue && q.on_task_posted) posted

unfoldable pub push_immediate_task : SequencedTaskQueue → Task → Pushed
unfolding enqueue
push_immediate_task q t =
    if is_null t || is_closed q
    then refused
    else accepted
        (record q {
          immediate_sequence_num = immediate_counter q (immediate_number q t);
          incoming_queue = enqueue (numbered (immediate_number q t) t) q.incoming_queue;
        })
        (immediate_notices q t)

-- `ReloadWorkQueueIfEmpty`
pub reload_work_queue_if_empty : SequencedTaskQueue → SequencedTaskQueue
reload_work_queue_if_empty q = elim q.work_queue [
  | [] ↦ record q { work_queue = q.incoming_queue; incoming_queue = [] }
  | t ∷ ts ↦ q
]

-- The queue that the consumer reads, and the state with another one in its place.
pub front_queue : SequencedTaskQueue → List Task
front_queue q = if q.single_consumer then q.work_queue else q.incoming_queue

pub with_front_queue : SequencedTaskQueue → List Task → SequencedTaskQueue
with_front_queue q ts =
    if q.single_consumer then record q { work_queue = ts } else record q { incoming_queue = ts }

pub before_take : SequencedTaskQueue → SequencedTaskQueue
unfolding reload_work_queue_if_empty
before_take q = if q.single_consumer then reload_work_queue_if_empty q else q

take_first : SequencedTaskQueue → List Task → Option Task × SequencedTaskQueue
unfolding with_front_queue
take_first q [] = (none, q)
take_first q (t ∷ ts) = (some t, with_front_queue q ts)

-- `TakeImmediateTask`; `none` is `return false`.
unfoldable pub take_immediate_task : SequencedTaskQueue → Option Task × SequencedTaskQueue
unfolding before_take front_queue take_first
take_immediate_task q = take_first (before_take q) (front_queue (before_take q))

-- The `while` loop of `TakeImmediateTasks`: what it takes, and what it leaves.
pub take_batch : ℕ → List Task → List Task × List Task
take_batch zero ts = ([], ts)
take_batch (suc n) [] = ([], [])
take_batch (suc n) (t ∷ ts) =
    let rest = take_batch n ts in
    if is_shutdown_blocking_task t then (t ∷ [], ts) else (t ∷ rest.0, rest.1)

pub take_immediate_tasks : SequencedTaskQueue → ℕ → List Task × SequencedTaskQueue
unfolding before_take front_queue take_batch with_front_queue
take_immediate_tasks q zero = ([], q)
take_immediate_tasks q (suc n) =
    let ready = before_take q in
    let batch = take_batch (suc n) (front_queue ready) in (batch.0, with_front_queue ready batch.1)

-- `push` of the heap.
pub push_heap : Task → List Task → List Task
push_heap t [] = t ∷ []
push_heap t (u ∷ us) = let rest = push_heap t us in if runs_after u t then t ∷ u ∷ us else u ∷ rest

abbrev pub delayed_number : SequencedTaskQueue → Task → ℕ
delayed_number q t = elim t.sequence_num [ zero ↦ q.delayed_sequence_num + 1 | suc n ↦ suc n ]

abbrev pub delayed_counter : SequencedTaskQueue → Task → ℕ
delayed_counter q t = elim t.sequence_num [
  | zero ↦ q.delayed_sequence_num + 1
  | suc n ↦ q.delayed_sequence_num
]

-- `should_notify`: the task becomes the one that runs next.
abbrev is_new_head : Task → List Task → Bool
is_new_head t [] = true
is_new_head t (u ∷ us) = ltb t.delayed_run_time u.delayed_run_time

abbrev pub delayed_notices : SequencedTaskQueue → Task → List Notice
delayed_notices q t =
    when q.on_task_enqueued (enqueued t.traits.shutdown_behavior)
    ++ (when (is_new_head t q.delayed_incoming_queue && q.on_task_posted) posted
        ++ when (is_new_head t q.delayed_incoming_queue && q.on_delayed_task_posted) delayed_posted)

pub push_delayed_task : SequencedTaskQueue → Task → Pushed
unfolding push_heap
push_delayed_task q t =
    if is_null t || is_closed q
    then refused
    else accepted
        (record q {
          delayed_sequence_num = delayed_counter q t;
          delayed_incoming_queue =
              push_heap (numbered (delayed_number q t) t) q.delayed_incoming_queue;
        })
        (delayed_notices q t)

-- The `while` loop of `PromoteReadyDelayedTasks`: what it pops, and what stays.
pub pop_ready : ℕ → List Task → List Task × List Task
pop_ready now [] = ([], [])
pop_ready now (t ∷ ts) =
    let rest = pop_ready now ts in
    if ltb now t.delayed_run_time then ([], t ∷ ts) else (t ∷ rest.0, rest.1)

pub promote_ready_delayed_tasks : SequencedTaskQueue → ℕ → ℕ × SequencedTaskQueue
unfolding pop_ready
promote_ready_delayed_tasks q now =
    let popped = pop_ready now q.delayed_incoming_queue in
    (
      length popped.0,
      record q { incoming_queue = q.incoming_queue ++ popped.0; delayed_incoming_queue = popped.1 },
    )

abbrev has_immediate_work : SequencedTaskQueue → Bool
has_immediate_work q = not (is_empty q.incoming_queue)

unfoldable pub has_immediate_work_on_consumer_side : SequencedTaskQueue → Bool
has_immediate_work_on_consumer_side q =
    if not q.single_consumer
    then has_immediate_work q
    else not (is_empty q.work_queue) || not (is_empty q.incoming_queue)

abbrev has_delayed_work : SequencedTaskQueue → Bool
has_delayed_work q = not (is_empty q.delayed_incoming_queue)

-- `PeekNextDelayedRunTime`, where 0 is the empty `TimeTicks()`.
unfoldable pub peek_next_delayed_run_time : SequencedTaskQueue → ℕ
peek_next_delayed_run_time q = elim q.delayed_incoming_queue [
  | [] ↦ 0
  | t ∷ ts ↦ t.delayed_run_time
]

-- The loop that moves the tasks of the heap to `kept_delayed`.
pub keep_delayed : List Task → List Task → List Task
unfolding push_heap
keep_delayed kept [] = kept
keep_delayed kept (t ∷ ts) =
    keep_delayed (if is_shutdown_blocking_task t then push_heap t kept else kept) ts

-- `CancelNonShutdownBlockingTasksLockedImpl`: both branches of the code filter `incoming_queue_`.
pub cancel_locked_impl : SequencedTaskQueue → SequencedTaskQueue
unfolding filter keep_delayed
cancel_locked_impl q = record q {
  incoming_queue = filter is_shutdown_blocking_task q.incoming_queue;
  delayed_incoming_queue = keep_delayed [] q.delayed_incoming_queue;
}

pub cancel_non_shutdown_blocking_tasks_locked : SequencedTaskQueue → SequencedTaskQueue
unfolding cancel_locked_impl
cancel_non_shutdown_blocking_tasks_locked q =
    cancel_locked_impl (record q { reject_new_tasks = true })

pub shutdown : SequencedTaskQueue → SequencedTaskQueue
unfolding cancel_locked_impl
shutdown q =
    if q.shut_down
    then q
    else cancel_locked_impl (record q { shut_down = true; reject_new_tasks = true })
