-- ===== src/Tasks/Tracker.antt =====
-- `TaskTracker` (src/neixx/task/internal/task_tracker.cpp). Each method reads or changes one atomic
-- variable once, so it is one step; `CompleteShutdown` is two, the change of state and the wait.
pub mod Shutdown
use libnei.Common.{ℕ, ◌+◌, ◌-◌, ◌%◌, ◌^◌, Bool, true, false, not, ◌&&◌, ◌==◌, if◌then◌else◌}
use libnei.Tasks.Task.{
  TaskPriority, best_effort, TaskShutdownBehavior, skip_on_shutdown, block_shutdown,
  blocks_shutdown,
}

pub data ShutdownState : Type 0 where
  not_started started completed : ShutdownState

pub data CanRunPolicy : Type 0 where
  all foreground_only none_can : CanRunPolicy

-- `num_items_blocking_shutdown_` is an `int`: its 32 bits.
pub record TaskTracker : Type 0 where
  pub num_items_blocking_shutdown : ℕ
  pub shutdown_state : ShutdownState
  pub can_run_policy : CanRunPolicy

abbrev pub new_tracker : TaskTracker
new_tracker = record {
  num_items_blocking_shutdown = 0;
  shutdown_state = not_started;
  can_run_policy = all;
}

-- `StartShutdown`
pub start_shutdown : TaskTracker → TaskTracker
start_shutdown t = elim t.shutdown_state [
  | not_started ↦ record t { shutdown_state = started }
  | _ ↦ t
]

-- `CompleteShutdown` up to the wait, and whether it waits.
pub claim_completion : TaskTracker → Bool × TaskTracker
claim_completion t = elim t.shutdown_state [
  | started ↦ (true, record t { shutdown_state = completed })
  | _ ↦ (false, t)
]

-- What the wait is for.
unfoldable pub is_drained : TaskTracker → Bool
is_drained t = t.num_items_blocking_shutdown == 0

-- `>= ShutdownState::kStarted`
abbrev pub is_past : ShutdownState → Bool
is_past not_started = false
is_past _ = true

pub has_shutdown_started : TaskTracker → Bool
has_shutdown_started t = is_past t.shutdown_state

unfoldable pub is_shutdown_complete : TaskTracker → Bool
is_shutdown_complete t = elim t.shutdown_state [ completed ↦ true | _ ↦ false ]

abbrev is_skipped : TaskShutdownBehavior → Bool
is_skipped skip_on_shutdown = true
is_skipped _ = false

-- `WillPostTask`
pub will_post_task : TaskTracker → TaskShutdownBehavior → Bool
unfolding has_shutdown_started
will_post_task t behavior =
    if has_shutdown_started t && not (blocks_shutdown behavior) then false else true

-- `WillRunTask`
pub will_run_task : TaskTracker → TaskShutdownBehavior → Bool × TaskTracker
unfolding has_shutdown_started
will_run_task t behavior =
    if is_skipped behavior && has_shutdown_started t
    then (false, t)
    else if blocks_shutdown behavior
    then (
      true,
      record t { num_items_blocking_shutdown = (t.num_items_blocking_shutdown + 1) % 2 ^ 32 },
    )
    else (true, t)

-- `DidProcessTask`, and whether it wakes those who wait.
pub did_process_task : TaskTracker → TaskShutdownBehavior → Bool × TaskTracker
did_process_task t behavior = if not (blocks_shutdown behavior) then (false, t) else (
  t.num_items_blocking_shutdown == 1,
  record t { num_items_blocking_shutdown = (t.num_items_blocking_shutdown + 2 ^ 32 - 1) % 2 ^ 32 },
)

abbrev pub set_can_run_policy : TaskTracker → CanRunPolicy → TaskTracker
set_can_run_policy t policy = record t { can_run_policy = policy }

abbrev is_best_effort : TaskPriority → Bool
is_best_effort best_effort = true
is_best_effort _ = false

unfoldable pub can_run_priority : TaskTracker → TaskPriority → Bool
can_run_priority t priority = elim t.can_run_policy [
  | all ↦ true
  | foreground_only ↦ not (is_best_effort priority)
  | none_can ↦ false
]
