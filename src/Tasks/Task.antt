-- ===== src/Tasks/Task.antt =====
-- `Task` (src/neixx/task/internal/task.h) and its traits (include/neixx/task/task_traits.h).
use libnei.Common.{ℕ, Bool, true, false, ◌||◌, ◌&&◌, Option, ltb, ◌==◌}

pub data TaskPriority : Type 0 where
  best_effort user_visible user_blocking : TaskPriority

pub data TaskShutdownBehavior : Type 0 where
  continue_on_shutdown skip_on_shutdown block_shutdown : TaskShutdownBehavior

pub record TaskTraits : Type 0 where
  pub priority : TaskPriority
  pub shutdown_behavior : TaskShutdownBehavior
  pub may_block : Bool

abbrev pub default_traits : TaskTraits
default_traits = record {
  priority = user_visible;
  shutdown_behavior = continue_on_shutdown;
  may_block = false;
}

-- A callback is known by a number, and `none` is a null callback. A time is a count of ticks.
pub record Task : Type 0 where
  pub task : Option ℕ
  pub delayed_run_time : ℕ
  pub sequence_num : ℕ
  pub traits : TaskTraits

-- `IsShutdownBlockingTask`, on the traits.
abbrev pub blocks_shutdown : TaskShutdownBehavior → Bool
blocks_shutdown block_shutdown = true
blocks_shutdown _ = false

abbrev pub is_shutdown_blocking_task : Task → Bool
is_shutdown_blocking_task t = blocks_shutdown t.traits.shutdown_behavior

-- `operator>`: a later run time, or the same time and a greater number.
abbrev pub runs_after : Task → Task → Bool
runs_after t other =
    ltb other.delayed_run_time t.delayed_run_time
    || (t.delayed_run_time == other.delayed_run_time && ltb other.sequence_num t.sequence_num)
