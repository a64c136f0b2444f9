-- ===== src/Tasks/Tests.antt =====
-- Runs of the task system's parts on concrete tasks, and the theorems at concrete inputs.
use libnei.Common.{
  ℕ, ◌+◌, ◌≡◌, ◌↔◌, refl, true, false, List, [], ◌∷◌, ◌++◌, some, arith, length, filter, not, count,
}
use libnei.Tasks.Task.{
  Task, default_traits, best_effort, continue_on_shutdown, skip_on_shutdown, block_shutdown,
  blocks_shutdown, is_shutdown_blocking_task,
}
use libnei.Tasks.SequencedTaskQueue.{
  SequencedTaskQueue, new_queue, refused, push_immediate_task, push_delayed_task,
  take_immediate_task, promote_ready_delayed_tasks, numbered, peek_next_delayed_run_time,
  has_immediate_work_on_consumer_side,
}
use libnei.Tasks.SequencedTaskQueue.Takes.{contents}
use libnei.Tasks.SequencedTaskQueue.Fifo.{started, pushed, took_one, fifo}
use libnei.Tasks.SequencedTaskQueue.Delayed.{is_ready, promote_ready_delayed_tasks_lem}
use libnei.Tasks.SequencedTaskQueue.Lifecycle.{
  Operation, post, post_delayed, take_one, take_many, promote, shut, fresh, history, AllBlocking,
}
use libnei.Tasks.SequencedTaskQueue.Invariant.{after_shutdown}
use libnei.Tasks.SequencedTaskQueue.Conservation.{blocking_tasks_kept}
use libnei.Tasks.Tracker.{
  will_post_task, will_run_task, is_drained, can_run_priority, new_tracker, foreground_only,
  set_can_run_policy, is_shutdown_complete,
}
use libnei.Tasks.Tracker.Shutdown.{
  TrackerStep, start, complete, run, done, track, tracked, no_tasks, blocking, drained_iff, gated,
}

-- A task that runs at a time, and one that the shutdown waits for.
abbrev at_time : ℕ → ℕ → Task
at_time callback time = record {
  task = some callback;
  delayed_run_time = time;
  sequence_num = 0;
  traits = default_traits;
}

abbrev blocker : ℕ → Task
blocker callback = record {
  task = some callback;
  delayed_run_time = 0;
  sequence_num = 0;
  traits = record default_traits { shutdown_behavior = block_shutdown };
}

abbrev posts : List Operation
posts = post (at_time 1 0) ∷ post (blocker 2) ∷ post (at_time 3 0) ∷ []

-- A batch stops behind the task that blocks the shutdown.
batch_of_posts :
    (history (posts ++ (take_many 5 ∷ [])) (fresh true)).taken
    ≡ numbered 1 (at_time 1 0) ∷ numbered 2 (blocker 2) ∷ []
unfolding history
batch_of_posts = refl

-- Two delayed tasks, of which the later one is due first.
abbrev delayed : List Operation
delayed = post_delayed (at_time 1 10) ∷ post_delayed (at_time 2 5) ∷ []

next_delayed_time : peek_next_delayed_run_time (history delayed (fresh true)).queue ≡ 5
unfolding history peek_next_delayed_run_time
next_delayed_time = refl

has_work_in_work_queue :
    has_immediate_work_on_consumer_side (history (posts ++ (take_one ∷ [])) (fresh true)).queue
    ≡ true
unfolding history has_immediate_work_on_consumer_side
has_work_in_work_queue = refl

abbrev promoted : SequencedTaskQueue
promoted = record (new_queue true) {
  delayed_sequence_num = 2;
  incoming_queue = numbered 2 (at_time 2 5) ∷ [];
  delayed_incoming_queue = numbered 1 (at_time 1 10) ∷ [];
}

promoted_lem : (history (delayed ++ (promote 5 ∷ [])) (fresh true)).queue ≡ promoted
unfolding history
promoted_lem = refl

fifo_example :
    numbered 1 (at_time 1 0) ∷ numbered 2 (at_time 2 0) ∷ []
    ≡ (numbered 1 (at_time 1 0) ∷ [])
      ++ contents (record (new_queue true) {
        immediate_sequence_num = 2;
        work_queue = numbered 2 (at_time 2 0) ∷ [];
      })
unfolding push_immediate_task take_immediate_task
fifo_example =
    fifo true
      (record (new_queue true) {
        immediate_sequence_num = 2;
        work_queue = numbered 2 (at_time 2 0) ∷ [];
      })
      (numbered 1 (at_time 1 0) ∷ numbered 2 (at_time 2 0) ∷ []) (numbered 1 (at_time 1 0) ∷ [])
      (took_one (pushed (at_time 2 0) refl (pushed (at_time 1 0) refl started)))

promote_ready_delayed_tasks_lem_example : promote_ready_delayed_tasks promoted 20 ≡ (
  length (filter (is_ready 20) promoted.delayed_incoming_queue),
  record promoted {
    incoming_queue =
        promoted.incoming_queue ++ filter (is_ready 20) promoted.delayed_incoming_queue;
    delayed_incoming_queue = filter (λ t. not (is_ready 20 t)) promoted.delayed_incoming_queue;
  },
)
promote_ready_delayed_tasks_lem_example = promote_ready_delayed_tasks_lem promoted 20 (tt, tt)

after_shutdown_example :
    AllBlocking (history (posts ++ (shut ∷ [])) (fresh true)).queue
    × (push_immediate_task (history (posts ++ (shut ∷ [])) (fresh true)).queue (blocker 4)
        ≡ refused)
    × (push_delayed_task (history (posts ++ (shut ∷ [])) (fresh true)).queue (blocker 4) ≡ refused)
unfolding history
after_shutdown_example = after_shutdown true (posts ++ (shut ∷ [])) (blocker 4) refl

blocking_tasks_kept_example :
    count is_shutdown_blocking_task
      (history (posts ++ (take_one ∷ shut ∷ [])) (fresh true)).entered_tasks
    ≡ count is_shutdown_blocking_task (history (posts ++ (take_one ∷ shut ∷ [])) (fresh true)).taken
      + (count is_shutdown_blocking_task
            (contents (history (posts ++ (take_one ∷ shut ∷ [])) (fresh true)).queue)
          + count is_shutdown_blocking_task
              (history (posts ++ (take_one ∷ shut ∷ [])) (fresh true)).queue.delayed_incoming_queue)
blocking_tasks_kept_example =
    blocking_tasks_kept is_shutdown_blocking_task (λ t h. h) true (posts ++ (take_one ∷ shut ∷ []))

abbrev two_run : List TrackerStep
two_run = run block_shutdown ∷ run skip_on_shutdown ∷ start ∷ complete ∷ []

-- The wait ends once the task that blocks it is done.
drained_after_done : is_drained (tracked (two_run ++ (done 1 ∷ [])) no_tasks).tracker ≡ true
unfolding tracked is_drained
drained_after_done = refl

completed_after_start : is_shutdown_complete (tracked two_run no_tasks).tracker ≡ true
unfolding tracked is_shutdown_complete
completed_after_start = refl

no_best_effort :
    can_run_priority (set_can_run_policy new_tracker foreground_only) best_effort ≡ false
unfolding can_run_priority
no_best_effort = refl

drained_iff_example :
    (is_drained (tracked two_run no_tasks).tracker ≡ true)
    ↔ (blocking (tracked two_run no_tasks) ≡ 0)
unfolding tracked count
drained_iff_example = drained_iff two_run (omega arith)

gated_example :
    (will_post_task
        (tracked (run block_shutdown ∷ []) (track start (tracked two_run no_tasks))).tracker
        continue_on_shutdown
      ≡ blocks_shutdown continue_on_shutdown)
    × (will_run_task
          (tracked (run block_shutdown ∷ []) (track start (tracked two_run no_tasks))).tracker
          skip_on_shutdown
        ≡ (
          false,
          (tracked (run block_shutdown ∷ []) (track start (tracked two_run no_tasks))).tracker,
        ))
gated_example = gated two_run (run block_shutdown ∷ []) continue_on_shutdown
