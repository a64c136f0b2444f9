-- ===== src/Tasks/SequencedTaskQueue/Lifecycle.antt =====
-- A queue over all its operations: what stays true of it, and what becomes of the tasks.
use libnei.Common.{
  ℕ, ◌≡◌, refl, ◌⊎◌, inl, inr, Bool, true, false, ◌||◌, List, [], ◌∷◌, ◌++◌, arith, Bool-cases, All,
}
use libnei.Tasks.Task.{Task, is_shutdown_blocking_task}
use libnei.Tasks.SequencedTaskQueue.{
  SequencedTaskQueue, new_queue, refused, accepted, is_null, is_closed, enqueue, immediate_number,
  numbered, immediate_counter, immediate_notices, push_immediate_task, take_immediate_task,
  take_immediate_tasks, push_heap, delayed_number, delayed_counter, delayed_notices,
  push_delayed_task, promote_ready_delayed_tasks, cancel_non_shutdown_blocking_tasks_locked,
  shutdown,
}
use libnei.Tasks.SequencedTaskQueue.Takes.{IsSplit, to_list}
use libnei.Tasks.SequencedTaskQueue.Fifo.{after_push, entered}
use libnei.Tasks.SequencedTaskQueue.Delayed.{IsOrdered}

pub data Operation : Type 0 where
  post post_delayed : Task → Operation
  take_one : Operation
  take_many promote : ℕ → Operation
  cancel shut : Operation

-- The queue, the tasks that entered it and those that were taken.
pub record History : Type 0 where
  pub queue : SequencedTaskQueue
  pub entered_tasks : List Task
  pub taken : List Task

abbrev pub fresh : Bool → History
fresh single_consumer = record { queue = new_queue single_consumer; entered_tasks = []; taken = [] }

unfoldable pub apply : Operation → History → History
unfolding push_immediate_task take_immediate_task take_immediate_tasks push_delayed_task
    promote_ready_delayed_tasks cancel_non_shutdown_blocking_tasks_locked shutdown
apply (post t) h =
    let result = push_immediate_task h.queue t in
    record h {
      queue = after_push h.queue result;
      entered_tasks = h.entered_tasks ++ entered (numbered (immediate_number h.queue t) t) result;
    }
apply (post_delayed t) h =
    let result = push_delayed_task h.queue t in
    record h {
      queue = after_push h.queue result;
      entered_tasks = h.entered_tasks ++ entered (numbered (delayed_number h.queue t) t) result;
    }
apply take_one h =
    let result = take_immediate_task h.queue in
    record h { queue = result.1; taken = h.taken ++ to_list result.0 }
apply (take_many n) h =
    let result = take_immediate_tasks h.queue n in
    record h { queue = result.1; taken = h.taken ++ result.0 }
apply (promote now) h = record h { queue = (promote_ready_delayed_tasks h.queue now).1 }
apply cancel h = record h { queue = cancel_non_shutdown_blocking_tasks_locked h.queue }
apply shut h = record h { queue = shutdown h.queue }

-- A history after operations, the first one first.
unfoldable pub history : List Operation → History → History
unfolding apply
history [] h = h
history (o ∷ os) h = history os (apply o h)

abbrev pub Blocking : Task → Type 0
Blocking t = is_shutdown_blocking_task t ≡ true

abbrev pub AllBlocking : SequencedTaskQueue → Type 0
AllBlocking q = All Blocking q.incoming_queue × All Blocking q.delayed_incoming_queue

pub record IsValid (q : SequencedTaskQueue) : Type 0 where
  pub ordered : IsOrdered q.delayed_incoming_queue
  pub split : IsSplit q
  -- After `Shutdown` the shared queues hold only tasks that block it.
  pub drained : q.shut_down ≡ true → AllBlocking q

pub push_immediate_cases :
    (q : SequencedTaskQueue) (t : Task)
    → (push_immediate_task q t ≡ refused)
      ⊎ ((q.shut_down ≡ false)
          × (push_immediate_task q t
              ≡ accepted
                  (record q {
                    immediate_sequence_num = immediate_counter q (immediate_number q t);
                    incoming_queue = enqueue (numbered (immediate_number q t) t) q.incoming_queue;
                  })
                  (immediate_notices q t)))
unfolding push_immediate_task
push_immediate_cases q t = elim (Bool-cases (is_null t || is_closed q)) [
  | inl e ↦ inl (rw e refl)
  | inr e ↦ inr (ground arith, rw e refl)
]

pub push_delayed_cases :
    (q : SequencedTaskQueue) (t : Task)
    → (push_delayed_task q t ≡ refused)
      ⊎ ((q.shut_down ≡ false)
          × (push_delayed_task q t
              ≡ accepted
                  (record q {
                    delayed_sequence_num = delayed_counter q t;
                    delayed_incoming_queue =
                        push_heap (numbered (delayed_number q t) t) q.delayed_incoming_queue;
                  })
                  (delayed_notices q t)))
unfolding push_delayed_task
push_delayed_cases q t = elim (Bool-cases (is_null t || is_closed q)) [
  | inl e ↦ inl (rw e refl)
  | inr e ↦ inr (ground arith, rw e refl)
]
