-- ===== src/Tasks/SequencedTaskQueue/Invariant.antt =====
-- The invariant of a queue, and what `Shutdown` leaves.
use mathlib.Core.Path.{subst}
use mathlib.Core.Bool.{false≢true}
use libnei.Common.{
  ℕ, ◌≡◌, refl, sym, ap, ◌∙◌, inl, inr, Bool, true, false, not, List, [], ◌∷◌, if◌then◌else◌, All,
  All-append, filter, All-filter,
}
use libnei.Tasks.Task.{Task, is_shutdown_blocking_task}
use libnei.Tasks.SequencedTaskQueue.{
  SequencedTaskQueue, new_queue, refused, numbered, push_immediate_task, take_immediate_task,
  take_immediate_tasks, delayed_number, push_delayed_task, promote_ready_delayed_tasks,
  cancel_locked_impl, cancel_non_shutdown_blocking_tasks_locked, shutdown,
}
use libnei.Tasks.SequencedTaskQueue.Takes.{
  IsSplit, contents-take_immediate_task, contents-take_immediate_tasks, unread,
  unread-take_immediate_task, unread-take_immediate_tasks, All-take_immediate_task,
  All-take_immediate_tasks,
}
use libnei.Tasks.SequencedTaskQueue.Fifo.{after_push}
use libnei.Tasks.SequencedTaskQueue.Delayed.{
  IsOrdered, push_heap-IsOrdered, is_ready, promote_ready_delayed_tasks_lem, keep_delayed-filter,
  filter-IsOrdered, All-filter_of,
}
use libnei.Tasks.SequencedTaskQueue.Lifecycle.{
  Operation, post, post_delayed, take_one, take_many, promote, cancel, shut, History, fresh, apply,
  history, Blocking, AllBlocking, IsValid, push_immediate_cases, push_delayed_cases,
}

post-IsValid :
    (q : SequencedTaskQueue) (t : Task)
    → IsValid q
    → IsValid (after_push q (push_immediate_task q t))
post-IsValid q t v = elim (push_immediate_cases q t) [
  | inl e ↦ rw e v
  | inr (is_open, e) ↦ rw e (record {
    ordered = v.ordered;
    split = v.split;
    drained = λ s. absurd (false≢true (sym is_open ∙ s));
  })
]

post_delayed-IsValid :
    (q : SequencedTaskQueue) (t : Task) → IsValid q → IsValid (after_push q (push_delayed_task q t))
post_delayed-IsValid q t v = elim (push_delayed_cases q t) [
  | inl e ↦ rw e v
  | inr (is_open, e) ↦ rw e (record {
    ordered =
        push_heap-IsOrdered (numbered (delayed_number q t) t) q.delayed_incoming_queue v.ordered;
    split = v.split;
    drained = λ s. absurd (false≢true (sym is_open ∙ s));
  })
]

cancel_lem :
    (q : SequencedTaskQueue)
    → IsOrdered q.delayed_incoming_queue
    → cancel_locked_impl q ≡ record q {
      incoming_queue = filter is_shutdown_blocking_task q.incoming_queue;
      delayed_incoming_queue = filter is_shutdown_blocking_task q.delayed_incoming_queue;
    }
unfolding cancel_locked_impl
cancel_lem q o =
    ap
      (λ ts. record q {
        incoming_queue = filter is_shutdown_blocking_task q.incoming_queue;
        delayed_incoming_queue = ts;
      })
      (keep_delayed-filter q.delayed_incoming_queue o)

cancel-IsValid :
    (q : SequencedTaskQueue)
    → IsOrdered q.delayed_incoming_queue
    → IsSplit q
    → IsValid (cancel_locked_impl q)
cancel-IsValid q o s = rw (cancel_lem q o) (record {
  ordered = filter-IsOrdered is_shutdown_blocking_task q.delayed_incoming_queue o;
  split = s;
  drained = λ h. (
    All-filter Blocking is_shutdown_blocking_task (λ t e. e) q.incoming_queue,
    All-filter Blocking is_shutdown_blocking_task (λ t e. e) q.delayed_incoming_queue,
  );
})

shutdown-IsValid : (q : SequencedTaskQueue) → IsValid q → IsValid (shutdown q)
unfolding shutdown
shutdown-IsValid q v = by_flag q.shut_down
  where
    by_flag :
        (b : Bool)
        → IsValid (
            if b
            then q
            else cancel_locked_impl (record q { shut_down = true; reject_new_tasks = true }))
    by_flag true = v
    by_flag false =
        cancel-IsValid (record q { shut_down = true; reject_new_tasks = true }) v.ordered v.split

promote-IsValid :
    (q : SequencedTaskQueue) (now : ℕ) → IsValid q → IsValid (promote_ready_delayed_tasks q now).1
promote-IsValid q now v = rw (promote_ready_delayed_tasks_lem q now v.ordered) (record {
  ordered = filter-IsOrdered (λ t. not (is_ready now t)) q.delayed_incoming_queue v.ordered;
  split = v.split;
  drained = λ s. (
    All-append Blocking q.incoming_queue (filter (is_ready now) q.delayed_incoming_queue)
        ((v.drained s).0)
        (All-filter_of Blocking (is_ready now) q.delayed_incoming_queue ((v.drained s).1)),
    All-filter_of Blocking (λ t. not (is_ready now t)) q.delayed_incoming_queue ((v.drained s).1),
  );
})

-- A take leaves the heap and the flags.
take-IsValid :
    (q q' : SequencedTaskQueue)
    → unread q' ≡ unread q
    → IsSplit q'
    → (All Blocking q.incoming_queue → All Blocking q'.incoming_queue)
    → IsValid q
    → IsValid q'
take-IsValid q q' e s keeps v = record {
  ordered = subst IsOrdered (sym heap) v.ordered;
  split = s;
  drained = λ down.
      let before = v.drained (sym (ap (λ q. q.shut_down) e) ∙ down) in
      (keeps before.0, subst (All Blocking) (sym heap) before.1);
}
  where
    heap : q'.delayed_incoming_queue ≡ q.delayed_incoming_queue
    heap = ap (λ q. q.delayed_incoming_queue) e

pub apply-IsValid : (o : Operation) (h : History) → IsValid h.queue → IsValid (apply o h).queue
unfolding apply
apply-IsValid (post t) h v = post-IsValid h.queue t v
apply-IsValid (post_delayed t) h v = post_delayed-IsValid h.queue t v
apply-IsValid take_one h v =
    take-IsValid h.queue (take_immediate_task h.queue).1 (unread-take_immediate_task h.queue)
      (contents-take_immediate_task h.queue v.split).1 (All-take_immediate_task Blocking h.queue) v
apply-IsValid (take_many n) h v =
    take-IsValid h.queue (take_immediate_tasks h.queue n).1 (unread-take_immediate_tasks h.queue n)
      (contents-take_immediate_tasks h.queue n v.split).1
      (All-take_immediate_tasks Blocking h.queue n) v
apply-IsValid (promote now) h v = promote-IsValid h.queue now v
apply-IsValid cancel h v =
    unfold cancel_non_shutdown_blocking_tasks_locked in
    cancel-IsValid (record (h.queue) { reject_new_tasks = true }) v.ordered v.split
apply-IsValid shut h v = shutdown-IsValid h.queue v

-- After any operations on a new queue, its heap is in the order in which its tasks run; only a single
-- consumer has tasks in `work_queue_`; and once `Shutdown` was called, every task in
-- `incoming_queue_` and in the heap blocks the shutdown.
pub history-IsValid :
    (os : List Operation) (h : History) → IsValid h.queue → IsValid (history os h).queue
unfolding history
history-IsValid [] h v = v
history-IsValid (o ∷ os) h v = history-IsValid os (apply o h) (apply-IsValid o h v)

pub new_queue-IsValid : (single_consumer : Bool) → IsValid (new_queue single_consumer)
new_queue-IsValid single_consumer = record {
  ordered = tt;
  split = λ s. refl;
  drained = λ s. (tt, tt);
}

closed-refuses :
    (q : SequencedTaskQueue) (t : Task)
    → q.shut_down ≡ true
    → (push_immediate_task q t ≡ refused) × (push_delayed_task q t ≡ refused)
closed-refuses q t down = (by_cases_immediate, by_cases_delayed)
  where
    by_cases_immediate : push_immediate_task q t ≡ refused
    by_cases_immediate = elim (push_immediate_cases q t) [
      | inl e ↦ e
      | inr (is_open, e) ↦ absurd (false≢true (sym is_open ∙ down))
    ]

    by_cases_delayed : push_delayed_task q t ≡ refused
    by_cases_delayed = elim (push_delayed_cases q t) [
      | inl e ↦ e
      | inr (is_open, e) ↦ absurd (false≢true (sym is_open ∙ down))
    ]

-- Whatever a new queue went through: once it is shut down, it refuses every task, immediate or
-- delayed, and the shared queues hold only tasks that block the shutdown.
pub after_shutdown :
    (single_consumer : Bool) (os : List Operation) (t : Task)
    → (history os (fresh single_consumer)).queue.shut_down ≡ true
    → AllBlocking (history os (fresh single_consumer)).queue
      × (push_immediate_task (history os (fresh single_consumer)).queue t ≡ refused)
      × (push_delayed_task (history os (fresh single_consumer)).queue t ≡ refused)
after_shutdown single_consumer os t down =
    let valid = history-IsValid os (fresh single_consumer) (new_queue-IsValid single_consumer) in
    let (now, later) = closed-refuses (history os (fresh single_consumer)).queue t down in
    (valid.drained down, now, later)
