-- ===== src/Tasks/SequencedTaskQueue/Fifo.antt =====
-- The order in which the immediate tasks of a queue are taken.
use mathlib.Core.Path.{subst}
use mathlib.Core.List.{append_assoc, append-nil}
use libnei.Common.{
  ℕ, zero, suc, ◌+◌, ◌≤◌, ◌≡◌, refl, sym, ap, ◌∙◌, inl, inr, Bool, true, List, [], ◌∷◌, ◌++◌, arith,
  ◌||◌, if◌then◌else◌, Bool-cases, All, All-append,
}
use libnei.Tasks.Task.{Task}
use libnei.Tasks.SequencedTaskQueue.Takes.{
  contents, IsSplit, to_list, contents-take_immediate_task, contents-take_immediate_tasks, unread,
  unread-take_immediate_task, unread-take_immediate_tasks, All-take_immediate_task,
  All-take_immediate_tasks,
}
use libnei.Tasks.SequencedTaskQueue.{
  SequencedTaskQueue, new_queue, Pushed, refused, accepted, is_null, is_closed, goes_last, enqueue,
  immediate_number, numbered, immediate_counter, immediate_notices, push_immediate_task,
  take_immediate_task, take_immediate_tasks,
}

abbrev IsNumbered : SequencedTaskQueue → Type 0
IsNumbered q = All (λ t. t.sequence_num ≤ q.immediate_sequence_num) q.incoming_queue

goes_last_bound :
    (n m : ℕ) (ts : List Task) → All (λ t. t.sequence_num ≤ m) ts → m ≤ n → goes_last n ts ≡ true
unfolding goes_last
goes_last_bound n m [] h le = refl
goes_last_bound n m (t ∷ []) h le = let now = h.0 in ground arith
goes_last_bound n m (t ∷ u ∷ ts) h le = goes_last_bound n m (u ∷ ts) h.1 le

enqueue_last :
    (n m : ℕ) (t : Task) (ts : List Task)
    → All (λ u. u.sequence_num ≤ m) ts
    → m ≤ n
    → enqueue (numbered n t) ts ≡ ts ++ (numbered n t ∷ [])
unfolding enqueue
enqueue_last n m t ts h le = rw (goes_last_bound n m ts h le) refl

All-weaken :
    {m n : ℕ} (ts : List Task)
    → m ≤ n
    → All (λ u. u.sequence_num ≤ m) ts
    → All (λ u. u.sequence_num ≤ n) ts
All-weaken [] le h = tt
All-weaken (t ∷ ts) le h = (omega (arith, h.0), All-weaken ts le h.1)

-- The task that a push puts last, where the queue numbers it.
abbrev pub next_task : SequencedTaskQueue → Task → Task
next_task q t = numbered (q.immediate_sequence_num + 1) t

-- The state after a push, and what the push added.
abbrev pub after_push : SequencedTaskQueue → Pushed → SequencedTaskQueue
after_push q refused = q
after_push q (accepted q' notices) = q'

abbrev pub entered : Task → Pushed → List Task
entered t refused = []
entered t (accepted q' notices) = t ∷ []

abbrev pub is_refused : SequencedTaskQueue → Task → Bool
is_refused q t = is_null t || is_closed q

push_unnumbered :
    (q : SequencedTaskQueue) (t : Task)
    → t.sequence_num ≡ 0
    → IsNumbered q
    → push_immediate_task q t ≡ (
        if is_refused q t
        then refused
        else accepted
            (record q {
              immediate_sequence_num = q.immediate_sequence_num + 1;
              incoming_queue = q.incoming_queue ++ (next_task q t ∷ []);
            })
            (immediate_notices q t))
unfolding push_immediate_task
push_unnumbered q t z h =
    let number : immediate_number q t ≡ q.immediate_sequence_num + 1 =
      ap (λ s. elim s [ zero ↦ q.immediate_sequence_num + 1 | suc n ↦ suc n ]) z in
    let counter : immediate_counter q (q.immediate_sequence_num + 1)
        ≡ q.immediate_sequence_num + 1 =
      ground arith in
    rw
      (
        number,
        counter,
        enqueue_last (q.immediate_sequence_num + 1) q.immediate_sequence_num t q.incoming_queue h
            (omega arith),
      )
      refl

contents-push_immediate_task :
    (q : SequencedTaskQueue) (t : Task)
    → t.sequence_num ≡ 0
    → IsNumbered q
    → (contents (after_push q (push_immediate_task q t))
        ≡ contents q ++ entered (next_task q t) (push_immediate_task q t))
      × IsNumbered (after_push q (push_immediate_task q t))
contents-push_immediate_task q t z h =
    rw (push_unnumbered q t z h) (elim (Bool-cases (is_refused q t)) [
      | inl e ↦ rw e (sym (append-nil (contents q)), h)
      | inr e ↦ rw e (
        sym (append_assoc q.work_queue q.incoming_queue (next_task q t ∷ [])),
        All-append (λ u. u.sequence_num ≤ q.immediate_sequence_num + 1) q.incoming_queue
            (next_task q t ∷ []) (All-weaken q.incoming_queue (omega arith) h) (omega arith, tt),
      )
    ])

-- A take changes neither the counter nor the bound on the tasks.
IsNumbered-same :
    (q q' : SequencedTaskQueue)
    → unread q' ≡ unread q
    → All (λ t. t.sequence_num ≤ q.immediate_sequence_num) q'.incoming_queue
    → IsNumbered q'
IsNumbered-same q q' e h =
    subst (λ n. All (λ t. t.sequence_num ≤ n) q'.incoming_queue)
      (sym (ap (λ q. q.immediate_sequence_num) e)) h

take-IsNumbered : (q : SequencedTaskQueue) → IsNumbered q → IsNumbered (take_immediate_task q).1
take-IsNumbered q h =
    IsNumbered-same q (take_immediate_task q).1 (unread-take_immediate_task q)
      (All-take_immediate_task (λ t. t.sequence_num ≤ q.immediate_sequence_num) q h)

take_tasks-IsNumbered :
    (q : SequencedTaskQueue) (n : ℕ) → IsNumbered q → IsNumbered (take_immediate_tasks q n).1
take_tasks-IsNumbered q n h =
    IsNumbered-same q (take_immediate_tasks q n).1 (unread-take_immediate_tasks q n)
      (All-take_immediate_tasks (λ t. t.sequence_num ≤ q.immediate_sequence_num) q n h)

push_immediate_task-IsSplit :
    (q : SequencedTaskQueue) (t : Task)
    → IsSplit q
    → IsSplit (after_push q (push_immediate_task q t))
unfolding push_immediate_task
push_immediate_task-IsSplit q t split s = ground (arith, split)

-- A queue after pushes of tasks that it numbers and takes of any kind: the tasks that entered it, and
-- those that were taken, each in their order.
pub data FifoRun (single_consumer : Bool)
    : SequencedTaskQueue → List Task → List Task → Type 0 where
  started : FifoRun single_consumer (new_queue single_consumer) [] []
  pushed :
      {q : SequencedTaskQueue} {entered_tasks taken : List Task}
      → (t : Task) → t.sequence_num ≡ 0
      → FifoRun single_consumer q entered_tasks taken
      → FifoRun single_consumer
          (after_push q (push_immediate_task q t))
          (entered_tasks ++ entered (next_task q t) (push_immediate_task q t))
          taken
  took_one :
      {q : SequencedTaskQueue} {entered_tasks taken : List Task}
      → FifoRun single_consumer q entered_tasks taken
      → FifoRun single_consumer
          (take_immediate_task q).1
          entered_tasks
          (taken ++ to_list (take_immediate_task q).0)
  took_batch :
      {q : SequencedTaskQueue} {entered_tasks taken : List Task}
      → (n : ℕ) → FifoRun single_consumer q entered_tasks taken
      → FifoRun single_consumer
          (take_immediate_tasks q n).1
          entered_tasks
          (taken ++ (take_immediate_tasks q n).0)

run_lem :
    {single_consumer : Bool} {q : SequencedTaskQueue} {ps ts : List Task}
    → FifoRun single_consumer q ps ts
    → (ps ≡ ts ++ contents q) × IsNumbered q × IsSplit q
run_lem started = (refl, tt, λ s. refl)
run_lem (pushed {q} {entered_tasks} {taken} t z run) =
    let (e, numbers, split) = run_lem run in
    let now = contents-push_immediate_task q t z numbers in
    (
      ap (λ l. l ++ entered (next_task q t) (push_immediate_task q t)) e
          ∙ append_assoc taken (contents q) (entered (next_task q t) (push_immediate_task q t))
          ∙ ap (λ l. taken ++ l) (sym now.0),
      now.1,
      push_immediate_task-IsSplit q t split,
    )
run_lem (took_one {q} {entered_tasks} {taken} run) =
    let (e, numbers, split) = run_lem run in
    let now = contents-take_immediate_task q split in
    (
      e
          ∙ ap (λ l. taken ++ l) now.0
          ∙ sym (
              append_assoc taken (to_list (take_immediate_task q).0)
                (contents (take_immediate_task q).1)),
      take-IsNumbered q numbers,
      now.1,
    )
run_lem (took_batch {q} {entered_tasks} {taken} n run) =
    let (e, numbers, split) = run_lem run in
    let now = contents-take_immediate_tasks q n split in
    (
      e
          ∙ ap (λ l. taken ++ l) now.0
          ∙ sym (
              append_assoc taken (take_immediate_tasks q n).0
                (contents (take_immediate_tasks q n).1)),
      take_tasks-IsNumbered q n numbers,
      now.1,
    )

-- A queue that numbers its tasks and holds no delayed ones is first-in-first-out, with one consumer
-- or with many: after any run of pushes and takes, what was taken, followed by what the consumer
-- still has to take, is what entered the queue, in the order in which it entered.
pub fifo :
    (single_consumer : Bool) (q : SequencedTaskQueue) (entered_tasks taken : List Task)
    → FifoRun single_consumer q entered_tasks taken
    → entered_tasks ≡ taken ++ contents q
fifo single_consumer q entered_tasks taken run = (run_lem run).0
