-- ===== src/Tasks/SequencedTaskQueue/Overtake.antt =====
-- `PushImmediateTask` behind promoted tasks, whose numbers come from the other counter.
use libnei.Common.{ℕ, zero, suc, ◌+◌, ◌<◌, ◌≡◌, ap, false, List, [], ◌∷◌, arith, All}
use libnei.Tasks.Task.{Task}
use libnei.Tasks.SequencedTaskQueue.{
  SequencedTaskQueue, goes_last, insert_by_number, enqueue, immediate_number, numbered,
  push_immediate_task,
}
use libnei.Tasks.SequencedTaskQueue.Fifo.{after_push, is_refused, next_task}

not_last :
    (n : ℕ) (u : Task) (us : List Task)
    → All (λ t. n < t.sequence_num) (u ∷ us)
    → goes_last n (u ∷ us) ≡ false
unfolding goes_last
not_last n u [] h = let first = h.0 in ground arith
not_last n u (v ∷ us) h = not_last n v us h.1

enqueue_first :
    (n : ℕ) (t u : Task) (us : List Task)
    → All (λ t. n < t.sequence_num) (u ∷ us)
    → enqueue (numbered n t) (u ∷ us) ≡ numbered n t ∷ u ∷ us
unfolding enqueue insert_by_number
enqueue_first n t u us h = let first = h.0 in rw (not_last n u us h) (ground arith)

-- A task that the queue accepts and numbers goes to the front of `incoming_queue_`, before all the
-- tasks that wait there, where their numbers are greater than its own. Promoted tasks can be such:
-- they have their numbers from `delayed_sequence_num_`, and the task from `immediate_sequence_num_`.
push_overtakes :
    (q : SequencedTaskQueue) (t u : Task) (us : List Task)
    → is_refused q t ≡ false
    → t.sequence_num ≡ 0
    → q.incoming_queue ≡ u ∷ us
    → All (λ w. q.immediate_sequence_num + 1 < w.sequence_num) (u ∷ us)
    → (after_push q (push_immediate_task q t)).incoming_queue ≡ next_task q t ∷ u ∷ us
unfolding push_immediate_task
push_overtakes q t u us takes z waiting h =
    let number : immediate_number q t ≡ q.immediate_sequence_num + 1 =
      ap (λ s. elim s [ zero ↦ q.immediate_sequence_num + 1 | suc n ↦ suc n ]) z in
    rw (takes, number, waiting) (enqueue_first (q.immediate_sequence_num + 1) t u us h)
