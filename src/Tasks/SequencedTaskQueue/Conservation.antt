-- ===== src/Tasks/SequencedTaskQueue/Conservation.antt =====
-- What becomes of the tasks that block the shutdown.
use mathlib.Core.Bool.{false≢true}
use mathlib.Core.List.{append-nil}
use libnei.Common.{
  ℕ, ◌+◌, ◌≡◌, refl, sym, ap, ◌∙◌, inl, inr, Bool, true, false, List, [], ◌∷◌, ◌++◌, arith,
  if◌then◌else◌, Bool-cases, filter, count, count-append,
}
use libnei.Tasks.Task.{Task, is_shutdown_blocking_task}
use libnei.Tasks.SequencedTaskQueue.{
  SequencedTaskQueue, insert_by_number, enqueue, immediate_number, numbered, take_immediate_task,
  take_immediate_tasks, push_heap, delayed_number, pop_ready, promote_ready_delayed_tasks,
  keep_delayed, cancel_locked_impl, cancel_non_shutdown_blocking_tasks_locked, shutdown,
}
use libnei.Tasks.SequencedTaskQueue.Takes.{
  contents, to_list, contents-take_immediate_task, contents-take_immediate_tasks, unread,
  unread-take_immediate_task, unread-take_immediate_tasks,
}
use libnei.Tasks.SequencedTaskQueue.Lifecycle.{
  Operation, post, post_delayed, take_one, take_many, promote, cancel, shut, History, fresh, apply,
  history, Blocking, IsValid, push_immediate_cases, push_delayed_cases,
}
use libnei.Tasks.SequencedTaskQueue.Invariant.{apply-IsValid, new_queue-IsValid}

-- A test that only such tasks pass.
module _ (p : Task → Bool) (only : (t : Task) → p t ≡ true → Blocking t) where
  count-insert_by_number :
      (t : Task) (ts : List Task) → count p (insert_by_number t ts) ≡ count p (t ∷ ts)
  unfolding insert_by_number count
  count-insert_by_number t [] = refl
  count-insert_by_number t (u ∷ us) = ground (arith, count-insert_by_number t us)

  count-enqueue : (t : Task) (ts : List Task) → count p (enqueue t ts) ≡ count p (t ∷ ts)
  unfolding enqueue count
  count-enqueue t ts = ground (arith, count-append p ts (t ∷ []), count-insert_by_number t ts)

  count-push_heap : (t : Task) (ts : List Task) → count p (push_heap t ts) ≡ count p (t ∷ ts)
  unfolding push_heap count
  count-push_heap t [] = refl
  count-push_heap t (u ∷ us) = ground (arith, count-push_heap t us)

  count-pop_ready :
      (now : ℕ) (ts : List Task)
      → count p ts ≡ count p (pop_ready now ts).0 + count p (pop_ready now ts).1
  unfolding pop_ready count
  count-pop_ready now [] = refl
  count-pop_ready now (t ∷ ts) = ground (arith, count-pop_ready now ts)

  counted : (t : Task) → is_shutdown_blocking_task t ≡ false → p t ≡ false
  counted t e = elim (Bool-cases (p t)) [
    | inl h ↦ absurd (false≢true (sym e ∙ only t h))
    | inr h ↦ h
  ]

  count-kept : (ts : List Task) → count p (filter is_shutdown_blocking_task ts) ≡ count p ts
  unfolding filter count
  count-kept [] = refl
  count-kept (t ∷ ts) = elim (Bool-cases (is_shutdown_blocking_task t)) [
    | inl e ↦ rw (e, count-kept ts) refl
    | inr e ↦ rw (e, counted t e) (omega (arith, count-kept ts))
  ]

  count-keep_delayed :
      (kept ts : List Task) → count p (keep_delayed kept ts) ≡ count p kept + count p ts
  unfolding keep_delayed count
  count-keep_delayed kept [] = omega arith
  count-keep_delayed kept (t ∷ ts) = elim (Bool-cases (is_shutdown_blocking_task t)) [
    | inl e ↦ rw e (omega (arith, count-keep_delayed (push_heap t kept) ts, count-push_heap t kept))
    | inr e ↦ rw (e, counted t e) (omega (arith, count-keep_delayed kept ts))
  ]

  held : SequencedTaskQueue → ℕ
  held q = count p (contents q) + count p q.delayed_incoming_queue

  Balanced : History → Type 0
  Balanced h = count p h.entered_tasks ≡ count p h.taken + held h.queue

  post-Balanced : (h : History) (t : Task) → Balanced h → Balanced (apply (post t) h)
  unfolding apply held Balanced count
  post-Balanced h t b = elim (push_immediate_cases h.queue t) [
    | inl e ↦ rw e (omega (arith, ap (count p) (append-nil h.entered_tasks)))
    | inr (is_open, e) ↦
        let t' = numbered (immediate_number h.queue t) t in
        rw e (
          omega (
            arith,
            count-append p h.entered_tasks (t' ∷ []),
            count-append p h.queue.work_queue h.queue.incoming_queue,
            count-append p h.queue.work_queue (enqueue t' h.queue.incoming_queue),
            count-enqueue t' h.queue.incoming_queue,
          ))
  ]

  post_delayed-Balanced :
      (h : History) (t : Task) → Balanced h → Balanced (apply (post_delayed t) h)
  unfolding apply held Balanced count
  post_delayed-Balanced h t b = elim (push_delayed_cases h.queue t) [
    | inl e ↦ rw e (omega (arith, ap (count p) (append-nil h.entered_tasks)))
    | inr (is_open, e) ↦
        let t' = numbered (delayed_number h.queue t) t in
        rw e (
          omega (
            arith,
            count-append p h.entered_tasks (t' ∷ []),
            count-push_heap t' h.queue.delayed_incoming_queue,
          ))
  ]

  -- A take moves the first tasks of the contents.
  take-Balanced :
      (h : History) (q' : SequencedTaskQueue) (ts : List Task)
      → unread q' ≡ unread h.queue
      → contents h.queue ≡ ts ++ contents q'
      → Balanced h
      → Balanced (record h { queue = q'; taken = h.taken ++ ts })
  unfolding held Balanced
  take-Balanced h q' ts same e b = omega (
    arith,
    count-append p h.taken ts,
    ap (count p) e,
    count-append p ts (contents q'),
    ap (λ q. count p q.delayed_incoming_queue) same,
  )

  promote-Balanced : (h : History) (now : ℕ) → Balanced h → Balanced (apply (promote now) h)
  unfolding apply held Balanced promote_ready_delayed_tasks
  promote-Balanced h now b =
      let ready = (pop_ready now h.queue.delayed_incoming_queue).0 in
      omega (
        arith,
        count-pop_ready now h.queue.delayed_incoming_queue,
        count-append p h.queue.work_queue (h.queue.incoming_queue ++ ready),
        count-append p h.queue.incoming_queue ready,
        count-append p h.queue.work_queue h.queue.incoming_queue,
      )

  held-cancel_locked_impl : (q : SequencedTaskQueue) → held (cancel_locked_impl q) ≡ held q
  unfolding held cancel_locked_impl count
  held-cancel_locked_impl q = omega (
    arith,
    count-append p q.work_queue q.incoming_queue,
    count-append p q.work_queue (filter is_shutdown_blocking_task q.incoming_queue),
    count-kept q.incoming_queue,
    count-keep_delayed [] q.delayed_incoming_queue,
  )

  held-shutdown : (q : SequencedTaskQueue) → held (shutdown q) ≡ held q
  unfolding held shutdown
  held-shutdown q = by_flag q.shut_down
    where
      by_flag :
          (b : Bool)
          → held (
              if b
              then q
              else cancel_locked_impl (record q { shut_down = true; reject_new_tasks = true }))
            ≡ held q
      by_flag true = refl
      by_flag false =
          held-cancel_locked_impl (record q { shut_down = true; reject_new_tasks = true })

  apply-Balanced :
      (o : Operation) (h : History) → IsValid h.queue → Balanced h → Balanced (apply o h)
  unfolding apply Balanced held count
  apply-Balanced (post t) h v b = post-Balanced h t b
  apply-Balanced (post_delayed t) h v b = post_delayed-Balanced h t b
  apply-Balanced take_one h v b =
      take-Balanced h (take_immediate_task h.queue).1 (to_list (take_immediate_task h.queue).0)
        (unread-take_immediate_task h.queue) (contents-take_immediate_task h.queue v.split).0 b
  apply-Balanced (take_many n) h v b =
      take-Balanced h (take_immediate_tasks h.queue n).1 (take_immediate_tasks h.queue n).0
        (unread-take_immediate_tasks h.queue n) (contents-take_immediate_tasks h.queue n v.split).0
        b
  apply-Balanced (promote now) h v b = promote-Balanced h now b
  apply-Balanced cancel h v b =
      unfold cancel_non_shutdown_blocking_tasks_locked in
      b
      ∙ ap (λ n. count p h.taken + n)
          (sym (held-cancel_locked_impl (record (h.queue) { reject_new_tasks = true })))
  apply-Balanced shut h v b = b ∙ ap (λ n. count p h.taken + n) (sym (held-shutdown h.queue))

  history-Balanced :
      (os : List Operation) (h : History) → IsValid h.queue → Balanced h → Balanced (history os h)
  unfolding history
  history-Balanced [] h v b = b
  history-Balanced (o ∷ os) h v b =
      history-Balanced os (apply o h) (apply-IsValid o h v) (apply-Balanced o h v b)

  -- No task that blocks the shutdown is lost or taken twice. For any test `p` that only such tasks
  -- pass, and any posts, delayed posts, takes, promotions, cancellations and shutdowns of a new
  -- queue: as many of the tasks that entered it pass `p` as of those that were taken and those that
  -- it still holds, immediate or delayed.
  pub blocking_tasks_kept :
      (single_consumer : Bool) (os : List Operation)
      → count p (history os (fresh single_consumer)).entered_tasks
        ≡ count p (history os (fresh single_consumer)).taken
          + (count p (contents (history os (fresh single_consumer)).queue)
              + count p (history os (fresh single_consumer)).queue.delayed_incoming_queue)
  unfolding held Balanced count
  blocking_tasks_kept single_consumer os =
      history-Balanced os (fresh single_consumer) (new_queue-IsValid single_consumer) refl
