-- ===== src/Tasks/Tracker/Shutdown.antt =====
-- The tracker while threads run tasks and one of them shuts down: any interleaving of its steps.
use libnei.Common.{
  ℕ, ◌%◌, ◌^◌, ◌<◌, ◌≡◌, refl, ap, ◌∙◌, inl, inr, Bool, true, false, List, [], ◌∷◌, Option, none,
  some, arith, ◌==◌, Option-cases, ◌↔◌, ==_iff, get_elem?, count, remove_at, count-remove_at,
}
use libnei.Tasks.Task.{
  TaskShutdownBehavior, continue_on_shutdown, skip_on_shutdown, block_shutdown, blocks_shutdown,
}
use libnei.Tasks.Tracker.{
  CanRunPolicy, TaskTracker, new_tracker, start_shutdown, claim_completion, is_drained, is_past,
  has_shutdown_started, will_post_task, will_run_task, did_process_task, set_can_run_policy,
}

-- A thread starts or completes the shutdown, sets the policy, asks to run a task, or is done with
-- the task at a place of the list of those that run.
pub data TrackerStep : Type 0 where
  start complete : TrackerStep
  set_policy : CanRunPolicy → TrackerStep
  run : TaskShutdownBehavior → TrackerStep
  done : ℕ → TrackerStep

-- The tracker, and the behaviours of the tasks that run: `WillRunTask` allowed them, and
-- `DidProcessTask` was not called for them yet.
pub record Running : Type 0 where
  pub tracker : TaskTracker
  pub tasks : List TaskShutdownBehavior

ran : TaskShutdownBehavior → Running → Bool × TaskTracker → Running
ran behavior r (true, t) = record { tracker = t; tasks = behavior ∷ r.tasks }
ran behavior r (false, t) = record r { tracker = t }

finished : ℕ → Running → Option TaskShutdownBehavior → Running
unfolding did_process_task
finished n r none = r
finished n r (some behavior) = record {
  tracker = (did_process_task r.tracker behavior).1;
  tasks = remove_at n r.tasks;
}

pub track : TrackerStep → Running → Running
unfolding start_shutdown claim_completion will_run_task ran finished
track start r = record r { tracker = start_shutdown r.tracker }
track complete r = record r { tracker = (claim_completion r.tracker).1 }
track (set_policy p) r = record r { tracker = set_can_run_policy r.tracker p }
track (run behavior) r = ran behavior r (will_run_task r.tracker behavior)
track (done n) r = finished n r (get_elem? r.tasks n)

unfoldable pub tracked : List TrackerStep → Running → Running
unfolding track
tracked [] r = r
tracked (s ∷ ss) r = tracked ss (track s r)

-- How many of the tasks that run block the shutdown.
abbrev pub blocking : Running → ℕ
blocking r = count blocks_shutdown r.tasks

Counted : Running → Type 0
Counted r = r.tracker.num_items_blocking_shutdown ≡ blocking r % 2 ^ 32

ran-Counted :
    (r : Running) (b : TaskShutdownBehavior)
    → Counted r
    → Counted (ran b r (will_run_task r.tracker b))
unfolding ran will_run_task Counted count
ran-Counted r continue_on_shutdown h = omega arith
ran-Counted r skip_on_shutdown h = ground arith
ran-Counted r block_shutdown h = omega arith

finished-Counted :
    (n : ℕ) (r : Running) (b : TaskShutdownBehavior)
    → get_elem? r.tasks n ≡ some b
    → Counted r
    → Counted (finished n r (some b))
unfolding finished did_process_task Counted count
finished-Counted n r continue_on_shutdown e h =
    omega (arith, count-remove_at blocks_shutdown n r.tasks continue_on_shutdown e)
finished-Counted n r skip_on_shutdown e h =
    omega (arith, count-remove_at blocks_shutdown n r.tasks skip_on_shutdown e)
finished-Counted n r block_shutdown e h =
    omega (arith, count-remove_at blocks_shutdown n r.tasks block_shutdown e)

done-Counted : (n : ℕ) (r : Running) → Counted r → Counted (finished n r (get_elem? r.tasks n))
done-Counted n r h = elim (Option-cases (get_elem? r.tasks n)) [
  | inl e ↦ rw e (unfold finished in h)
  | inr (b, e) ↦ rw e (finished-Counted n r b e h)
]

start-count :
    (t : TaskTracker)
    → (start_shutdown t).num_items_blocking_shutdown ≡ t.num_items_blocking_shutdown
unfolding start_shutdown
start-count t = ground arith

complete-count :
    (t : TaskTracker)
    → (claim_completion t).1.num_items_blocking_shutdown ≡ t.num_items_blocking_shutdown
unfolding claim_completion
complete-count t = ground arith

track-Counted : (s : TrackerStep) (r : Running) → Counted r → Counted (track s r)
unfolding track
track-Counted start r h = unfold Counted in start-count r.tracker ∙ h
track-Counted complete r h = unfold Counted in complete-count r.tracker ∙ h
track-Counted (set_policy p) r h = unfold Counted in h
track-Counted (run b) r h = ran-Counted r b h
track-Counted (done n) r h = done-Counted n r h

tracked-Counted : (ss : List TrackerStep) (r : Running) → Counted r → Counted (tracked ss r)
unfolding tracked
tracked-Counted [] r h = h
tracked-Counted (s ∷ ss) r h = tracked-Counted ss (track s r) (track-Counted s r h)

abbrev pub no_tasks : Running
no_tasks = record { tracker = new_tracker; tasks = [] }

drained_count : (n m : ℕ) → n ≡ m % 2 ^ 32 → m < 2 ^ 32 → ((n == 0) ≡ true) ↔ (m ≡ 0)
drained_count n m e few = let same : n ≡ m = omega arith in ground (arith, ==_iff n 0)

-- However threads run tasks and shut down, and as long as fewer than 2^32 tasks run that block the
-- shutdown: what `CompleteShutdown` waits for holds exactly when no such task runs.
pub drained_iff :
    (ss : List TrackerStep)
    → blocking (tracked ss no_tasks) < 2 ^ 32
    → (is_drained (tracked ss no_tasks).tracker ≡ true) ↔ (blocking (tracked ss no_tasks) ≡ 0)
unfolding is_drained Counted count
drained_iff ss few =
    let n = tracked-Counted ss no_tasks refl in
    drained_count (tracked ss no_tasks).tracker.num_items_blocking_shutdown
      (blocking (tracked ss no_tasks)) n few

-- The state never goes back.
ran-state :
    (r : Running) (b : TaskShutdownBehavior)
    → (ran b r (will_run_task r.tracker b)).tracker.shutdown_state ≡ r.tracker.shutdown_state
unfolding ran will_run_task
ran-state r continue_on_shutdown = refl
ran-state r skip_on_shutdown = ground arith
ran-state r block_shutdown = refl

finished-state :
    (n : ℕ) (r : Running) (o : Option TaskShutdownBehavior)
    → (finished n r o).tracker.shutdown_state ≡ r.tracker.shutdown_state
unfolding finished did_process_task
finished-state n r none = refl
finished-state n r (some continue_on_shutdown) = refl
finished-state n r (some skip_on_shutdown) = refl
finished-state n r (some block_shutdown) = refl

track_started :
    (s : TrackerStep) (r : Running)
    → has_shutdown_started r.tracker ≡ true
    → has_shutdown_started (track s r).tracker ≡ true
unfolding track has_shutdown_started start_shutdown claim_completion
track_started start r h = ground arith
track_started complete r h = ground arith
track_started (set_policy p) r h = h
track_started (run b) r h = ap is_past (ran-state r b) ∙ h
track_started (done n) r h = ap is_past (finished-state n r (get_elem? r.tasks n)) ∙ h

tracked_started :
    (ss : List TrackerStep) (r : Running)
    → has_shutdown_started r.tracker ≡ true
    → has_shutdown_started (tracked ss r).tracker ≡ true
unfolding tracked
tracked_started [] r h = h
tracked_started (s ∷ ss) r h = tracked_started ss (track s r) (track_started s r h)

start-started : (t : TaskTracker) → has_shutdown_started (start_shutdown t) ≡ true
unfolding has_shutdown_started start_shutdown
start-started t = ground arith

-- Once `StartShutdown` was called, and whatever steps came before it and after it: a task may be
-- posted if and only if it blocks the shutdown, and a task to be skipped does not run.
pub gated :
    (before after : List TrackerStep) (behavior : TaskShutdownBehavior)
    → (will_post_task (tracked after (track start (tracked before no_tasks))).tracker behavior
        ≡ blocks_shutdown behavior)
      × (will_run_task
            (tracked after (track start (tracked before no_tasks))).tracker
            skip_on_shutdown
          ≡ (false, (tracked after (track start (tracked before no_tasks))).tracker))
unfolding will_post_task will_run_task track
gated before after behavior =
    let r = tracked before no_tasks in
    let down = tracked_started after (track start r) (start-started r.tracker) in
    rw down (ground arith, refl)
