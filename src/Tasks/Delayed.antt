-- ===== src/Tasks/Delayed.antt =====
-- `DelayedTaskManager` (src/neixx/task/internal/delayed_task_manager.cpp). A pointer to a queue is a
-- number, and 0 a null pointer; a time is a count of ticks, and 0 the null time. What a queue itself
-- answers is an argument.
pub mod Deadlines
pub mod Interleavings
pub mod Taken
pub mod Served
pub mod Watching
pub mod Earliest
mod Tests
use libnei.Common.{
  ℕ, zero, suc, ◌+◌, Bool, true, false, not, ◌&&◌, ◌||◌, List, [], ◌∷◌, ◌++◌, Option, none, some,
  ltb, ◌==◌, if◌then◌else◌,
}

-- What `is_shutdown` and `PeekNextDelayedRunTime` of a queue answer.
pub record QueueView : Type 0 where
  pub is_shutdown : Bool
  pub next_delayed_run_time : ℕ

pub record Registered : Type 0 where
  pub queue : ℕ
  pub next_run_time : ℕ

pub record HeapEntry : Type 0 where
  pub queue : ℕ
  pub run_time : ℕ
  pub order : ℕ

-- The map as a list with one entry for each queue, and the heap in the order of `top`.
pub record DelayedTaskManager : Type 0 where
  pub queues : List Registered
  pub heap : List HeapEntry
  pub next_order : ℕ
  pub is_shutdown : Bool
  -- `wake_event_` is signalled.
  pub signalled : Bool

abbrev pub new_manager : DelayedTaskManager
new_manager = record {
  queues = [];
  heap = [];
  next_order = 0;
  is_shutdown = false;
  signalled = false;
}

-- `HeapEntryLess`: the left one comes after the right one.
abbrev pub comes_after : HeapEntry → HeapEntry → Bool
comes_after lhs rhs =
    ltb rhs.run_time lhs.run_time || (lhs.run_time == rhs.run_time && ltb rhs.order lhs.order)

pub push_entry : HeapEntry → List HeapEntry → List HeapEntry
push_entry e [] = e ∷ []
push_entry e (f ∷ fs) =
    let rest = push_entry e fs in if comes_after f e then e ∷ f ∷ fs else f ∷ rest

pub find_queue : ℕ → List Registered → Option ℕ
find_queue q [] = none
find_queue q (r ∷ rs) =
    let rest = find_queue q rs in if r.queue == q then some r.next_run_time else rest

-- `emplace`, which leaves a queue that is there.
pub emplace : ℕ → List Registered → List Registered
emplace q [] = record { queue = q; next_run_time = 0 } ∷ []
emplace q (r ∷ rs) = let rest = emplace q rs in if r.queue == q then r ∷ rs else r ∷ rest

pub erase : ℕ → List Registered → List Registered
erase q [] = []
erase q (r ∷ rs) = let rest = erase q rs in if r.queue == q then rest else r ∷ rest

-- `it->second.next_run_time = next_run_time`
pub set_next_run_time : ℕ → ℕ → List Registered → List Registered
set_next_run_time q t [] = []
set_next_run_time q t (r ∷ rs) =
    let rest = set_next_run_time q t rs in
    if r.queue == q then record r { next_run_time = t } ∷ rs else r ∷ rest

abbrev pub peeked : QueueView → ℕ
peeked view = if view.is_shutdown then 0 else view.next_delayed_run_time

-- `RefreshQueueStateLocked`, for a queue that was found.
pub set_deadline : ℕ → ℕ → DelayedTaskManager → DelayedTaskManager
unfolding push_entry set_next_run_time
set_deadline q t m =
    let queues = set_next_run_time q t m.queues in
    if t == 0 then record m { queues = queues } else record m {
      queues = queues;
      heap = push_entry (record { queue = q; run_time = t; order = m.next_order }) m.heap;
      next_order = m.next_order + 1;
    }

pub refresh_queue_state_locked : ℕ → QueueView → DelayedTaskManager → DelayedTaskManager
unfolding find_queue set_deadline
refresh_queue_state_locked q view m = elim (find_queue q m.queues) [
  | none ↦ m
  | some t ↦ set_deadline q (peeked view) m
]

abbrev pub signal : Bool → DelayedTaskManager → DelayedTaskManager
signal b m = record m { signalled = b || m.signalled }

pub add_queue : ℕ → QueueView → DelayedTaskManager → DelayedTaskManager
unfolding emplace refresh_queue_state_locked
add_queue q view m =
    if q == 0 || m.is_shutdown
    then m
    else signal true (refresh_queue_state_locked q view (record m { queues = emplace q m.queues }))

pub remove_queue : ℕ → DelayedTaskManager → DelayedTaskManager
unfolding erase
remove_queue q m = if q == 0 then m else signal true (record m { queues = erase q m.queues })

-- Whether `OnQueueUpdated` wakes the thread.
abbrev pub wakes : ℕ → ℕ → Bool
wakes previous updated =
    if previous == 0 then not (updated == 0) else updated == 0 || ltb updated previous

pub on_queue_updated : ℕ → QueueView → DelayedTaskManager → DelayedTaskManager
unfolding find_queue set_deadline
on_queue_updated q view m =
    let updated : DelayedTaskManager = elim (find_queue q m.queues) [
      | none ↦ m
      | some previous ↦ signal (wakes previous (peeked view)) (set_deadline q (peeked view) m)
    ] in
    if q == 0 || m.is_shutdown then m else updated

-- `Shutdown`, up to the wait for the thread.
pub shutdown_manager : DelayedTaskManager → DelayedTaskManager
shutdown_manager m =
    if m.is_shutdown
    then m
    else signal true (record m { is_shutdown = true; queues = []; heap = [] })

abbrev is_current : Option ℕ → ℕ → Bool
is_current none run_time = false
is_current (some next) run_time = not (next == 0) && next == run_time

-- The loop of `PopNextValidEntryLocked`: the entry, and the heap that is left.
pub pop_valid : List Registered → List HeapEntry → Option HeapEntry × List HeapEntry
unfolding find_queue
pop_valid queues [] = (none, [])
pop_valid queues (e ∷ es) =
    let rest = pop_valid queues es in
    if not (e.queue == 0) && is_current (find_queue e.queue queues) e.run_time
    then (some e, es)
    else rest

-- The thread under the lock: what `PopNextValidEntryLocked` gives it.
pub pop_next_valid_entry_locked : DelayedTaskManager → Option HeapEntry × DelayedTaskManager
unfolding pop_valid
pop_next_valid_entry_locked m =
    let popped = pop_valid m.queues m.heap in (popped.0, record m { heap = popped.1 })

-- An entry that is not due yet goes back, if it still holds.
pub put_back : HeapEntry → DelayedTaskManager → DelayedTaskManager
unfolding find_queue push_entry
put_back e m =
    if not m.is_shutdown
      && (not (e.queue == 0)
          && (elim (find_queue e.queue m.queues) [ none ↦ false | some next ↦ next == e.run_time ]))
    then record m { heap = push_entry e m.heap }
    else m

-- An entry that is due: the queue's tasks are promoted, and its deadline is read again.
pub serve_entry : HeapEntry → QueueView → DelayedTaskManager → DelayedTaskManager
unfolding on_queue_updated
serve_entry e view m =
    if e.queue == 0 || view.is_shutdown then m else on_queue_updated e.queue view m
