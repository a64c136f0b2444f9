-- ===== src/Tasks/Delayed/Tests.antt =====
-- Runs of the delayed task manager on two queues, and the theorems at concrete inputs.
use libnei.Common.{ℕ, ◌≡◌, ◌≤◌, refl, true, false, List, [], ◌∷◌, ◌++◌, some, none}
use libnei.Tasks.Delayed.{QueueView, HeapEntry, find_queue, pop_next_valid_entry_locked}
use libnei.Tasks.Delayed.Deadlines.{is_known, is_in}
use libnei.Tasks.Delayed.Interleavings.{
  ManagerStep, adds, updates, pops, puts_back, serves, watched, unwatched,
}
use libnei.Tasks.Delayed.Watching.{deadline_kept}
use libnei.Tasks.Delayed.Earliest.{earliest}

abbrev due_at : ℕ → QueueView
due_at t = record { is_shutdown = false; next_delayed_run_time = t }

-- Queue 1 is due at 50 and then, with a new task, at 20; queue 2 at 30. The thread holds no entry.
abbrev two_queues : List ManagerStep
two_queues = adds 1 (due_at 50) ∷ adds 2 (due_at 30) ∷ pops ∷ updates 1 (due_at 20) ∷ puts_back ∷ []

first_entry : HeapEntry
first_entry = record { queue = 1; run_time = 20; order = 2 }

two_queues_first :
    (pop_next_valid_entry_locked (watched two_queues unwatched).manager).0 ≡ some first_entry
unfolding watched pop_next_valid_entry_locked first_entry
two_queues_first = refl

-- An entry whose queue has another deadline now is skipped.
stale_is_skipped :
    (pop_next_valid_entry_locked
      (watched
        (two_queues ++ (pops ∷ serves (due_at 0) ∷ pops ∷ serves (due_at 0) ∷ []))
        unwatched).manager).0
    ≡ none
unfolding watched pop_next_valid_entry_locked
stale_is_skipped = refl

deadline_kept_example : is_known 2 30 (watched (two_queues ++ (pops ∷ [])) unwatched) ≡ true
unfolding watched find_queue
deadline_kept_example = deadline_kept (two_queues ++ (pops ∷ [])) 2 30 refl refl refl

earliest_example : first_entry.run_time ≤ 30
unfolding watched find_queue is_in
earliest_example =
    earliest two_queues first_entry 2 30 refl refl refl refl refl refl two_queues_first
