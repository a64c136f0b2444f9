-- ===== src/Tasks/Delayed/Interleavings.antt =====
-- The manager's calls and the steps of its thread, in any order.
use libnei.Common.{ℕ, List, [], ◌∷◌, none, some, if◌then◌else◌}
use libnei.Tasks.Delayed.{
  QueueView, new_manager, add_queue, remove_queue, on_queue_updated, shutdown_manager,
  pop_next_valid_entry_locked, put_back, serve_entry,
}
use libnei.Tasks.Delayed.Deadlines.{Watch}

-- The calls, with what the queue answers in them, and the steps of the thread: it pops an entry, puts
-- back the one that it holds, or serves it.
pub data ManagerStep : Type 0 where
  adds updates : ℕ → QueueView → ManagerStep
  removes : ℕ → ManagerStep
  stops pops puts_back : ManagerStep
  serves : QueueView → ManagerStep

unfoldable pub thread_pops : Watch → Watch
unfolding pop_next_valid_entry_locked
thread_pops w =
    let popped = pop_next_valid_entry_locked w.manager in
    elim w.entry_held [
      | some e ↦ w
      | none ↦
          if w.manager.is_shutdown
          then w
          else record w { manager = popped.1; entry_held = popped.0 }
    ]

unfoldable pub thread_puts_back : Watch → Watch
unfolding put_back
thread_puts_back w = elim w.entry_held [
  | none ↦ w
  | some e ↦ record w { manager = put_back e w.manager; entry_held = none }
]

unfoldable pub thread_serves : QueueView → Watch → Watch
unfolding serve_entry
thread_serves view w = elim w.entry_held [
  | none ↦ w
  | some e ↦ record w {
    manager = serve_entry e view w.manager;
    entry_held = none;
    stopped = if view.is_shutdown then e.queue ∷ w.stopped else w.stopped;
  }
]

unfoldable pub watch : ManagerStep → Watch → Watch
unfolding add_queue on_queue_updated remove_queue shutdown_manager thread_pops thread_puts_back
    thread_serves
watch (adds q view) w = record w { manager = add_queue q view w.manager }
watch (updates q view) w = record w { manager = on_queue_updated q view w.manager }
watch (removes q) w = record w { manager = remove_queue q w.manager }
watch stops w = record w { manager = shutdown_manager w.manager }
watch pops w = thread_pops w
watch puts_back w = thread_puts_back w
watch (serves view) w = thread_serves view w

unfoldable pub watched : List ManagerStep → Watch → Watch
unfolding watch
watched [] w = w
watched (s ∷ ss) w = watched ss (watch s w)

abbrev pub unwatched : Watch
unwatched = record { manager = new_manager; entry_held = none; stopped = [] }
