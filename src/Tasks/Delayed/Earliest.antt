-- ===== src/Tasks/Delayed/Earliest.antt =====
-- The order of the heap, and which deadline the thread waits for.
use mathlib.Core.Path.{subst}
use mathlib.Core.Bool.{false≢true}
use libnei.Common.{
  ℕ, ◌≡◌, ◌≤◌, ap, inl, inr, Bool, true, false, ◌&&◌, ◌||◌, List, [], ◌∷◌, Option, none, some,
  arith, ◌==◌, if◌then◌else◌, Bool-cases, All,
}
use libnei.Tasks.Delayed.{
  QueueView, Registered, HeapEntry, DelayedTaskManager, comes_after, push_entry, find_queue,
  emplace, peeked, set_deadline, refresh_queue_state_locked, signal, add_queue, remove_queue, wakes,
  on_queue_updated, shutdown_manager, pop_valid, pop_next_valid_entry_locked, put_back, serve_entry,
}
use libnei.Tasks.Delayed.Deadlines.{has_entry, is_in, is_held, Watch, pop_valid_lem}
use libnei.Tasks.Delayed.Interleavings.{
  ManagerStep, adds, updates, removes, stops, pops, puts_back, serves, thread_pops,
  thread_puts_back, thread_serves, watch, watched, unwatched,
}
use libnei.Tasks.Delayed.Watching.{deadline_kept}

abbrev AtLeast : ℕ → List HeapEntry → Type 0
AtLeast n es = All (λ e. n ≤ e.run_time) es

abbrev IsSorted : List HeapEntry → Type 0
IsSorted [] = Unit
IsSorted (e ∷ es) = AtLeast e.run_time es × IsSorted es

AtLeast-weaken : (n m : ℕ) (es : List HeapEntry) → n ≤ m → AtLeast m es → AtLeast n es
AtLeast-weaken n m [] h k = tt
AtLeast-weaken n m (e ∷ es) h k = (omega (arith, k.0), AtLeast-weaken n m es h k.1)

AtLeast-push_entry :
    (n : ℕ) (e : HeapEntry) (es : List HeapEntry)
    → n ≤ e.run_time
    → AtLeast n es
    → AtLeast n (push_entry e es)
unfolding push_entry
AtLeast-push_entry n e [] h k = (h, tt)
AtLeast-push_entry n e (f ∷ es) h k = elim (Bool-cases (comes_after f e)) [
  | inl a ↦ rw a (h, k)
  | inr a ↦ rw a (k.0, AtLeast-push_entry n e es h k.1)
]

push_entry-IsSorted :
    (e : HeapEntry) (es : List HeapEntry) → IsSorted es → IsSorted (push_entry e es)
unfolding push_entry
push_entry-IsSorted e [] h = (tt, tt)
push_entry-IsSorted e (f ∷ es) h = elim (Bool-cases (comes_after f e)) [
  | inl a ↦
      let le : e.run_time ≤ f.run_time = ground arith in
      rw a ((le, AtLeast-weaken e.run_time f.run_time es le h.0), h)
  | inr a ↦
      let le : f.run_time ≤ e.run_time = ground arith in
      rw a (AtLeast-push_entry f.run_time e es le h.0, push_entry-IsSorted e es h.1)
]

pop_valid-IsSorted :
    (queues : List Registered) (es : List HeapEntry)
    → IsSorted es
    → IsSorted (pop_valid queues es).1
unfolding pop_valid
pop_valid-IsSorted queues [] h = tt
pop_valid-IsSorted queues (e ∷ es) h = by_test _ (pop_valid-IsSorted queues es h.1)
  where
    by_test :
        (b : Bool)
        → IsSorted (pop_valid queues es).1
        → IsSorted (if b then (some e, es) else pop_valid queues es).1
    by_test true rest = h.1
    by_test false rest = rest

set_deadline-IsSorted :
    (p s : ℕ) (m : DelayedTaskManager) → IsSorted m.heap → IsSorted (set_deadline p s m).heap
unfolding set_deadline
set_deadline-IsSorted p s m h = elim (Bool-cases (s == 0)) [
  | inl e ↦ rw e h
  | inr e ↦
      rw e (push_entry-IsSorted (record { queue = p; run_time = s; order = m.next_order }) m.heap h)
]

on_queue_updated-IsSorted :
    (p : ℕ) (view : QueueView) (m : DelayedTaskManager)
    → IsSorted m.heap
    → IsSorted (on_queue_updated p view m).heap
unfolding on_queue_updated
on_queue_updated-IsSorted p view m h = by_guard (p == 0 || m.is_shutdown) (find_queue p m.queues)
  where
    by_guard :
        (b : Bool) (o : Option ℕ)
        → IsSorted
            (if b then m else elim o [
              | none ↦ m
              | some previous ↦
                  signal (wakes previous (peeked view)) (set_deadline p (peeked view) m)
            ]).heap
    by_guard true o = h
    by_guard false none = h
    by_guard false (some previous) = set_deadline-IsSorted p (peeked view) m h

add_queue-IsSorted :
    (p : ℕ) (view : QueueView) (m : DelayedTaskManager)
    → IsSorted m.heap
    → IsSorted (add_queue p view m).heap
unfolding add_queue refresh_queue_state_locked
add_queue-IsSorted p view m h =
    by_guard (p == 0 || m.is_shutdown) (find_queue p (emplace p m.queues))
  where
    added : DelayedTaskManager
    added = record m { queues = emplace p m.queues }

    by_guard :
        (b : Bool) (o : Option ℕ)
        → IsSorted
            (if b
              then m
              else signal true
                  (elim o [ none ↦ added | some t ↦ set_deadline p (peeked view) added ])).heap
    by_guard true o = h
    by_guard false none = h
    by_guard false (some t) = set_deadline-IsSorted p (peeked view) added h

remove_queue-heap : (p : ℕ) (m : DelayedTaskManager) → (remove_queue p m).heap ≡ m.heap
unfolding remove_queue
remove_queue-heap p m = ground arith

shutdown_manager-IsSorted :
    (m : DelayedTaskManager) → IsSorted m.heap → IsSorted (shutdown_manager m).heap
unfolding shutdown_manager
shutdown_manager-IsSorted m h = elim (Bool-cases m.is_shutdown) [ inl e ↦ rw e h | inr e ↦ rw e tt ]

put_back-IsSorted :
    (e : HeapEntry) (m : DelayedTaskManager) → IsSorted m.heap → IsSorted (put_back e m).heap
unfolding put_back
put_back-IsSorted e m h = by_test _
  where
    by_test : (b : Bool) → IsSorted (if b then record m { heap = push_entry e m.heap } else m).heap
    by_test true = push_entry-IsSorted e m.heap h
    by_test false = h

serve_entry-IsSorted :
    (e : HeapEntry) (view : QueueView) (m : DelayedTaskManager)
    → IsSorted m.heap
    → IsSorted (serve_entry e view m).heap
unfolding serve_entry
serve_entry-IsSorted e view m h = by_test (e.queue == 0 || view.is_shutdown)
  where
    by_test : (b : Bool) → IsSorted (if b then m else on_queue_updated e.queue view m).heap
    by_test true = h
    by_test false = on_queue_updated-IsSorted e.queue view m h

-- The thread's steps, by what it holds.
Ordered : Watch → Type 0
Ordered w = IsSorted w.manager.heap

thread-Ordered :
    (view : QueueView) (w : Watch)
    → Ordered w
    → Ordered (thread_pops w) × Ordered (thread_puts_back w) × Ordered (thread_serves view w)
unfolding thread_pops thread_puts_back thread_serves pop_next_valid_entry_locked Ordered
thread-Ordered view w h =
    (by_pop w.entry_held w.manager.is_shutdown, by_back w.entry_held, by_serve w.entry_held)
  where
    by_pop :
        (o : Option HeapEntry) (b : Bool)
        → Ordered (elim o [
          | some e ↦ w
          | none ↦ if b then w else record w {
            manager = (pop_next_valid_entry_locked w.manager).1;
            entry_held = (pop_next_valid_entry_locked w.manager).0;
          }
        ])
    by_pop (some e) b = h
    by_pop none true = h
    by_pop none false = pop_valid-IsSorted w.manager.queues w.manager.heap h

    by_back :
        (o : Option HeapEntry)
        → Ordered (elim o [
          | none ↦ w
          | some e ↦ record w { manager = put_back e w.manager; entry_held = none }
        ])
    by_back none = h
    by_back (some e) = put_back-IsSorted e w.manager h

    by_serve :
        (o : Option HeapEntry)
        → Ordered (elim o [
          | none ↦ w
          | some e ↦ record w {
            manager = serve_entry e view w.manager;
            entry_held = none;
            stopped = if view.is_shutdown then e.queue ∷ w.stopped else w.stopped;
          }
        ])
    by_serve none = h
    by_serve (some e) = serve_entry-IsSorted e view w.manager h

no_view : QueueView
no_view = record { is_shutdown = false; next_delayed_run_time = 0 }

watch-Ordered : (s : ManagerStep) (w : Watch) → Ordered w → Ordered (watch s w)
unfolding watch Ordered
watch-Ordered (adds p view) w h = add_queue-IsSorted p view w.manager h
watch-Ordered (updates p view) w h = on_queue_updated-IsSorted p view w.manager h
watch-Ordered (removes p) w h = rw (remove_queue-heap p w.manager) h
watch-Ordered stops w h = shutdown_manager-IsSorted w.manager h
watch-Ordered pops w h = let (now, back, served) = thread-Ordered no_view w h in now
watch-Ordered puts_back w h = let (now, back, served) = thread-Ordered no_view w h in back
watch-Ordered (serves view) w h = let (now, back, served) = thread-Ordered view w h in served

watched-Ordered : (ss : List ManagerStep) (w : Watch) → Ordered w → Ordered (watched ss w)
unfolding watched
watched-Ordered [] w h = h
watched-Ordered (s ∷ ss) w h = watched-Ordered ss (watch s w) (watch-Ordered s w h)

has_entry-AtLeast :
    (q t n : ℕ) (es : List HeapEntry) → AtLeast n es → has_entry q t es ≡ true → n ≤ t
unfolding has_entry
has_entry-AtLeast q t n [] k h = absurd (false≢true h)
has_entry-AtLeast q t n (e ∷ es) k h =
    let first = k.0 in
    elim (Bool-cases (e.queue == q && e.run_time == t)) [
      | inl a ↦ ground (arith, first)
      | inr a ↦ has_entry-AtLeast q t n es k.1 (ground arith)
    ]

popped-AtLeast :
    (queues : List Registered) (es : List HeapEntry) (e : HeapEntry)
    → IsSorted es
    → (pop_valid queues es).0 ≡ some e
    → AtLeast e.run_time (pop_valid queues es).1
unfolding pop_valid
popped-AtLeast queues [] e h p = cc
popped-AtLeast queues (f ∷ es) e h p = by_test _ (popped-AtLeast queues es e h.1) p
  where
    by_test :
        (b : Bool)
        → ((pop_valid queues es).0 ≡ some e → AtLeast e.run_time (pop_valid queues es).1)
        → (if b then (some f, es) else pop_valid queues es).0 ≡ some e
        → AtLeast e.run_time (if b then (some f, es) else pop_valid queues es).1
    by_test true rest p = let same : f ≡ e = cc in subst (λ e. AtLeast e.run_time es) same h.0
    by_test false rest p = rest p

-- However the manager's calls and the steps of its thread interleaved: when its thread, which holds no
-- entry and was not told to stop, pops one, then no other registered deadline is earlier, but for
-- those of queues that it has seen shut down.
pub earliest :
    (ss : List ManagerStep) (e : HeapEntry) (q t : ℕ)
    → (q == 0) ≡ false
    → (t == 0) ≡ false
    → (watched ss unwatched).entry_held ≡ none
    → (watched ss unwatched).manager.is_shutdown ≡ false
    → is_in q (watched ss unwatched).stopped ≡ false
    → find_queue q (watched ss unwatched).manager.queues ≡ some t
    → (pop_next_valid_entry_locked (watched ss unwatched).manager).0 ≡ some e
    → e.run_time ≤ t
unfolding pop_next_valid_entry_locked Ordered
earliest ss e q t nonnull due idle running seen h popped =
    let w = watched ss unwatched in
    let known = deadline_kept ss q t nonnull due h in
    let in_heap : has_entry q t w.manager.heap ≡ true =
      ground (arith, known, idle, running, seen) in
    let later =
      popped-AtLeast w.manager.queues w.manager.heap e (watched-Ordered ss unwatched tt) popped in
    let left = pop_valid_lem q t w.manager.queues w.manager.heap nonnull due h in_heap in
    let same : is_held q t (pop_valid w.manager.queues w.manager.heap).0
        ≡ (e.queue == q && e.run_time == t) =
      ap (is_held q t) popped in
    elim (Bool-cases (has_entry q t (pop_valid w.manager.queues w.manager.heap).1)) [
      | inl a ↦
          has_entry-AtLeast q t e.run_time (pop_valid w.manager.queues w.manager.heap).1 later a
      | inr a ↦ ground (arith, left, same, a)
    ]
