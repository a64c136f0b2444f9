-- ===== src/Tasks/Delayed/Deadlines.antt =====
-- The deadlines of the queues over any interleaving of the manager's calls and its thread.
use mathlib.Core.Bool.{false≢true}
use libnei.Common.{
  ℕ, ◌≡◌, refl, sym, ap, ◌∙◌, ◌⊎◌, inl, inr, Bool, true, false, not, ◌&&◌, ◌||◌, List, [], ◌∷◌,
  Option, none, some, arith, ◌==◌, if◌then◌else◌,
}
use libnei.Tasks.Delayed.{
  QueueView, Registered, HeapEntry, DelayedTaskManager, push_entry, find_queue, emplace, erase,
  set_next_run_time, peeked, set_deadline, refresh_queue_state_locked, signal, add_queue,
  remove_queue, wakes, on_queue_updated, shutdown_manager, pop_valid,
}

-- An entry of the heap for a queue and a time.
unfoldable pub has_entry : ℕ → ℕ → List HeapEntry → Bool
has_entry q t [] = false
has_entry q t (e ∷ es) = e.queue == q && e.run_time == t || has_entry q t es

pub has_entry-push :
    (q t : ℕ) (e : HeapEntry) (es : List HeapEntry)
    → has_entry q t (push_entry e es) ≡ (e.queue == q && e.run_time == t || has_entry q t es)
unfolding has_entry push_entry
has_entry-push q t e [] = refl
has_entry-push q t e (f ∷ es) = ground (arith, has_entry-push q t e es)

find-emplace :
    (q p t : ℕ) (rs : List Registered)
    → find_queue q (emplace p rs) ≡ some t
    → (t ≡ 0) ⊎ (find_queue q rs ≡ some t)
unfolding find_queue emplace
find-emplace q p t [] h = ground arith
find-emplace q p t (r ∷ rs) h = ground (arith, find-emplace q p t rs)

find-erase_same : (q : ℕ) (rs : List Registered) → find_queue q (erase q rs) ≡ none
unfolding find_queue erase
find-erase_same q [] = refl
find-erase_same q (r ∷ rs) = ground (arith, find-erase_same q rs)

find-erase :
    (q p t : ℕ) (rs : List Registered)
    → find_queue q (erase p rs) ≡ some t
    → find_queue q rs ≡ some t
unfolding find_queue erase
find-erase q p t [] h = h
find-erase q p t (r ∷ rs) h = ground (arith, find-erase q p t rs, find-erase_same q rs)

pub find-set :
    (q p s t : ℕ) (rs : List Registered)
    → find_queue q (set_next_run_time p s rs) ≡ some t
    → ((p ≡ q) × (s ≡ t)) ⊎ (((p == q) ≡ false) × (find_queue q rs ≡ some t))
unfolding find_queue set_next_run_time
find-set q p s t [] h = cc
find-set q p s t (r ∷ rs) h = ground (arith, find-set q p s t rs)

abbrev pub is_held : ℕ → ℕ → Option HeapEntry → Bool
is_held q t none = false
is_held q t (some e) = e.queue == q && e.run_time == t

-- An entry that holds is not skipped.
pub pop_valid_lem :
    (q t : ℕ) (queues : List Registered) (es : List HeapEntry)
    → (q == 0) ≡ false
    → (t == 0) ≡ false
    → find_queue q queues ≡ some t
    → has_entry q t es ≡ true
    → (is_held q t (pop_valid queues es).0 || has_entry q t (pop_valid queues es).1) ≡ true
unfolding pop_valid has_entry
pop_valid_lem q t queues [] nonnull due found h = absurd (false≢true h)
pop_valid_lem q t queues (e ∷ es) nonnull due found h = ground (arith, pop_valid_lem q t queues es)

-- A deadline of a queue is known: the heap has an entry for it, or the thread holds one, or the thread
-- has seen that the queue is shut down, or the manager is shut down.
pub record Watch : Type 0 where
  pub manager : DelayedTaskManager
  pub entry_held : Option HeapEntry
  pub stopped : List ℕ

unfoldable pub is_in : ℕ → List ℕ → Bool
is_in q [] = false
is_in q (p ∷ ps) = p == q || is_in q ps

abbrev pub is_known : ℕ → ℕ → Watch → Bool
is_known q t w =
    w.manager.is_shutdown
    || (has_entry q t w.manager.heap || (is_held q t w.entry_held || is_in q w.stopped))

-- The deadline of the queue is null, or it is known.
unfoldable pub Known : ℕ → Watch → Type 0
Known q w = (t : ℕ) → find_queue q w.manager.queues ≡ some t → (t ≡ 0) ⊎ (is_known q t w ≡ true)

pub set_deadline-queues :
    (p s : ℕ) (m : DelayedTaskManager)
    → (set_deadline p s m).queues ≡ set_next_run_time p s m.queues
unfolding set_deadline
set_deadline-queues p s m = ground arith

pub set_deadline-is_shutdown :
    (p s : ℕ) (m : DelayedTaskManager) → (set_deadline p s m).is_shutdown ≡ m.is_shutdown
unfolding set_deadline
set_deadline-is_shutdown p s m = ground arith

pub set_deadline-heap :
    (q t p s : ℕ) (m : DelayedTaskManager)
    → has_entry q t (set_deadline p s m).heap
      ≡ (not (s == 0) && (p == q && s == t) || has_entry q t m.heap)
unfolding set_deadline
set_deadline-heap q t p s m =
    ground
      (arith, has_entry-push q t (record { queue = p; run_time = s; order = m.next_order }) m.heap)

set_deadline-Known :
    (q p s : ℕ) (w : Watch)
    → Known q w
    → Known q (record w { manager = set_deadline p s w.manager })
unfolding Known
set_deadline-Known q p s w k t h =
    let heap = set_deadline-heap q t p s w.manager in
    let down = set_deadline-is_shutdown p s w.manager in
    elim (find-set q p s t w.manager.queues
      (sym (ap (find_queue q) (set_deadline-queues p s w.manager)) ∙ h)) [
        | inl (same, new) ↦ ground (arith, heap, down, same, new)
        | inr (other, old) ↦ let known = k t old in ground (arith, heap, down, known)
      ]

refresh-Known :
    (q p : ℕ) (view : QueueView) (w : Watch)
    → Known q w
    → Known q (record w { manager = refresh_queue_state_locked p view w.manager })
unfolding refresh_queue_state_locked
refresh-Known q p view w k = by_found (find_queue p w.manager.queues)
  where
    by_found :
        (o : Option ℕ)
        → Known q (record w {
          manager = elim o [ none ↦ w.manager | some t ↦ set_deadline p (peeked view) w.manager ];
        })
    by_found none = k
    by_found (some t) = set_deadline-Known q p (peeked view) w k

emplace-Known :
    (q p : ℕ) (w : Watch)
    → Known q w
    → Known q (record w { manager = record (w.manager) { queues = emplace p w.manager.queues } })
unfolding Known
emplace-Known q p w k t h = elim (find-emplace q p t w.manager.queues h) [
  | inl null ↦ inl null
  | inr old ↦ k t old
]

pub add_queue-Known :
    (q p : ℕ) (view : QueueView) (w : Watch)
    → Known q w
    → Known q (record w { manager = add_queue p view w.manager })
unfolding add_queue
add_queue-Known q p view w k = by_guard (p == 0 || w.manager.is_shutdown)
  where
    added : DelayedTaskManager
    added = record (w.manager) { queues = emplace p w.manager.queues }

    by_guard :
        (b : Bool)
        → Known q (record w {
          manager = if b then w.manager else signal true (refresh_queue_state_locked p view added);
        })
    by_guard true = k
    by_guard false =
        unfold Known in
        refresh-Known q p view (record w { manager = added }) (emplace-Known q p w k)

pub remove_queue-Known :
    (q p : ℕ) (w : Watch) → Known q w → Known q (record w { manager = remove_queue p w.manager })
unfolding remove_queue
remove_queue-Known q p w k = by_guard (p == 0)
  where
    by_guard :
        (b : Bool)
        → Known q (record w {
          manager =
              if b
              then w.manager
              else signal true (record (w.manager) { queues = erase p w.manager.queues });
        })
    by_guard true = k
    by_guard false = unfold Known in λ t h. k t (find-erase q p t w.manager.queues h)

pub on_queue_updated-Known :
    (q p : ℕ) (view : QueueView) (w : Watch)
    → Known q w
    → Known q (record w { manager = on_queue_updated p view w.manager })
unfolding on_queue_updated
on_queue_updated-Known q p view w k =
    by_guard (p == 0 || w.manager.is_shutdown) (find_queue p w.manager.queues)
  where
    by_guard :
        (b : Bool) (o : Option ℕ)
        → Known q (record w {
          manager = if b then w.manager else elim o [
            | none ↦ w.manager
            | some previous ↦
                signal (wakes previous (peeked view)) (set_deadline p (peeked view) w.manager)
          ];
        })
    by_guard true o = k
    by_guard false none = k
    by_guard false (some previous) = unfold Known in set_deadline-Known q p (peeked view) w k

pub shutdown_manager-Known :
    (q : ℕ) (w : Watch) → Known q (record w { manager = shutdown_manager w.manager })
unfolding shutdown_manager Known
shutdown_manager-Known q w t h = inr (ground arith)
