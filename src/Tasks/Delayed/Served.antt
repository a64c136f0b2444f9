-- ===== src/Tasks/Delayed/Served.antt =====
-- What the thread does when it serves an entry.
use libnei.Common.{
  ℕ, ◌≡◌, refl, sym, ap, ◌∙◌, inl, inr, Bool, true, false, ◌&&◌, ◌||◌, ◌∷◌, Option, none, some,
  arith, ◌==◌, if◌then◌else◌,
}
use libnei.Tasks.Delayed.{
  QueueView, HeapEntry, find_queue, peeked, set_deadline, signal, wakes, on_queue_updated,
  serve_entry,
}
use libnei.Tasks.Delayed.Deadlines.{
  is_in, is_held, Watch, Known, find-set, set_deadline-queues, set_deadline-is_shutdown,
  set_deadline-heap,
}
use libnei.Tasks.Delayed.Interleavings.{thread_serves}

-- The entry of a queue that is read again is not needed any more.
set_deadline-drops :
    (q s : ℕ) (w : Watch) (e : HeapEntry)
    → w.entry_held ≡ some e
    → Known q w
    → Known q (record w { manager = set_deadline e.queue s w.manager; entry_held = none })
unfolding Known
set_deadline-drops q s w e holds k t h =
    let heap = set_deadline-heap q t e.queue s w.manager in
    let down = set_deadline-is_shutdown e.queue s w.manager in
    let same : is_held q t w.entry_held ≡ (e.queue == q && e.run_time == t) =
      ap (is_held q t) holds in
    elim (find-set q e.queue s t w.manager.queues
      (sym (ap (find_queue q) (set_deadline-queues e.queue s w.manager)) ∙ h)) [
        | inl (same_queue, new) ↦ ground (arith, heap, down, same_queue, new)
        | inr (other, old) ↦ let known = k t old in ground (arith, heap, down, same, known, other)
      ]

-- An entry of a queue that is not registered is not needed.
unregistered-drops :
    (q : ℕ) (w : Watch) (e : HeapEntry)
    → w.entry_held ≡ some e
    → find_queue e.queue w.manager.queues ≡ none
    → Known q w
    → Known q (record w { entry_held = none })
unfolding Known
unregistered-drops q w e holds gone k t h =
    let known = k t h in
    let same : is_held q t w.entry_held ≡ (e.queue == q && e.run_time == t) =
      ap (is_held q t) holds in
    ground (arith, known, same)

updated-drops :
    (q : ℕ) (view : QueueView) (w : Watch) (e : HeapEntry)
    → (e.queue == 0) ≡ false
    → w.entry_held ≡ some e
    → Known q w
    → Known q (record w { manager = on_queue_updated e.queue view w.manager; entry_held = none })
unfolding on_queue_updated
updated-drops q view w e nonnull holds k =
    rw nonnull (by_guard w.manager.is_shutdown (find_queue e.queue w.manager.queues) refl refl)
  where
    by_guard :
        (b : Bool) (o : Option ℕ)
        → w.manager.is_shutdown ≡ b
        → find_queue e.queue w.manager.queues ≡ o
        → Known q (record w {
          manager = if b then w.manager else elim o [
            | none ↦ w.manager
            | some previous ↦
                signal (wakes previous (peeked view)) (set_deadline e.queue (peeked view) w.manager)
          ];
          entry_held = none;
        })
    by_guard true o down found = unfold Known in λ t h. inr (ground (arith, down))
    by_guard false none down found = unregistered-drops q w e holds found k
    by_guard false (some previous) down found =
        unfold Known in set_deadline-drops q (peeked view) w e holds k

-- The entry of a queue that is seen shut down is not needed any more.
stopped-drops :
    (q : ℕ) (w : Watch) (e : HeapEntry)
    → w.entry_held ≡ some e
    → Known q w
    → Known q (record w { entry_held = none; stopped = e.queue ∷ w.stopped })
unfolding Known is_in
stopped-drops q w e holds k t h =
    let known = k t h in
    let same : is_held q t w.entry_held ≡ (e.queue == q && e.run_time == t) =
      ap (is_held q t) holds in
    ground (arith, known, same)

null-drops :
    (q : ℕ) (w : Watch) (e : HeapEntry)
    → (q == 0) ≡ false
    → (e.queue == 0) ≡ true
    → w.entry_held ≡ some e
    → Known q w
    → Known q (record w { entry_held = none })
unfolding Known
null-drops q w e nonnull null holds k t h =
    let known = k t h in
    let same : is_held q t w.entry_held ≡ (e.queue == q && e.run_time == t) =
      ap (is_held q t) holds in
    ground (arith, known, same)

served-Known :
    (q : ℕ) (view : QueueView) (w : Watch) (e : HeapEntry)
    → (q == 0) ≡ false
    → w.entry_held ≡ some e
    → Known q w
    → Known q (record w {
      manager = serve_entry e view w.manager;
      entry_held = none;
      stopped = if view.is_shutdown then e.queue ∷ w.stopped else w.stopped;
    })
unfolding serve_entry
served-Known q view w e nonnull holds k = by_cases (e.queue == 0) view.is_shutdown refl
  where
    by_cases :
        (null down : Bool)
        → (e.queue == 0) ≡ null
        → Known q (record w {
          manager = if null || down then w.manager else on_queue_updated e.queue view w.manager;
          entry_held = none;
          stopped = if down then e.queue ∷ w.stopped else w.stopped;
        })
    by_cases true true h = stopped-drops q w e holds k
    by_cases true false h = null-drops q w e nonnull h holds k
    by_cases false true h = stopped-drops q w e holds k
    by_cases false false h = updated-drops q view w e h holds k

pub serves-Known :
    (q : ℕ) (view : QueueView) (w : Watch)
    → (q == 0) ≡ false
    → Known q w
    → Known q (thread_serves view w)
unfolding thread_serves
serves-Known q view w nonnull k = by_held w.entry_held refl
  where
    by_held :
        (o : Option HeapEntry)
        → w.entry_held ≡ o
        → Known q (elim o [
          | none ↦ w
          | some e ↦ record w {
            manager = serve_entry e view w.manager;
            entry_held = none;
            stopped = if view.is_shutdown then e.queue ∷ w.stopped else w.stopped;
          }
        ])
    by_held none h = k
    by_held (some e) h = served-Known q view w e nonnull h k
