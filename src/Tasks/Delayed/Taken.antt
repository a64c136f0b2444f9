-- ===== src/Tasks/Delayed/Taken.antt =====
-- What the thread does with the entry that it takes from the heap.
use libnei.Common.{
  ℕ, ◌≡◌, refl, sym, ap, ◌∙◌, inl, inr, Bool, true, false, ◌&&◌, ◌||◌, Option, none, some, arith,
  ◌==◌, ==_iff, if◌then◌else◌, Bool-cases,
}
use libnei.Tasks.Delayed.{
  HeapEntry, DelayedTaskManager, find_queue, pop_next_valid_entry_locked, put_back,
}
use libnei.Tasks.Delayed.Deadlines.{has_entry, has_entry-push, is_held, Watch, Known, pop_valid_lem}
use libnei.Tasks.Delayed.Interleavings.{thread_pops, thread_puts_back}

popped-Known :
    (q : ℕ) (w : Watch)
    → (q == 0) ≡ false
    → w.entry_held ≡ none
    → Known q w
    → Known q (record w {
      manager = (pop_next_valid_entry_locked w.manager).1;
      entry_held = (pop_next_valid_entry_locked w.manager).0;
    })
unfolding Known pop_next_valid_entry_locked
popped-Known q w nonnull idle k t h = elim (Bool-cases (t == 0)) [
  | inl null ↦ inl ((==_iff t 0).0 null)
  | inr due ↦
      let known = k t h in
      ground (arith, known, idle, pop_valid_lem q t w.manager.queues w.manager.heap nonnull due h)
]

pub pops-Known : (q : ℕ) (w : Watch) → (q == 0) ≡ false → Known q w → Known q (thread_pops w)
unfolding thread_pops
pops-Known q w nonnull k = by_cases w.entry_held w.manager.is_shutdown refl
  where
    by_cases :
        (o : Option HeapEntry) (b : Bool)
        → w.entry_held ≡ o
        → Known q (elim o [
          | some e ↦ w
          | none ↦ if b then w else record w {
            manager = (pop_next_valid_entry_locked w.manager).1;
            entry_held = (pop_next_valid_entry_locked w.manager).0;
          }
        ])
    by_cases (some e) b h = k
    by_cases none true h = k
    by_cases none false h = popped-Known q w nonnull h k

put_back-heap :
    (q t : ℕ) (e : HeapEntry) (m : DelayedTaskManager)
    → (q == 0) ≡ false
    → find_queue q m.queues ≡ some t
    → (m.is_shutdown || (has_entry q t m.heap || e.queue == q && e.run_time == t)) ≡ true
    → ((put_back e m).is_shutdown || has_entry q t (put_back e m).heap) ≡ true
unfolding put_back
put_back-heap q t e m nonnull found h = ground (arith, has_entry-push q t e m.heap)

put_back-queues : (e : HeapEntry) (m : DelayedTaskManager) → (put_back e m).queues ≡ m.queues
unfolding put_back
put_back-queues e m = ground arith

put_back-Known :
    (q : ℕ) (w : Watch) (e : HeapEntry)
    → (q == 0) ≡ false
    → w.entry_held ≡ some e
    → Known q w
    → Known q (record w { manager = put_back e w.manager; entry_held = none })
unfolding Known
put_back-Known q w e nonnull holds k t h =
    let found : find_queue q w.manager.queues ≡ some t =
      sym (ap (find_queue q) (put_back-queues e w.manager)) ∙ h in
    let known = k t found in
    let same : is_held q t w.entry_held ≡ (e.queue == q && e.run_time == t) =
      ap (is_held q t) holds in
    ground (arith, known, same, put_back-heap q t e w.manager nonnull found)

pub puts_back-Known :
    (q : ℕ) (w : Watch) → (q == 0) ≡ false → Known q w → Known q (thread_puts_back w)
unfolding thread_puts_back
puts_back-Known q w nonnull k = by_held w.entry_held refl
  where
    by_held :
        (o : Option HeapEntry)
        → w.entry_held ≡ o
        → Known q (elim o [
          | none ↦ w
          | some e ↦ record w { manager = put_back e w.manager; entry_held = none }
        ])
    by_held none h = k
    by_held (some e) h = put_back-Known q w e nonnull h k
