-- ===== src/Tasks/SequencedTaskQueue/Delayed.antt =====
-- The heap of delayed tasks: its order, and what a promotion moves.
use mathlib.Core.List.{append_assoc, append-nil}
use libnei.Common.{
  ℕ, ◌<◌, ◌≡◌, refl, sym, ap, inl, inr, Bool, true, false, not, List, [], ◌∷◌, ◌++◌, arith, leb,
  Bool-cases, All, length, filter, filter-None, filter-All, dec_lt, All-append,
}
use libnei.Tasks.Task.{Task, is_shutdown_blocking_task, runs_after}
use libnei.Tasks.SequencedTaskQueue.{
  SequencedTaskQueue, push_heap, pop_ready, promote_ready_delayed_tasks, keep_delayed,
}

-- No task is before one that it runs after.
abbrev pub IsOrdered : List Task → Type 0
IsOrdered [] = Unit
IsOrdered (t ∷ ts) = All (λ u. runs_after t u ≡ false) ts × IsOrdered ts

runs_after_trans :
    (t u v : Task) → runs_after t u ≡ false → runs_after u v ≡ false → runs_after t v ≡ false
runs_after_trans t u v h k = ground arith

runs_after_total : (t u : Task) → runs_after t u ≡ true → runs_after u t ≡ false
runs_after_total t u h = ground arith

All-before :
    (t u : Task) (us : List Task)
    → runs_after t u ≡ false
    → All (λ v. runs_after u v ≡ false) us
    → All (λ v. runs_after t v ≡ false) us
All-before t u [] h k = tt
All-before t u (v ∷ us) h k = (runs_after_trans t u v h k.0, All-before t u us h k.1)

All-push_heap :
    (t u : Task) (us : List Task)
    → runs_after t u ≡ false
    → All (λ v. runs_after t v ≡ false) us
    → All (λ v. runs_after t v ≡ false) (push_heap u us)
unfolding push_heap
All-push_heap t u [] h k = (h, tt)
All-push_heap t u (v ∷ us) h k = elim (Bool-cases (runs_after v u)) [
  | inl e ↦ rw e (h, k)
  | inr e ↦ rw e (k.0, All-push_heap t u us h k.1)
]

pub push_heap-IsOrdered : (t : Task) (ts : List Task) → IsOrdered ts → IsOrdered (push_heap t ts)
unfolding push_heap
push_heap-IsOrdered t [] h = (tt, tt)
push_heap-IsOrdered t (u ∷ us) h = elim (Bool-cases (runs_after u t)) [
  | inl e ↦ rw e ((runs_after_total u t e, All-before t u us (runs_after_total u t e) h.0), h)
  | inr e ↦ rw e (All-push_heap u t us e h.0, push_heap-IsOrdered t us h.1)
]

-- `delayed_run_time <= now`
abbrev pub is_ready : ℕ → Task → Bool
is_ready now t = leb t.delayed_run_time now

later :
    (now : ℕ) (t : Task) (ts : List Task)
    → now < t.delayed_run_time
    → All (λ u. runs_after t u ≡ false) ts
    → All (λ u. is_ready now u ≡ false) ts
later now t [] h k = tt
later now t (u ∷ us) h k = (let first = k.0 in ground arith, later now t us h k.1)

All-not :
    (p : Task → Bool) (ts : List Task) → All (λ u. p u ≡ false) ts → All (λ u. not (p u) ≡ true) ts
All-not p [] h = tt
All-not p (t ∷ ts) h = (ap not h.0, All-not p ts h.1)

pop_ready-filter :
    (now : ℕ) (ts : List Task)
    → IsOrdered ts
    → pop_ready now ts ≡ (filter (is_ready now) ts, filter (λ t. not (is_ready now t)) ts)
unfolding pop_ready filter
pop_ready-filter now [] h = refl
pop_ready-filter now (t ∷ ts) h = elim (dec_lt now t.delayed_run_time) [
  | yes lt ↦
      let none = later now t ts lt h.0 in
      ground (
        arith,
        filter-None (is_ready now) ts none,
        filter-All (λ u. not (is_ready now u)) ts (All-not (is_ready now) ts none),
      )
  | no ge ↦ ground (arith, pop_ready-filter now ts h.1)
]

All-append_last :
    (t : Task) (ts : List Task)
    → All (λ u. runs_after u t ≡ false) ts
    → push_heap t ts ≡ ts ++ (t ∷ [])
unfolding push_heap
All-append_last t [] h = refl
All-append_last t (u ∷ us) h = rw (h.0, All-append_last t us h.1) refl

-- A heap that is emptied into another one in its order.
-- `kept` is before all of `ts`.
IsBefore : List Task → List Task → Type 0
IsBefore kept [] = Unit
IsBefore kept (t ∷ ts) = All (λ u. runs_after u t ≡ false) kept × IsBefore kept ts

IsBefore-append :
    (kept ts : List Task) (t : Task)
    → IsBefore kept ts
    → All (λ u. runs_after t u ≡ false) ts
    → IsBefore (kept ++ (t ∷ [])) ts
unfolding IsBefore
IsBefore-append kept [] t h k = tt
IsBefore-append kept (u ∷ us) t h k = (
  All-append (λ v. runs_after v u ≡ false) kept (t ∷ []) h.0 (k.0, tt),
  IsBefore-append kept us t h.1 k.1,
)

keep_delayed_lem :
    (kept ts : List Task)
    → IsBefore kept ts
    → IsOrdered ts
    → keep_delayed kept ts ≡ kept ++ filter is_shutdown_blocking_task ts
unfolding keep_delayed filter IsBefore
keep_delayed_lem kept [] h o = sym (append-nil kept)
keep_delayed_lem kept (t ∷ ts) h o = elim (Bool-cases (is_shutdown_blocking_task t)) [
  | inl e ↦
      rw
        (
          e,
          All-append_last t kept h.0,
          keep_delayed_lem (kept ++ (t ∷ [])) ts (IsBefore-append kept ts t h.1 o.0) o.1,
        )
        (append_assoc kept (t ∷ []) (filter is_shutdown_blocking_task ts))
  | inr e ↦ rw e (keep_delayed_lem kept ts h.1 o.1)
]

IsBefore-nil : (ts : List Task) → IsBefore [] ts
unfolding IsBefore
IsBefore-nil [] = tt
IsBefore-nil (t ∷ ts) = (tt, IsBefore-nil ts)

pub keep_delayed-filter :
    (ts : List Task) → IsOrdered ts → keep_delayed [] ts ≡ filter is_shutdown_blocking_task ts
keep_delayed-filter ts o = keep_delayed_lem [] ts (IsBefore-nil ts) o

pub All-filter_of {κ} :
    (P : Task → Type κ) (p : Task → Bool) (ts : List Task) → All P ts → All P (filter p ts)
unfolding filter
All-filter_of P p [] h = tt
All-filter_of P p (t ∷ ts) h = elim (Bool-cases (p t)) [
  | inl e ↦ rw e (h.0, All-filter_of P p ts h.1)
  | inr e ↦ rw e (All-filter_of P p ts h.1)
]

pub filter-IsOrdered : (p : Task → Bool) (ts : List Task) → IsOrdered ts → IsOrdered (filter p ts)
unfolding filter
filter-IsOrdered p [] h = tt
filter-IsOrdered p (t ∷ ts) h = elim (Bool-cases (p t)) [
  | inl e ↦ rw e (All-filter_of (λ u. runs_after t u ≡ false) p ts h.0, filter-IsOrdered p ts h.1)
  | inr e ↦ rw e (filter-IsOrdered p ts h.1)
]

-- A promotion moves the delayed tasks that are due by `now`, and no other, to the end of the
-- immediate queue, in the order in which they run; the rest stay in that order.
pub promote_ready_delayed_tasks_lem :
    (q : SequencedTaskQueue) (now : ℕ)
    → IsOrdered q.delayed_incoming_queue
    → promote_ready_delayed_tasks q now ≡ (
      length (filter (is_ready now) q.delayed_incoming_queue),
      record q {
        incoming_queue = q.incoming_queue ++ filter (is_ready now) q.delayed_incoming_queue;
        delayed_incoming_queue = filter (λ t. not (is_ready now t)) q.delayed_incoming_queue;
      },
    )
unfolding promote_ready_delayed_tasks
promote_ready_delayed_tasks_lem q now h =
    ap
      (λ popped. (
        length popped.0,
        record q {
          incoming_queue = q.incoming_queue ++ popped.0;
          delayed_incoming_queue = popped.1;
        },
      ))
      (pop_ready-filter now q.delayed_incoming_queue h)
