-- ===== src/Tasks/Selector/Quotas.antt =====
-- The 4:2:1 quotas.
use mathlib.Core.Path.{subst, sym}
use libnei.Common.{
  ℕ, ◌+◌, ◌^◌, ◌/◌, ◌%◌, ◌≤◌, ◌<◌, ◌≡◌, ◌⊎◌, inl, inr, Bool, List, [], ◌∷◌, Option, none, some,
  arith, true, false, Option-cases,
}
use libnei.Tasks.Task.{TaskPriority}
use libnei.Tasks.Selector.{
  TaskQueueSelector, new_selector, find_queue, next_ready, add_queue, remove_queue,
  set_queue_has_work, select_next_queue, maybe_reset_schedule_round, select_at, at_queue,
  remove_from, set_work, clear_work, level_at, set_level, used,
}

pub data Call : Type 0 where
  add_call : ℕ → TaskPriority → Call
  remove_call : ℕ → Call
  work_call : ℕ → Bool → Call
  select_call : Call

-- A call whose CHECK fails is the last one, so it changes nothing.
abbrev after_add : TaskQueueSelector → Option (ℕ × TaskQueueSelector) → TaskQueueSelector
after_add s none = s
after_add s (some (i, t)) = t

unfoldable pub step : Call → TaskQueueSelector → TaskQueueSelector
step (add_call q p) s = after_add s (add_queue q p s)
step (remove_call q) s = remove_queue q s
step (work_call q b) s = set_queue_has_work q b s
step select_call s = (select_next_queue s).1

-- The last call comes first.
unfoldable pub history : List Call → TaskQueueSelector
unfolding step
history [] = new_selector
history (c ∷ cs) = step c (history cs)

-- At most 4, 2 and 1 selections.
pub record WithinQuotas (counter : ℕ) : Type 0 where
  pub user_blocking_quota : counter % 16 ≤ 4
  pub user_visible_quota : counter / 16 % 16 ≤ 2
  pub best_effort_quota : counter / 256 ≤ 1

abbrev Same : TaskQueueSelector → TaskQueueSelector → Type 0
Same s t = t.schedule_counter ≡ s.schedule_counter

level_counter : (i : ℕ) (l : _) (s : TaskQueueSelector) → Same s (set_level i l s)
unfolding set_level
level_counter i l s = ground arith

clear_work_counter : (p i : ℕ) (s : TaskQueueSelector) → Same s (clear_work p i s)
unfolding clear_work
clear_work_counter p i s = ground (arith, level_counter p _ s)

remove_from_counter : (p i : ℕ) (s : TaskQueueSelector) → Same s (remove_from p i s)
unfolding remove_from
remove_from_counter p i s =
    omega (arith, clear_work_counter p i s, level_counter p _ (clear_work p i s))

set_work_counter : (b : Bool) (p i : ℕ) (s : TaskQueueSelector) → Same s (set_work b p i s)
unfolding set_work
set_work_counter true p i s = level_counter p _ s
set_work_counter false p i s = clear_work_counter p i s

at_queue_counter :
    (queue : ℕ) (act : ℕ → ℕ → TaskQueueSelector → TaskQueueSelector) (s : TaskQueueSelector)
    → ((p i : ℕ) → Same s (act p i s))
    → Same s (at_queue queue act s)
unfolding at_queue
at_queue_counter queue act s h = elim (Option-cases (find_queue queue s.level0.queues)) [
  | inr (i, e) ↦ ground (arith, h 0 i)
  | inl e ↦ elim (Option-cases (find_queue queue s.level1.queues)) [
    | inr (i, e1) ↦ ground (arith, h 1 i)
    | inl e1 ↦ elim (Option-cases (find_queue queue s.level2.queues)) [
      | inr (i, e2) ↦ ground (arith, h 2 i)
      | inl e2 ↦ ground arith
    ]
  ]
]

add_queue_counter :
    (q : ℕ) (p : TaskPriority) (s : TaskQueueSelector) → Same s (after_add s (add_queue q p s))
unfolding add_queue
add_queue_counter q p s = ground arith

reset_counter :
    (s : TaskQueueSelector)
    → WithinQuotas s.schedule_counter
    → WithinQuotas (maybe_reset_schedule_round s).schedule_counter
unfolding maybe_reset_schedule_round
reset_counter s h = ground arith

-- A level counts one selection more, which its quota has room for, or leaves it to those after it.
select_at_counter :
    (p quota shift : ℕ) (s : TaskQueueSelector) (later : Option ℕ × TaskQueueSelector)
    → ((select_at p quota shift s later).1.schedule_counter ≡ later.1.schedule_counter)
      ⊎ ((used shift s.schedule_counter < quota)
          × ((select_at p quota shift s later).1.schedule_counter
              ≡ (s.schedule_counter + 2 ^ shift) % 2 ^ 16))
unfolding select_at
select_at_counter p quota shift s later = elim (Option-cases (next_ready (level_at p s))) [
  | inl e ↦ ground arith
  | inr (i, e) ↦ ground arith
]

select-WithinQuotas :
    (s : TaskQueueSelector)
    → WithinQuotas s.schedule_counter
    → WithinQuotas (select_next_queue s).1.schedule_counter
unfolding select_next_queue
select-WithinQuotas s h =
    let t = maybe_reset_schedule_round s in
    let start = reset_counter s h in
    let third = select_at 2 1 8 t (none, t) in
    let second = select_at 1 2 4 t third in
    omega (
      arith,
      start,
      select_at_counter 2 1 8 t (none, t),
      select_at_counter 1 2 4 t third,
      select_at_counter 0 4 0 t second,
    )

step-WithinQuotas :
    (c : Call) (s : TaskQueueSelector)
    → WithinQuotas s.schedule_counter
    → WithinQuotas (step c s).schedule_counter
unfolding step remove_queue set_queue_has_work
step-WithinQuotas (add_call q p) s h = subst WithinQuotas (sym (add_queue_counter q p s)) h
step-WithinQuotas (remove_call q) s h =
    subst WithinQuotas (sym (at_queue_counter q remove_from s (λ p i. remove_from_counter p i s))) h
step-WithinQuotas (work_call q b) s h =
    subst WithinQuotas (sym (at_queue_counter q (set_work b) s (λ p i. set_work_counter b p i s))) h
step-WithinQuotas select_call s h = select-WithinQuotas s h

-- After any calls of a new selector, the round has counted at most 4 selections of the USER_BLOCKING level, 2 of
-- the USER_VISIBLE and 1 of the BEST_EFFORT level, and no other bit of the counter is set.
pub history-WithinQuotas : (cs : List Call) → WithinQuotas (history cs).schedule_counter
unfolding history
history-WithinQuotas [] = omega arith
history-WithinQuotas (c ∷ cs) = step-WithinQuotas c (history cs) (history-WithinQuotas cs)
