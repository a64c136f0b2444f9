-- ===== src/Tasks/Selector/Tests.antt =====
-- Runs of the queue selector on concrete inputs, and the theorems at concrete inputs.
use libnei.Common.{◌≡◌, refl, true, false, List, [], ◌∷◌, none, some, arith, inl, inr}
use libnei.Tasks.Task.{user_visible, user_blocking}
use libnei.Tasks.Selector.{
  TaskQueueSelector, new_selector, add_queue, remove_queue, set_queue_has_work, set_work,
  count_trailing_zero_bits64, select_next_queue, has_work,
}
use libnei.Tasks.Selector.Quotas.{
  Call, add_call, remove_call, work_call, select_call, step, history, WithinQuotas,
  history-WithinQuotas,
}
use libnei.Tasks.Selector.Stall.{select_next_queue_stalled}

-- Queues 11 and 12 have work; 11 is selected.
abbrev two_queues : List Call
two_queues =
    select_call
    ∷ work_call 12 true
    ∷ work_call 11 true
    ∷ add_call 12 user_blocking
    ∷ add_call 11 user_blocking
    ∷ []

two_queues_run : (select_next_queue (history two_queues)).0 ≡ some 12
unfolding history step add_queue set_queue_has_work set_work select_next_queue
    count_trailing_zero_bits64
two_queues_run = refl

-- Queue 12 is drained, and 11 still has work.
abbrev one_drained : List Call
one_drained = work_call 12 false ∷ two_queues

abbrev stalled : TaskQueueSelector
stalled = record new_selector {
  level0 = record { queues = 11 ∷ 12 ∷ []; work_mask = 1; round_robin_index = 1 };
  active_priority_mask = 1;
  schedule_counter = 1;
  total_queues = 2;
}

one_drained_run : history one_drained ≡ stalled
unfolding history step add_queue set_queue_has_work set_work select_next_queue
    count_trailing_zero_bits64
one_drained_run = refl

-- Queue 13 has work; once 11 is removed, 13 stands where 12 did, and its bit where it was.
abbrev removed : TaskQueueSelector
removed = history (
    remove_call 11
    ∷ work_call 13 true
    ∷ add_call 13 user_visible
    ∷ add_call 12 user_visible
    ∷ add_call 11 user_visible
    ∷ [])

removed_run :
    (removed.level1.queues ≡ 12 ∷ 13 ∷ [])
    × (removed.level1.work_mask ≡ 4)
    × ((select_next_queue removed).0 ≡ none)
unfolding history step add_queue set_queue_has_work set_work remove_queue select_next_queue
    count_trailing_zero_bits64
removed_run = (refl, refl, refl)

history-WithinQuotas_example : WithinQuotas (history one_drained).schedule_counter
history-WithinQuotas_example = history-WithinQuotas one_drained

select_next_queue_stalled_example :
    ((select_next_queue stalled).0 ≡ none)
    × ((select_next_queue stalled).1.level0 ≡ stalled.level0)
    × ((select_next_queue stalled).1.level1 ≡ stalled.level1)
    × ((select_next_queue stalled).1.level2 ≡ stalled.level2)
    × (has_work (select_next_queue stalled).1 ≡ true)
select_next_queue_stalled_example =
    select_next_queue_stalled stalled (inr (omega arith, omega arith, omega arith)) (inl refl)
      (inl refl)
