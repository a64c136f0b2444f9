-- ===== src/Tasks/Selector.antt =====
-- TaskQueueSelector (src/neixx/task/internal/task_queue_selector.cpp). A queue is known by a number, and is
-- not null. The masks are atomic and other threads set them too; each call is one step here.
pub mod Quotas
pub mod Stall
mod Tests
use libnei.Common.{
  ℕ, zero, suc, ◌+◌, ◌-◌, ◌*◌, ◌/◌, ◌%◌, ◌^◌, bit_and, bit_or, Bool, true, false, not, ◌&&◌, ◌||◌,
  List, [], ◌∷◌, ◌++◌, Option, none, some, ltb, leb, ◌==◌, if◌then◌else◌, length, get_or, remove_at,
}
use libnei.Tasks.Task.{TaskPriority, best_effort, user_visible, user_blocking}

abbrev pub max_queues_per_priority : ℕ
max_queues_per_priority = 63

pub record PriorityLevel : Type 0 where
  pub queues : List ℕ
  pub work_mask : ℕ
  pub round_robin_index : ℕ

-- `level0`, `level1` and `level2` are the three of levels_.
pub record TaskQueueSelector : Type 0 where
  pub level0 : PriorityLevel
  pub level1 : PriorityLevel
  pub level2 : PriorityLevel
  pub active_priority_mask : ℕ
  pub schedule_counter : ℕ
  pub total_queues : ℕ

abbrev new_level : PriorityLevel
new_level = record { queues = []; work_mask = 0; round_robin_index = 0 }

abbrev pub new_selector : TaskQueueSelector
new_selector = record {
  level0 = new_level;
  level1 = new_level;
  level2 = new_level;
  active_priority_mask = 0;
  schedule_counter = 0;
  total_queues = 0;
}

count_zeros : ℕ → ℕ → ℕ
count_zeros zero mask = 0
count_zeros (suc bits) mask =
    let rest = count_zeros bits (mask / 2) in if mask % 2 == 0 then suc rest else 0

unfoldable pub count_trailing_zero_bits64 : ℕ → ℕ
unfolding count_zeros
count_trailing_zero_bits64 mask = if mask == 0 then 64 else count_zeros 64 mask

unfoldable pub priority_to_index : TaskPriority → ℕ
priority_to_index user_blocking = 0
priority_to_index best_effort = 2
priority_to_index user_visible = 1

unfoldable pub level_at : ℕ → TaskQueueSelector → PriorityLevel
level_at zero s = s.level0
level_at (suc zero) s = s.level1
level_at (suc (suc i)) s = s.level2

unfoldable pub set_level : ℕ → PriorityLevel → TaskQueueSelector → TaskQueueSelector
set_level zero level s = record s { level0 = level }
set_level (suc zero) level s = record s { level1 = level }
set_level (suc (suc i)) level s = record s { level2 = level }

-- none where the CHECK fails, which ends the process.
unfoldable pub add_queue : ℕ → TaskPriority → TaskQueueSelector → Option (ℕ × TaskQueueSelector)
unfolding priority_to_index level_at set_level
add_queue queue priority s =
    let i = priority_to_index priority in
    let level = level_at i s in
    if leb max_queues_per_priority (length level.queues)
    then none
    else some (
      length level.queues,
      record (set_level i (record level { queues = level.queues ++ (queue ∷ []) }) s) {
        total_queues = s.total_queues + 1;
      },
    )

-- `std::find`
pub find_queue : ℕ → List ℕ → Option ℕ
find_queue queue [] = none
find_queue queue (q ∷ qs) =
    let rest = find_queue queue qs in
    if q == queue then some 0 else elim rest [ none ↦ none | some i ↦ some (suc i) ]

-- `mask & ~bit`, of a mask of 64 bits or fewer.
abbrev clear_bit : ℕ → ℕ → ℕ
clear_bit bit mask = bit_and mask (2 ^ 64 - 1 - bit)

-- Clears the bit of a queue, and that of the level where it was the last one.
unfoldable pub clear_work : ℕ → ℕ → TaskQueueSelector → TaskQueueSelector
unfolding level_at set_level
clear_work prio_idx i s =
    let level = level_at prio_idx s in
    let mask = clear_bit (2 ^ i) level.work_mask in
    let t = set_level prio_idx (record level { work_mask = mask }) s in
    if mask == 0
    then record t { active_priority_mask = clear_bit (2 ^ prio_idx) t.active_priority_mask }
    else t

abbrev pub is_nil : List ℕ → Bool
is_nil [] = true
is_nil (q ∷ qs) = false

abbrev erase_at : ℕ → PriorityLevel → PriorityLevel
erase_at i level =
    let queues = remove_at i level.queues in
    let back = leb (length queues) level.round_robin_index && not (is_nil queues) in
    record level {
      queues = queues;
      round_robin_index = if back then 0 else level.round_robin_index;
    }

unfoldable pub remove_from : ℕ → ℕ → TaskQueueSelector → TaskQueueSelector
unfolding clear_work level_at set_level
remove_from prio_idx i s =
    let t = clear_work prio_idx i s in
    record (set_level prio_idx (erase_at i (level_at prio_idx t)) t) {
      total_queues = t.total_queues - 1;
    }

unfoldable pub set_work : Bool → ℕ → ℕ → TaskQueueSelector → TaskQueueSelector
unfolding clear_work level_at set_level
set_work false prio_idx i s = clear_work prio_idx i s
set_work true prio_idx i s =
    let level = level_at prio_idx s in
    record (set_level prio_idx (record level { work_mask = bit_or level.work_mask (2 ^ i) }) s) {
      active_priority_mask = bit_or s.active_priority_mask (2 ^ prio_idx);
    }

-- The loop over the levels: what is done at the first that has the queue, which is given with its place.
unfoldable pub at_queue :
    ℕ → (ℕ → ℕ → TaskQueueSelector → TaskQueueSelector) → TaskQueueSelector → TaskQueueSelector
unfolding find_queue
at_queue queue act s = elim (find_queue queue s.level0.queues) [
  | some i ↦ act 0 i s
  | none ↦ elim (find_queue queue s.level1.queues) [
    | some i ↦ act 1 i s
    | none ↦ elim (find_queue queue s.level2.queues) [ some i ↦ act 2 i s | none ↦ s ]
  ]
]

unfoldable pub remove_queue : ℕ → TaskQueueSelector → TaskQueueSelector
unfolding remove_from at_queue
remove_queue queue s = at_queue queue remove_from s

unfoldable pub set_queue_has_work : ℕ → Bool → TaskQueueSelector → TaskQueueSelector
unfolding set_work at_queue
set_queue_has_work queue has_work s = at_queue queue (set_work has_work) s

abbrev pub is_active : ℕ → TaskQueueSelector → Bool
is_active prio_idx s = not (bit_and s.active_priority_mask (2 ^ prio_idx) == 0)

abbrev pub used : ℕ → ℕ → ℕ
used shift counter = counter / 2 ^ shift % 16

unfoldable pub maybe_reset_schedule_round : TaskQueueSelector → TaskQueueSelector
maybe_reset_schedule_round s =
    let left =
      (is_active 0 s && ltb (used 0 s.schedule_counter) 4)
      || (is_active 1 s && ltb (used 4 s.schedule_counter) 2)
      || (is_active 2 s && ltb (used 8 s.schedule_counter) 1) in
    if not left || s.active_priority_mask == 0 then record s { schedule_counter = 0 } else s

-- The place of the next ready queue of a level. In C++ a shift by 64 is undefined; here it leaves 0.
unfoldable pub next_ready : PriorityLevel → Option ℕ
next_ready level =
    let n = length level.queues in
    let start = level.round_robin_index % n in
    let rotated =
      bit_or (level.work_mask / 2 ^ start) (level.work_mask * 2 ^ (64 - start) % 2 ^ 64) in
    let offset = count_trailing_zero_bits64 rotated in
    if level.work_mask == 0 || is_nil level.queues
    then none
    else if leb n offset
    then none
    else some ((start + offset) % n)

-- A level of the loop of SelectNextQueue; `later` is what the levels after it give.
unfoldable pub select_at :
    ℕ → ℕ → ℕ → TaskQueueSelector → Option ℕ × TaskQueueSelector → Option ℕ × TaskQueueSelector
unfolding next_ready level_at set_level
select_at prio_idx quota shift s later =
    let level = level_at prio_idx s in
    if not (is_active prio_idx s)
    then later
    else if leb quota (used shift s.schedule_counter)
    then later
    else elim (next_ready level) [
      | none ↦ later
      | some i ↦ (
        some (get_or level.queues i 0),
        record (set_level prio_idx
            (record level { round_robin_index = (i + 1) % length level.queues % 256 }) s) {
              schedule_counter = (s.schedule_counter + 2 ^ shift) % 2 ^ 16;
            },
      )
    ]

unfoldable pub select_next_queue : TaskQueueSelector → Option ℕ × TaskQueueSelector
unfolding maybe_reset_schedule_round select_at
select_next_queue s =
    let t = maybe_reset_schedule_round s in
    select_at 0 4 0 t (select_at 1 2 4 t (select_at 2 1 8 t (none, t)))

abbrev pub has_work : TaskQueueSelector → Bool
has_work s = not (s.active_priority_mask == 0)
