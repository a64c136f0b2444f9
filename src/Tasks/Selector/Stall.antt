-- ===== src/Tasks/Selector/Stall.antt =====
-- A ready queue that the selector does not find.
use mathlib.Core.Path.{subst, sym}
use native.Mathlib.Nat.{pow-suc, add-zero, mod-eq_of_lt, div-eq_of_lt, mul-lt-mul_of_pos_right}
use libnei.Common.{
  ℕ, zero, suc, ◌+◌, ◌-◌, ◌*◌, ◌/◌, ◌%◌, ◌^◌, ◌≤◌, ◌<◌, ◌≡◌, ◌⊎◌, inl, inr, [], Option, none, arith,
  refl, ap, ◌∙◌, length, not, ◌==◌, bit_or,
}
use libnei.Common.Bits.Fields.{bit_or_sum_right, power_positive}
use libnei.Tasks.Selector.{
  PriorityLevel, TaskQueueSelector, count_zeros, count_trailing_zero_bits64, next_ready, select_at,
  level_at, select_next_queue, maybe_reset_schedule_round, has_work,
}

pow-add : (a b : ℕ) → 2 ^ (a + b) ≡ 2 ^ a * 2 ^ b
pow-add a zero = rw (add-zero a) (omega arith)
pow-add a (suc b) =
    let next : a + suc b ≡ suc (a + b) = omega arith in
    rw next (omega (arith, pow-add a b, pow-suc 2 (a + b), ap (λ (t : ℕ). 2 ^ a * t) (pow-suc 2 b)))

count_zeros-pow : (k bits m : ℕ) → k ≤ bits → k ≤ count_zeros bits (m * 2 ^ k)
unfolding count_zeros
count_zeros-pow zero bits m h = omega arith
count_zeros-pow (suc k) zero m h = absurd (omega arith)
count_zeros-pow (suc k) (suc bits) m h =
    let twice : m * 2 ^ suc k ≡ m * 2 ^ k * 2 =
      omega (arith, ap (λ (t : ℕ). m * t) (pow-suc 2 k)) in
    let even : m * 2 ^ suc k % 2 ≡ 0 = omega arith in
    let half : m * 2 ^ suc k / 2 ≡ m * 2 ^ k = omega arith in
    rw (even, half) (omega (arith, count_zeros-pow k bits m))

trailing : (k m : ℕ) → k ≤ 64 → k ≤ count_trailing_zero_bits64 (m * 2 ^ k)
unfolding count_trailing_zero_bits64
trailing k m h = ground (arith, count_zeros-pow k 64 m h)

-- The queues with work stand before the round robin index, and are few.
abbrev pub IsStalled : PriorityLevel → Type 0
IsStalled level =
    (level.queues ≡ [])
    ⊎ ((level.round_robin_index < length level.queues)
        × (level.round_robin_index + length level.queues ≤ 64)
        × (level.work_mask < 2 ^ level.round_robin_index))

rotated-stalled :
    (start mask : ℕ)
    → start ≤ 64
    → mask < 2 ^ start
    → bit_or (mask / 2 ^ start) (mask * 2 ^ (64 - start) % 2 ^ 64) ≡ mask * 2 ^ (64 - start)
rotated-stalled start mask h small =
    let k = 64 - start in
    let sums : start + k ≡ 64 = omega arith in
    let whole : 2 ^ start * 2 ^ k ≡ 2 ^ 64 = rw (← pow-add start k) (ap (λ (t : ℕ). 2 ^ t) sums) in
    let room : mask * 2 ^ k < 2 ^ 64 = omega (
      arith,
      whole,
      mul-lt-mul_of_pos_right {m = mask} {n = 2 ^ start} {k = 2 ^ k} small (power_positive k),
    ) in
    let none_below : mask / 2 ^ start ≡ 0 = div-eq_of_lt small in
    let kept : mask * 2 ^ k % 2 ^ 64 ≡ mask * 2 ^ k = omega arith in
    rw (none_below, kept) (omega (arith, bit_or_sum_right k mask 0 (power_positive k)))

next_ready-none : (level : PriorityLevel) → IsStalled level → next_ready level ≡ none
unfolding next_ready
next_ready-none level (inl e) = rw e (ground arith)
next_ready-none level (inr (before, few, small)) =
    let start = level.round_robin_index in
    let behind = trailing (64 - start) level.work_mask (omega arith) in
    rw (mod-eq_of_lt before, rotated-stalled start level.work_mask (omega arith) small)
      (ground arith)

select_at_stalled :
    (p quota shift : ℕ) (s : TaskQueueSelector) (later : Option ℕ × TaskQueueSelector)
    → IsStalled (level_at p s)
    → select_at p quota shift s later ≡ later
unfolding select_at
select_at_stalled p quota shift s later h = rw (next_ready-none (level_at p s) h) (ground arith)

-- What a call leaves as it is.
record Untouched (s t : TaskQueueSelector) : Type 0 where
  first : t.level0 ≡ s.level0
  second : t.level1 ≡ s.level1
  third : t.level2 ≡ s.level2
  active : t.active_priority_mask ≡ s.active_priority_mask

reset-Untouched : (s : TaskQueueSelector) → Untouched s (maybe_reset_schedule_round s)
unfolding maybe_reset_schedule_round
reset-Untouched s = ground arith

select_none :
    (s : TaskQueueSelector)
    → IsStalled s.level0
    → IsStalled s.level1
    → IsStalled s.level2
    → select_next_queue s ≡ (none, maybe_reset_schedule_round s)
unfolding select_next_queue level_at
select_none s h0 h1 h2 =
    let t = maybe_reset_schedule_round s in
    let same = reset-Untouched s in
    let last = select_at_stalled 2 1 8 t (none, t) (subst IsStalled (sym same.third) h2) in
    let middle = select_at_stalled 1 2 4 t (none, t) (subst IsStalled (sym same.second) h1) in
    let top = select_at_stalled 0 4 0 t (none, t) (subst IsStalled (sym same.first) h0) in
    ap (λ r. select_at 0 4 0 t (select_at 1 2 4 t r)) last
    ∙ ap (λ r. select_at 0 4 0 t r) middle
    ∙ top

module _ (s : TaskQueueSelector) where
  -- Where in each level all queues with work stand before the round robin index, and the index and the
  -- number of queues add up to 64 at most, SelectNextQueue gives no queue and leaves the levels and
  -- HasWork as they are.
  pub select_next_queue_stalled :
      IsStalled s.level0
      → IsStalled s.level1
      → IsStalled s.level2
      → ((select_next_queue s).0 ≡ none)
        × ((select_next_queue s).1.level0 ≡ s.level0)
        × ((select_next_queue s).1.level1 ≡ s.level1)
        × ((select_next_queue s).1.level2 ≡ s.level2)
        × (has_work (select_next_queue s).1 ≡ has_work s)
  select_next_queue_stalled h0 h1 h2 =
      let same = reset-Untouched s in
      rw (select_none s h0 h1 h2)
        (refl, same.first, same.second, same.third, ap (λ (m : ℕ). not (m == 0)) same.active)
