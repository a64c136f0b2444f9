-- ===== src/Ipc/MessageChannel/Drained.antt =====
-- The bytes that the stream has, after any calls.
use mathlib.Core.Path.{subst}
use libnei.Common.{
  ℕ, ◌-◌, ◌≡◌, refl, ap, ◌∙◌, inl, inr, Bool, true, false, ◌&&◌, List, ◌++◌, none, arith, ltb→lt,
}
use libnei.Ipc.Framing.Chunks.{joined_chunks}
use libnei.Ipc.MessageChannel.{
  IoPoint, idle, failing, checking, beginning, finishing, issuing, delivering, Channel,
  start_reading, post_error, close, begin_read, on_data_received, deliver, check_read, finish_read,
  issue_next_write,
}
use libnei.Ipc.MessageChannel.Histories.{
  Call, start_reading_call, close_call, begin_call, issue_call, continue_call, send_call, read_call,
  write_call, World, slice_of, is_writing, is_idle, io_step, may_run, run, start, history,
  after-invariant,
}
use libnei.Ipc.MessageChannel.Writes.{side, is_issuing, Sound, Sound-Prefix}
use libnei.Ipc.MessageChannel.Carries.{
  start_reading-Carries, close-Carries, begin_read-Carries, on_data_received-Carries,
  deliver-Carries, check_read-Carries, finish_read-Carries, fail-Carries, carried,
}
use libnei.Ipc.MessageChannel.WriteTasks.{
  send-Holds, issue_task-Holds, issue_point-Holds, write-Holds,
}

abbrev Holds : World → Type 0
Holds w = Sound w.channel.error_signaled (side w.channel) w.written w.queued

io_step-Holds :
    (c : Channel) (written : List ℕ) (queued : List (List ℕ))
    → Sound c.error_signaled (side c) written queued
    → let q = io_step c in Sound q.error_signaled (side q) written queued
unfolding io_step
io_step-Holds c written queued h = by_point c.point refl
  where
    with_point : (p : IoPoint) → is_issuing p ≡ false → c.point ≡ p → is_issuing c.point ≡ false
    with_point p other e = ap is_issuing e ∙ other

    at_point : IoPoint → Channel
    at_point p = elim p [
      | idle ↦ c
      | failing ↦ record (post_error c) { point = idle }
      | checking ↦ check_read c
      | beginning ↦ begin_read finishing c
      | finishing ↦ finish_read c
      | issuing ↦ issue_next_write c
      | delivering messages should_signal_error ↦ deliver messages should_signal_error c
    ]

    by_point :
        (p : IoPoint)
        → c.point ≡ p
        → Sound (at_point p).error_signaled (side (at_point p)) written queued
    by_point idle e = h
    by_point failing e =
        carried c (record (post_error c) { point = idle }) written queued
          (fail-Carries c (with_point failing refl e)) h
    by_point checking e =
        carried c (check_read c) written queued (check_read-Carries c (with_point checking refl e))
          h
    by_point beginning e =
        carried c (begin_read finishing c) written queued
          (begin_read-Carries finishing c (with_point beginning refl e)) h
    by_point finishing e =
        carried c (finish_read c) written queued
          (finish_read-Carries c (with_point finishing refl e)) h
    by_point issuing e = issue_point-Holds c written queued (ap is_issuing e) h
    by_point (delivering messages f) e =
        carried c (deliver messages f c) written queued
          (deliver-Carries messages f c (with_point (delivering messages f) refl e)) h

not_issuing : (p : IoPoint) → is_idle p ≡ true → is_issuing p ≡ false
not_issuing p h = ground (arith, h)

-- The guard of a task.
both_hold : (a b : Bool) → (a && b) ≡ true → (a ≡ true) × (b ≡ true)
both_hold a b h = ground (arith, h)

run-Holds : (w : World) (call : Call) → may_run w.channel call ≡ true → Holds w → Holds (run w call)
unfolding run may_run
run-Holds w start_reading_call e h =
    carried w.channel (start_reading w.channel) w.written w.queued (start_reading-Carries w.channel)
      h
run-Holds w (send_call payload) e h = send-Holds payload w.channel w.written w.queued h
run-Holds w close_call e h =
    carried w.channel (close w.channel) w.written w.queued (close-Carries w.channel) h
run-Holds w begin_call e h =
    let (at_rest, posted) = both_hold (is_idle w.channel.point) _ e in
    let c = record (w.channel) { begin_tasks = w.channel.begin_tasks - 1 } in
    carried c (begin_read idle c) w.written w.queued
      (begin_read-Carries idle c (not_issuing w.channel.point at_rest)) h
run-Holds w (read_call success bytes) e h =
    let (at_rest, reading) = both_hold (is_idle w.channel.point) _ e in
    carried w.channel (on_data_received success bytes w.channel) w.written w.queued
      (on_data_received-Carries success bytes w.channel (not_issuing w.channel.point at_rest)) h
run-Holds w issue_call e h =
    let (at_rest, posted) = both_hold (is_idle w.channel.point) _ e in
    issue_task-Holds w.channel w.written w.queued (not_issuing w.channel.point at_rest)
      (ltb→lt 0 w.channel.issue_tasks posted) h
run-Holds w (write_call success n) e h =
    let (at_rest, can) = both_hold (is_idle w.channel.point) _ e in
    let (given, fits) = both_hold (is_writing w.channel.writing) _ can in
    write-Holds success n w.channel w.written w.queued given (ground (arith, fits)) h
run-Holds w continue_call e h = io_step-Holds w.channel w.written w.queued h

history-Holds : (calls : List Call) → Holds (history calls)
history-Holds calls =
    after-invariant Holds run-Holds start (inl (refl, refl, refl, refl, refl, refl, refl)) calls

-- After any calls, completions and tasks in any order, with writes that take any part of what they
-- are given, the bytes that the stream has taken are a beginning of the frames that Send has queued,
-- in their order.
pub written-Prefix :
    (calls : List Call)
    → (tail : List ℕ) × ((history calls).written ++ tail ≡ joined_chunks (history calls).queued)
written-Prefix calls =
    let w = history calls in
    let (tail, all) =
      Sound-Prefix w.channel.error_signaled (side w.channel) w.written w.queued
        (history-Holds calls) in
    (slice_of w.channel.writing ++ tail, all)

-- When a channel without an error has no task of IssueNextWrite, no write in progress and no step of
-- its own to do, the stream has all the frames that Send has queued: none is stuck.
pub idle_drained :
    (calls : List Call)
    → (history calls).channel.error_signaled ≡ false
    → (history calls).channel.issue_tasks ≡ 0
    → (history calls).channel.writing ≡ none
    → (history calls).channel.point ≡ idle
    → (history calls).written ≡ joined_chunks (history calls).queued
idle_drained calls fine no_task no_write at_rest =
    by_state (subst (λ e. Sound e (side w.channel) w.written w.queued) fine (history-Holds calls))
  where
    w : World
    w = history calls

    by_state : Sound false (side w.channel) w.written w.queued → w.written ≡ joined_chunks w.queued
    by_state (inl (_, _, _, _, _, _, all)) = all
    by_state (inr (inl (_, tasks, _, _))) = absurd (ground (arith, tasks, no_task, at_rest))
    by_state (inr (inr (_, _, _, (b, ps, _, _, _, given, _)))) = absurd (cc (given, no_write))
