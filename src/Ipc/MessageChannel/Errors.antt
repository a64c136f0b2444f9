-- ===== src/Ipc/MessageChannel/Errors.antt =====
-- The error callback.
use libnei.Common.{
  ℕ, ◌+◌, ◌≤◌, ◌≡◌, refl, Bool, true, false, List, [], ◌∷◌, map, arith, if◌then◌else◌, count,
  count-append, ◌-◌,
}
use libnei.Ipc.MessageChannel.{
  Event, message, error, IoPoint, idle, failing, checking, beginning, finishing, issuing,
  delivering, Channel, new_channel, start_reading, send, post_error, signal_error_locked, close,
  begin_read, on_data_received, deliver, check_read, finish_read, issue_next_write,
  on_write_complete,
}
use libnei.Ipc.MessageChannel.Histories.{
  Call, start_reading_call, close_call, begin_call, issue_call, continue_call, send_call, read_call,
  write_call, World, io_step, run, history, start, after-invariant,
}

abbrev pub is_error : Event → Bool
is_error error = true
is_error (message m) = false

abbrev pub errors : Channel → ℕ
errors c = count is_error c.events

abbrev flag : Bool → ℕ
flag b = if b then 1 else 0

-- Error callbacks that were posted, or may still be.
abbrev callbacks : Channel → ℕ
callbacks c = errors c + flag c.on_error

abbrev Kept : Channel → Channel → Type 0
Kept c q = (callbacks q ≡ callbacks c) × (q.started ≡ c.started)

no_errors : (messages : List (List ℕ)) → count is_error (map message messages) ≡ 0
unfolding count
no_errors [] = refl
no_errors (m ∷ messages) = omega (arith, no_errors messages)

post_error-Kept : (c : Channel) → Kept c (post_error c)
unfolding post_error count
post_error-Kept c = ground (arith, count-append is_error c.events (error ∷ []))

send-Kept : (payload : List ℕ) (c : Channel) → Kept c (send payload c)
unfolding send
send-Kept payload c = ground arith

close-Kept : (c : Channel) → Kept c (close c)
unfolding close count
close-Kept c = ground (arith, count-append is_error c.events (error ∷ []))

begin_read-Kept : (next : IoPoint) (c : Channel) → Kept c (begin_read next c)
unfolding begin_read
begin_read-Kept next c = ground arith

on_data_received-Kept :
    (success : Bool) (bytes : List ℕ) (c : Channel) → Kept c (on_data_received success bytes c)
unfolding on_data_received signal_error_locked
on_data_received-Kept success bytes c = ground arith

deliver-Kept : (messages : List (List ℕ)) (e : Bool) (c : Channel) → Kept c (deliver messages e c)
unfolding deliver
deliver-Kept messages e c =
    ground (arith, count-append is_error c.events (map message messages), no_errors messages)

check_read-Kept : (c : Channel) → Kept c (check_read c)
unfolding check_read signal_error_locked
check_read-Kept c = ground arith

finish_read-Kept : (c : Channel) → Kept c (finish_read c)
unfolding finish_read count
finish_read-Kept c = ground (arith, count-append is_error c.events (error ∷ []))

issue_next_write-Kept : (c : Channel) → Kept c (issue_next_write c)
unfolding issue_next_write signal_error_locked
issue_next_write-Kept c = ground arith

on_write_complete-Kept :
    (success : Bool) (n : ℕ) (c : Channel) → Kept c (on_write_complete success n c)
unfolding on_write_complete signal_error_locked
on_write_complete-Kept success n c = ground arith

io_step-Kept : (c : Channel) → Kept c (io_step c)
unfolding io_step
io_step-Kept c = by_point c.point
  where
    by_point :
        (p : IoPoint)
        → Kept c (elim p [
          | idle ↦ c
          | failing ↦ record (post_error c) { point = idle }
          | checking ↦ check_read c
          | beginning ↦ begin_read finishing c
          | finishing ↦ finish_read c
          | issuing ↦ issue_next_write c
          | delivering messages should_signal_error ↦ deliver messages should_signal_error c
        ])
    by_point idle = (refl, refl)
    by_point failing = post_error-Kept c
    by_point checking = check_read-Kept c
    by_point beginning = begin_read-Kept finishing c
    by_point finishing = finish_read-Kept c
    by_point issuing = issue_next_write-Kept c
    by_point (delivering messages e) = deliver-Kept messages e c

-- A callback is there to be posted once StartReading has set it, and not before.
Once : Channel → Type 0
Once c = callbacks c ≤ flag c.started

kept : (c q : Channel) → Kept c q → Once c → Once q
unfolding Once
kept c q (same, started) h = ground (arith, same, started, h)

start_reading-Once : (c : Channel) → Once c → Once (start_reading c)
unfolding start_reading Once
start_reading-Once c h = ground (arith, h)

run-Once : (w : World) (call : Call) → Once w.channel → Once (run w call).channel
unfolding run
run-Once w start_reading_call h = start_reading-Once w.channel h
run-Once w (send_call payload) h =
    kept w.channel (send payload w.channel) (send-Kept payload w.channel) h
run-Once w close_call h = kept w.channel (close w.channel) (close-Kept w.channel) h
run-Once w begin_call h =
    let c = record (w.channel) { begin_tasks = w.channel.begin_tasks - 1 } in
    kept w.channel (begin_read idle c) (begin_read-Kept idle c) h
run-Once w (read_call success bytes) h =
    kept w.channel (on_data_received success bytes w.channel)
      (on_data_received-Kept success bytes w.channel) h
run-Once w issue_call h =
    let c = record (w.channel) { issue_tasks = w.channel.issue_tasks - 1 } in
    kept w.channel (issue_next_write c) (issue_next_write-Kept c) h
run-Once w (write_call success n) h =
    kept w.channel (on_write_complete success n w.channel)
      (on_write_complete-Kept success n w.channel) h
run-Once w continue_call h = kept w.channel (io_step w.channel) (io_step-Kept w.channel) h

start-Once : Once new_channel
unfolding Once count
start-Once = omega arith

-- Whatever is called and completes, in whatever order, the error callback is posted at most once.
pub error_at_most_once : (calls : List Call) → errors (history calls).channel ≤ 1
unfolding Once
error_at_most_once calls =
    let once : Once (history calls).channel =
      after-invariant (λ w. Once w.channel) (λ w call e h. run-Once w call h) start start-Once
        calls in
    ground (arith, once)
