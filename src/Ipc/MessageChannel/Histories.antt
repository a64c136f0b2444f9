-- ===== src/Ipc/MessageChannel/Histories.antt =====
-- The interleavings of the calls from any thread with the tasks of the I/O thread and with the
-- stream's completions.
use libnei.Common.{
  ◌≡◌, refl, ℕ, ◌-◌, Bool, true, false, ◌&&◌, ◌||◌, List, [], ◌∷◌, ◌++◌, Option, none, some, ltb,
  leb, if◌then◌else◌, length, take,
}
use libnei.Ipc.Framing.{frame}
use libnei.Ipc.MessageChannel.{
  IoPoint, idle, failing, checking, beginning, finishing, issuing, delivering, Channel, new_channel,
  start_reading, send, post_error, close, begin_read, on_data_received, deliver, check_read,
  finish_read, issue_next_write, on_write_complete,
}

-- `read_call` is the task that the completion of ReadAsync posts, `write_call` that of WriteAsync,
-- of whose bytes the stream has taken so many; `continue_call` is the next step of the I/O thread.
pub data Call : Type 0 where
  start_reading_call close_call begin_call issue_call continue_call : Call
  send_call : List ℕ → Call
  read_call : Bool → List ℕ → Call
  write_call : Bool → ℕ → Call

-- The frames that Send has queued, and the bytes that the output stream has taken.
pub record World : Type 0 where
  pub channel : Channel
  pub queued : List (List ℕ)
  pub written : List ℕ

abbrev pub start : World
start = record { channel = new_channel; queued = []; written = [] }

abbrev pub is_idle : IoPoint → Bool
is_idle idle = true
is_idle p = false

unfoldable pub io_step : Channel → Channel
unfolding post_error begin_read deliver check_read finish_read issue_next_write
io_step c = elim c.point [
  | idle ↦ c
  | failing ↦ record (post_error c) { point = idle }
  | checking ↦ check_read c
  | beginning ↦ begin_read finishing c
  | finishing ↦ finish_read c
  | issuing ↦ issue_next_write c
  | delivering messages should_signal_error ↦ deliver messages should_signal_error c
]

-- A task runs if it was posted, a completion if there was a call, and on the I/O thread if it is idle.
-- The stream takes at most the bytes that it was given.
abbrev pub slice_of : Option (List ℕ) → List ℕ
slice_of none = []
slice_of (some slice) = slice

abbrev pub is_writing : Option (List ℕ) → Bool
is_writing none = false
is_writing (some slice) = true

unfoldable pub may_run : Channel → Call → Bool
may_run c begin_call = is_idle c.point && ltb 0 c.begin_tasks
may_run c issue_call = is_idle c.point && ltb 0 c.issue_tasks
may_run c (read_call success bytes) = is_idle c.point && c.read_in_flight
may_run c (write_call success n) =
    is_idle c.point && (is_writing c.writing && leb n (length (slice_of c.writing)))
may_run c call = true

unfoldable pub run : World → Call → World
unfolding start_reading send close begin_read on_data_received issue_next_write io_step
    on_write_complete
run w start_reading_call = record w { channel = start_reading w.channel }
run w (send_call payload) = record w {
  channel = send payload w.channel;
  queued =
      if w.channel.error_signaled || w.channel.closing
      then w.queued
      else w.queued ++ (frame payload ∷ []);
}
run w close_call = record w { channel = close w.channel }
run w begin_call = record w {
  channel = begin_read idle (record (w.channel) { begin_tasks = w.channel.begin_tasks - 1 });
}
run w (read_call success bytes) = record w { channel = on_data_received success bytes w.channel }
run w issue_call = record w {
  channel = issue_next_write (record (w.channel) { issue_tasks = w.channel.issue_tasks - 1 });
}
run w (write_call success n) = record w {
  channel = on_write_complete success n w.channel;
  written = w.written ++ take n (slice_of w.channel.writing);
}
run w continue_call = record w { channel = io_step w.channel }

-- A call that may not run is no step.
unfoldable pub step : World → Call → World
unfolding may_run run
step w call = if may_run w.channel call then run w call else w

-- The calls that follow in a world; the last one stands first.
abbrev pub after : World → List Call → World
after w [] = w
after w (call ∷ calls) = step (after w calls) call

abbrev pub history : List Call → World
history calls = after start calls

-- What holds in a world and is kept by every call that may run holds after any calls.
pub after-invariant {ℓ} :
    (P : World → Type ℓ)
    → ((w : World) (call : Call) → may_run w.channel call ≡ true → P w → P (run w call))
    → (w : World) → P w
    → (calls : List Call) → P (after w calls)
unfolding step
after-invariant P keep w h [] = h
after-invariant P keep w h (call ∷ calls) =
    by_guard (may_run (after w calls).channel call) refl (after-invariant P keep w h calls)
  where
    u : World
    u = after w calls

    by_guard : (b : Bool) → may_run u.channel call ≡ b → P u → P (if b then run u call else u)
    by_guard true e ok = keep u call e ok
    by_guard false e ok = ok
