-- ===== src/Ipc/MessageChannel.antt =====
-- MessageChannel::Impl (src/neixx/ipc/message_channel.cpp). What a call does under the lock is one
-- step, with what it then posts or starts outside the lock; where a function of the I/O thread takes
-- the lock again, it goes on in a step of its own, and calls from other threads may come between.
pub mod Histories
pub mod Errors
pub mod Writes
pub mod WriteSteps
pub mod Completions
pub mod WriteTasks
pub mod Carries
pub mod Drained
pub mod Silence
use libnei.Common.{
  ℕ, zero, suc, ◌+◌, ◌-◌, Bool, true, false, not, ◌&&◌, ◌||◌, List, [], ◌∷◌, ◌++◌, map, Option,
  none, some, ltb, leb, ◌==◌, if◌then◌else◌, length, drop, take,
}
use libnei.Ipc.Framing.{frame, Reader, new_reader, Parsed, ingest}

-- What is posted to the client's runner: a message for the callback, or the error callback.
pub data Event : Type 0 where
  message : List ℕ → Event
  error : Event

-- Where the I/O thread is, between two steps of one of its tasks.
--   delivering: OnDataReceived, at its second phase, with the messages and should_signal_error.
--   failing: at the block that takes on_error_ and posts it, then returns.
--   checking: at the third phase. beginning: at BeginRead. finishing: at the last block.
--   issuing: at IssueNextWrite.
pub data IoPoint : Type 0 where
  idle failing checking beginning finishing issuing : IoPoint
  delivering : List (List ℕ) → Bool → IoPoint

pub record Channel : Type 0 where
  pub on_message : Bool
  pub on_error : Bool
  pub pending_writes : List (List ℕ)
  pub write_in_flight : Bool
  pub started : Bool
  pub closing : Bool
  pub error_signaled : Bool
  pub reader : Reader
  pub read_in_flight : Bool
  pub current_write_buf : Option (List ℕ)
  pub current_write_offset : ℕ
  pub current_write_len : ℕ
  -- What is posted to the runners and not run yet, and the clients' events, oldest first.
  pub begin_tasks : ℕ
  pub issue_tasks : ℕ
  pub events : List Event
  -- The call of WriteAsync that has not completed, and where the I/O thread is.
  pub writing : Option (List ℕ)
  pub point : IoPoint

abbrev pub new_channel : Channel
new_channel = record {
  on_message = false;
  on_error = false;
  pending_writes = [];
  write_in_flight = false;
  started = false;
  closing = false;
  error_signaled = false;
  reader = new_reader;
  read_in_flight = false;
  current_write_buf = none;
  current_write_offset = 0;
  current_write_len = 0;
  begin_tasks = 0;
  issue_tasks = 0;
  events = [];
  writing = none;
  point = idle;
}

pub start_reading : Channel → Channel
start_reading c = if c.started || c.error_signaled then c else record c {
  started = true;
  on_message = true;
  on_error = true;
  begin_tasks = suc c.begin_tasks;
}

pub send : List ℕ → Channel → Channel
send payload c =
    if c.error_signaled || c.closing
    then c
    else if c.write_in_flight
    then record c { pending_writes = c.pending_writes ++ (frame payload ∷ []) }
    else record c {
      pending_writes = c.pending_writes ++ (frame payload ∷ []);
      write_in_flight = true;
      issue_tasks = suc c.issue_tasks;
    }

-- `std::move(on_error_)` and PostErrorToClient.
pub post_error : Channel → Channel
post_error c =
    if c.on_error then record c { on_error = false; events = c.events ++ (error ∷ []) } else c

pub signal_error_locked : Channel → Channel
signal_error_locked c =
    if c.error_signaled then c else record c { error_signaled = true; on_message = false }

abbrev pub is_empty : List (List ℕ) → Bool
is_empty [] = true
is_empty (x ∷ xs) = false

pub close : Channel → Channel
unfolding post_error
close c =
    if c.error_signaled
    then c
    else if not c.write_in_flight && is_empty c.pending_writes
    then post_error (record c { closing = true; error_signaled = true; on_message = false })
    else record c { closing = true }

-- Called from a task, or at the end of OnDataReceived: `next` is where the thread goes on.
pub begin_read : IoPoint → Channel → Channel
begin_read next c =
    if c.error_signaled || c.closing || c.read_in_flight
    then record c { point = next }
    else record c { read_in_flight = true; point = next }

-- The first phase of OnDataReceived. `bytes` is what was read, none of it at the end of the stream.
abbrev pub received : Parsed → Channel → Channel
received p c =
    if p.should_signal_error
    then record c {
      reader = p.reader;
      error_signaled = true;
      on_message = false;
      point = delivering p.messages true;
    }
    else record c { reader = p.reader; point = delivering p.messages false }

abbrev pub no_bytes : List ℕ → Bool
no_bytes [] = true
no_bytes (b ∷ bs) = false

pub on_data_received : Bool → List ℕ → Channel → Channel
unfolding signal_error_locked ingest
on_data_received success bytes c =
    let q = record c { read_in_flight = false } in
    if c.error_signaled
    then record q { point = idle }
    else if not success || no_bytes bytes
    then record (signal_error_locked q) { point = delivering [] true }
    else received (ingest c.reader bytes) q

-- The second phase.
abbrev pub after_delivery : Bool → Channel → Channel
after_delivery should_signal_error c = record c {
  point = if should_signal_error then failing else checking;
}

pub deliver : List (List ℕ) → Bool → Channel → Channel
deliver messages should_signal_error c =
    if is_empty messages
    then after_delivery should_signal_error c
    else if c.error_signaled
    then record c { point = idle }
    else if c.on_message
    then after_delivery should_signal_error (record c { events = c.events ++ map message messages })
    else after_delivery should_signal_error c

-- The third phase: the decision, under the lock.
pub check_read : Channel → Channel
unfolding signal_error_locked
check_read c =
    if not c.error_signaled && not c.closing
    then record c { point = beginning }
    else if c.closing && not c.error_signaled
    then record (signal_error_locked c) { point = finishing }
    else record c { point = finishing }

-- The last block of OnDataReceived.
pub finish_read : Channel → Channel
unfolding post_error
finish_read c = let q = record c { point = idle } in if c.error_signaled then post_error q else q

-- IssueNextWrite: under the lock, and the call of WriteAsync after it.
pub issue_next_write : Channel → Channel
unfolding signal_error_locked
issue_next_write c =
    if c.error_signaled then record c { point = idle } else elim c.current_write_buf [
      | some b ↦ record c { writing = some (drop c.current_write_offset b); point = idle }
      | none ↦ elim c.pending_writes [
        | [] ↦
            let q = record c { write_in_flight = false } in
            if c.closing
            then record (signal_error_locked q) { point = failing }
            else record q { point = idle }
        | front ∷ rest ↦ record c {
          current_write_buf = some front;
          current_write_len = length front;
          current_write_offset = 0;
          writing = some front;
          point = idle;
        }
      ]
    ]

-- The current buffer is done with.
abbrev pub pop_write : Channel → Channel
pop_write c = record c {
  pending_writes = drop 1 c.pending_writes;
  current_write_buf = none;
  current_write_offset = 0;
  current_write_len = 0;
}

-- The branch of OnWriteComplete that follows a whole buffer.
abbrev pub buffer_written : Channel → Channel
buffer_written c =
    if is_empty c.pending_writes && c.closing
    then record (signal_error_locked c) { point = failing }
    else if not (is_empty c.pending_writes)
    then record c { point = issuing }
    else record c { write_in_flight = false; point = idle }

abbrev has_buffer : Option (List ℕ) → Bool
has_buffer none = false
has_buffer (some b) = true

-- The branches of OnWriteComplete for a failure and for bytes that were written.
abbrev pub write_failed : Channel → Channel
write_failed c =
    record (signal_error_locked (if has_buffer c.current_write_buf then pop_write c else c)) {
      point = failing;
    }

abbrev pub write_advanced : ℕ → Channel → Channel
write_advanced bytes_written c =
    let offset = c.current_write_offset + bytes_written in
    if leb c.current_write_len offset
    then buffer_written (pop_write c)
    else record c { current_write_offset = offset; point = issuing }

pub on_write_complete : Bool → ℕ → Channel → Channel
unfolding signal_error_locked
on_write_complete success bytes_written c =
    let q = record c { writing = none } in
    if c.error_signaled
    then record q { point = idle }
    else if not success || bytes_written == 0
    then write_failed q
    else write_advanced bytes_written q
