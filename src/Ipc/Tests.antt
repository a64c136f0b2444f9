-- ===== src/Ipc/Tests.antt =====
-- Runs of a MessageChannel on concrete inputs, and the theorems at concrete inputs.
use libnei.Common.{ℕ, ◌≤◌, ◌≡◌, refl, true, false, List, [], ◌∷◌, ◌++◌, arith, take, drop}
use libnei.Ipc.Framing.{frame, new_reader, ingest}
use libnei.Ipc.Framing.Delivery.{wire}
use libnei.Ipc.Framing.Chunks.{read_chunks, joined_chunks, read_chunks_complete}
use libnei.Ipc.MessageChannel.{error}
use libnei.Ipc.MessageChannel.Histories.{
  Call, start_reading_call, close_call, begin_call, issue_call, continue_call, send_call, read_call,
  write_call, World, step, after, history,
}
use libnei.Ipc.MessageChannel.Errors.{errors, error_at_most_once}
use libnei.Ipc.MessageChannel.Silence.{corrupt_read_unreported}
use libnei.Ipc.MessageChannel.Drained.{written-Prefix, idle_drained}

-- Two messages, one of them empty, read in chunks of 5 and 2 bytes and the rest.
abbrev two_messages : List (List ℕ)
two_messages = (1 ∷ 2 ∷ 3 ∷ []) ∷ [] ∷ []

abbrev cut : List (List ℕ)
cut =
    take 5 (wire two_messages)
    ∷ take 2 (drop 5 (wire two_messages))
    ∷ drop 7 (wire two_messages)
    ∷ []

read_chunks_complete_example :
    ((read_chunks new_reader cut).messages ≡ two_messages)
    × ((read_chunks new_reader cut).should_signal_error ≡ false)
read_chunks_complete_example =
    read_chunks_complete two_messages cut (omega arith, (omega arith, tt)) refl

-- A message is sent and written in two parts.
abbrev sent : List Call
sent = write_call true 3 ∷ continue_call ∷ write_call true 6 ∷ issue_call ∷ send_call (7 ∷ []) ∷ []

sent_run : (history sent).written ≡ frame (7 ∷ [])
unfolding step
sent_run = refl

idle_drained_example : (history sent).written ≡ joined_chunks (history sent).queued
unfolding step
idle_drained_example = idle_drained sent refl refl refl refl

written-Prefix_example :
    (tail : List ℕ) × ((history sent).written ++ tail ≡ joined_chunks (history sent).queued)
written-Prefix_example = written-Prefix sent

-- The peer closes, and so does the caller.
abbrev closed_twice : List Call
closed_twice =
    close_call
    ∷ continue_call
    ∷ continue_call
    ∷ read_call true []
    ∷ begin_call
    ∷ start_reading_call
    ∷ []

closed_twice_run : (history closed_twice).channel.events ≡ error ∷ []
unfolding step
closed_twice_run = refl

error_at_most_once_example : errors (history closed_twice).channel ≤ 1
error_at_most_once_example = error_at_most_once closed_twice

-- A channel that reads, and a chunk with a message and eight bytes that are no header.
abbrev reading : World
reading = history (begin_call ∷ start_reading_call ∷ [])

abbrev corrupt_chunk : List ℕ
corrupt_chunk = frame (7 ∷ []) ++ (0 ∷ 0 ∷ 0 ∷ 0 ∷ 0 ∷ 0 ∷ 0 ∷ 0 ∷ [])

corrupt_read_unreported_example :
    let q = after (step reading (read_call true corrupt_chunk)) (close_call ∷ continue_call ∷ []) in
    (q.channel.events ≡ []) × (q.channel.on_error ≡ true)
unfolding step ingest
corrupt_read_unreported_example =
    corrupt_read_unreported reading 1 (drop 1 corrupt_chunk) (7 ∷ []) []
      (close_call ∷ continue_call ∷ []) refl refl refl refl refl
