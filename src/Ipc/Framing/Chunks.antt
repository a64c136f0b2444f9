-- ===== src/Ipc/Framing/Chunks.antt =====
-- A chunk, and all the chunks of a stream.
use mathlib.Core.List.{append_assoc, append-nil}
use mathlib.Core.Path.{subst}
use libnei.Common.{
  ℕ, ◌+◌, ◌≤◌, ◌<◌, ◌≡◌, refl, ap, sym, ◌∙◌, Bool, true, false, List, [], ◌∷◌, ◌++◌, arith, leb,
  ◌==◌, if◌then◌else◌, length, length-append, drop, All, drop_all, drop-append_left,
  All-append_right,
}
use libnei.Ipc.Framing.{
  ReadState, reading_header, reading_payload, Reader, new_reader, unread, available, Parsed,
  try_parse_frames, receive_buffer_compact_threshold, compact_receive_buffer, ingest,
}
use libnei.Ipc.Framing.Loop.{Taken, rounds, read_loop-Taken}
use libnei.Ipc.Framing.Delivery.{wire, Sendable, InBounds, Expects, Waits, IsReader, length-unread}

-- Compaction keeps what is not read yet.
abbrev Compacted : Reader → Reader → Type 0
Compacted r q =
    InBounds q
    × (unread q ≡ unread r)
    × (available q ≡ available r)
    × (q.read_state ≡ r.read_state)
    × (q.current_message_size ≡ r.current_message_size)

compact-Compacted : (r : Reader) → InBounds r → Compacted r (compact_receive_buffer r)
unfolding compact_receive_buffer
compact-Compacted r bound =
    by_tests (r.consume_offset == 0) (leb (length r.receive_buffer) r.consume_offset)
      (leb receive_buffer_compact_threshold r.consume_offset) (λ e. ground arith)
  where
    by_tests :
        (start all_read far : Bool)
        → (all_read ≡ true → length r.receive_buffer ≤ r.consume_offset)
        → Compacted r (
            if start
            then r
            else if all_read
            then record r { receive_buffer = []; consume_offset = 0 }
            else if far
            then record r { receive_buffer = unread r; consume_offset = 0 }
            else r)
    by_tests true all_read far h = (bound, refl, refl, refl, refl)
    by_tests false true far h = (
      omega arith,
      sym (drop_all r.consume_offset r.receive_buffer (h refl)),
      omega (arith, h refl),
      refl,
      refl,
    )
    by_tests false false true h = (omega arith, refl, omega (arith, length-unread r), refl, refl)
    by_tests false false false h = (bound, refl, refl, refl, refl)

compacted-Taken :
    (future : List ℕ) (ms : List (List ℕ)) (p : Parsed)
    → Taken future ms p
    → Taken future ms
        (if p.should_signal_error then p else record p { reader = compact_receive_buffer p.reader })
compacted-Taken future ms p (left, split, fine, (bound, next), waits) =
    let (kept, same_bytes, same_available, same_state, same_size) =
      compact-Compacted p.reader bound in
    rw fine (
      left,
      split,
      refl,
      (kept, rw (same_state, same_size, same_bytes) next),
      rw (same_state, same_size, same_available) waits,
    )

appended-IsReader :
    (r : Reader) (bytes future : List ℕ) (ms : List (List ℕ))
    → IsReader r (bytes ++ future) ms
    → IsReader (record r { receive_buffer = r.receive_buffer ++ bytes }) future ms
appended-IsReader r bytes future ms (bound, next) =
    let more : drop r.consume_offset (r.receive_buffer ++ bytes) ≡ unread r ++ bytes =
      drop-append_left r.consume_offset r.receive_buffer bytes bound in
    (
      omega (arith, bound, length-append r.receive_buffer bytes),
      subst (λ l. Expects r.read_state r.current_message_size l ms)
          (sym (ap (λ l. l ++ future) more ∙ append_assoc (unread r) bytes future)) next,
    )

rounds-lt : (r : Reader) → rounds r < available r + 2
rounds-lt r = by_state r.read_state
  where
    by_state :
        (s : ReadState)
        → available r + (elim s [ reading_header ↦ 0 | reading_payload ↦ 1 ]) < available r + 2
    by_state reading_header = omega arith
    by_state reading_payload = omega arith

-- One chunk.
pub ingest-Taken :
    (r : Reader) (bytes future : List ℕ) (ms : List (List ℕ))
    → All Sendable ms
    → IsReader r (bytes ++ future) ms
    → Taken future ms (ingest r bytes)
unfolding ingest try_parse_frames
ingest-Taken r bytes future ms short ok =
    let longer : Reader = record r { receive_buffer = r.receive_buffer ++ bytes } in
    compacted-Taken future ms (try_parse_frames longer) (
      read_loop-Taken (available longer + 2) longer future ms (rounds-lt longer) short
        (appended-IsReader r bytes future ms ok))

-- The chunks of a stream, up to the first error.
unfoldable pub read_chunks : Reader → List (List ℕ) → Parsed
unfolding ingest
read_chunks r [] = record { messages = []; reader = r; should_signal_error = false }
read_chunks r (c ∷ chunks) =
    let p = ingest r c in
    let later = read_chunks p.reader chunks in
    if p.should_signal_error then p else record later { messages = p.messages ++ later.messages }

abbrev pub joined_chunks : List (List ℕ) → List ℕ
joined_chunks [] = []
joined_chunks (c ∷ chunks) = c ++ joined_chunks chunks

read_chunks-Taken :
    (r : Reader) (chunks : List (List ℕ)) (future : List ℕ) (ms : List (List ℕ))
    → All Sendable ms
    → IsReader r (joined_chunks chunks ++ future) ms
    → Waits r.read_state r.current_message_size (available r)
    → Taken future ms (read_chunks r chunks)
unfolding read_chunks
read_chunks-Taken r [] future ms short ok waits = (ms, refl, refl, ok, waits)
read_chunks-Taken r (c ∷ chunks) future ms short (bound, next) waits =
    let assoc : (c ++ joined_chunks chunks) ++ future ≡ c ++ (joined_chunks chunks ++ future) =
      append_assoc c (joined_chunks chunks) future in
    let now : IsReader r (c ++ (joined_chunks chunks ++ future)) ms = (
      bound,
      subst (λ l. Expects r.read_state r.current_message_size (unread r ++ l) ms) assoc next,
    ) in
    let p = ingest r c in
    let (left, split, fine, after, waits') =
      ingest-Taken r c (joined_chunks chunks ++ future) ms short now in
    let few : All Sendable left =
      All-append_right Sendable p.messages left (subst (All Sendable) split short) in
    let (more, split', fine', after', waits'') =
      read_chunks-Taken p.reader chunks future left few after waits' in
    rw fine (
      more,
      split
          ∙ ap (λ l. p.messages ++ l) split'
          ∙ sym (append_assoc p.messages (read_chunks p.reader chunks).messages more),
      fine',
      after',
      waits'',
    )

-- With nothing more to come, no message is left.
none_left :
    (r : Reader) (ms : List (List ℕ))
    → IsReader r [] ms
    → Waits r.read_state r.current_message_size (available r)
    → ms ≡ []
none_left r ms (bound, next) waits = by_state r.read_state ms next waits
  where
    by_state :
        (s : ReadState) (ms : List (List ℕ))
        → Expects s r.current_message_size (unread r ++ []) ms
        → Waits s r.current_message_size (available r)
        → ms ≡ []
    by_state reading_header [] next waits = refl
    by_state reading_header (m ∷ ms) next waits =
        absurd (omega (arith, waits, ap length next, length-append (unread r) [], length-unread r))
    by_state reading_payload ms (m, rest, e, size, bytes) waits = absurd (
        omega (
          arith,
          waits,
          size,
          ap length bytes,
          length-append (unread r) [],
          length-append m (wire rest),
          length-unread r,
        ))

-- Messages of at most 128 MiB each, framed one after another and read in chunks of any sizes, come
-- out as they went in, in order, with no error. Of a stream that is cut anywhere, what comes out is
-- the messages at its start.
pub read_chunks-wire :
    (ms chunks : List (List ℕ)) (future : List ℕ)
    → All Sendable ms
    → joined_chunks chunks ++ future ≡ wire ms
    → (left : List (List ℕ)) × (ms ≡ (read_chunks new_reader chunks).messages ++ left)
      × ((read_chunks new_reader chunks).should_signal_error ≡ false)
read_chunks-wire ms chunks future short e =
    let (left, split, fine, _, _) =
      read_chunks-Taken new_reader chunks future ms short (omega arith, e) (omega arith) in
    (left, split, fine)

pub read_chunks_complete :
    (ms chunks : List (List ℕ))
    → All Sendable ms
    → joined_chunks chunks ≡ wire ms
    → ((read_chunks new_reader chunks).messages ≡ ms)
      × ((read_chunks new_reader chunks).should_signal_error ≡ false)
read_chunks_complete ms chunks short e =
    let whole : joined_chunks chunks ++ [] ≡ wire ms = append-nil (joined_chunks chunks) ∙ e in
    let (left, split, fine, after, waits) =
      read_chunks-Taken new_reader chunks [] ms short (omega arith, whole) (omega arith) in
    let p = read_chunks new_reader chunks in
    let none_more : left ≡ [] = none_left p.reader left after waits in
    (sym (split ∙ ap (λ l. p.messages ++ l) none_more ∙ append-nil p.messages), fine)
