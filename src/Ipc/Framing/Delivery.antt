-- ===== src/Ipc/Framing/Delivery.antt =====
-- The messages that come out of what was read, however the stream cuts the bytes.
use mathlib.Core.Path.{subst}
use libnei.Common.{
  ℕ, ◌+◌, ◌%◌, ◌^◌, ◌≤◌, ◌<◌, ◌≡◌, refl, ap, sym, ◌∙◌, Bool, true, false, not, ◌||◌, List, [], ◌∷◌,
  ◌++◌, arith, ltb, ltb→lt, ◌==◌, if◌then◌else◌, length, length-append, length-drop, take, drop,
  All, drop-append_left, take-append_left, take-append_exact, drop-append_exact, drop-drop,
}
use libnei.Ipc.Framing.{
  header_size, magic_word, max_message_size, write_uint32_le, read_uint32_le, frame, ReadState,
  reading_header, reading_payload, Reader, unread, available, Round, stopped, corrupt, got,
  payload_part, after_header, header_part,
}
use libnei.Ipc.Framing.Words.{read-write_uint32_le, read_uint32_le-append}

-- What a peer puts on the wire for its messages, none of which is too long.
abbrev pub wire : List (List ℕ) → List ℕ
wire [] = []
wire (m ∷ ms) = frame m ++ wire ms

abbrev pub Sendable : List ℕ → Type 0
Sendable m = length m ≤ max_message_size

abbrev pub InBounds : Reader → Type 0
InBounds r = r.consume_offset ≤ length r.receive_buffer

-- The messages that are still to come, from what is not read yet and what the stream will give.
abbrev pub HeaderNext : List ℕ → List (List ℕ) → Type 0
HeaderNext bytes ms = bytes ≡ wire ms

abbrev pub PayloadNext : ℕ → List ℕ → List (List ℕ) → Type 0
PayloadNext size bytes ms =
    (m : List ℕ) × (rest : List (List ℕ)) × (ms ≡ m ∷ rest)
    × (length m ≡ size)
    × (bytes ≡ m ++ wire rest)

abbrev pub Expects : ReadState → ℕ → List ℕ → List (List ℕ) → Type 0
Expects reading_header size bytes ms = HeaderNext bytes ms
Expects reading_payload size bytes ms = PayloadNext size bytes ms

-- No further round can do more.
abbrev pub Waits : ReadState → ℕ → ℕ → Type 0
Waits reading_header size n = n < header_size
Waits reading_payload size n = n < size

abbrev pub IsReader : Reader → List ℕ → List (List ℕ) → Type 0
IsReader r future ms =
    InBounds r × Expects r.read_state r.current_message_size (unread r ++ future) ms

abbrev pub Ends : List ℕ → List (List ℕ) → Round → Type 0
Ends future ms (stopped q) =
    IsReader q future ms × Waits q.read_state q.current_message_size (available q)
Ends future ms (corrupt q) = true ≡ false
Ends future ms (got m q) =
    (rest : List (List ℕ)) × (ms ≡ m ∷ rest)
    × (q.read_state ≡ reading_header)
    × InBounds q
    × (unread q ++ future ≡ wire rest)

pub length-unread : (r : Reader) → length (unread r) ≡ available r
length-unread r = length-drop r.consume_offset r.receive_buffer

-- A part of what is not read yet, where it is long enough to hold it.
module _ (r : Reader) (future : List ℕ) (n : ℕ) (enough : n ≤ available r) where
  here : n ≤ length (unread r)
  here = omega (arith, length-unread r)

  part_read :
      (m rest : List ℕ) → length m ≡ n → unread r ++ future ≡ m ++ rest → take n (unread r) ≡ m
  part_read m rest size bytes =
      sym (take-append_left n (unread r) future here)
      ∙ ap (take n) bytes
      ∙ take-append_exact m rest n (sym size)

  rest_unread :
      (m rest : List ℕ)
      → length m ≡ n
      → unread r ++ future ≡ m ++ rest
      → drop (r.consume_offset + n) r.receive_buffer ++ future ≡ rest
  rest_unread m rest size bytes =
      ap (λ l. l ++ future) (sym (drop-drop r.consume_offset n r.receive_buffer))
      ∙ sym (drop-append_left n (unread r) future here)
      ∙ ap (drop n) bytes
      ∙ drop-append_exact m rest n (sym size)

pub payload_part-Ends :
    (r : Reader) (future : List ℕ) (ms : List (List ℕ))
    → r.read_state ≡ reading_payload
    → InBounds r
    → PayloadNext r.current_message_size (unread r ++ future) ms
    → Ends future ms (payload_part r)
unfolding payload_part
payload_part-Ends r future ms state bound next =
    by_test (ltb (available r) r.current_message_size) refl next
  where
    n : ℕ
    n = r.current_message_size

    by_test :
        (b : Bool)
        → ltb (available r) n ≡ b
        → PayloadNext n (unread r ++ future) ms
        → Ends future ms (
            if b
            then stopped r
            else got (take n (unread r)) (record r {
              consume_offset = r.consume_offset + n;
              current_message_size = 0;
              read_state = reading_header;
            }))
    by_test true t p =
        let short : available r < n = ltb→lt (available r) n t in
        subst (λ s. (InBounds r × Expects s n (unread r ++ future) ms) × Waits s n (available r))
          (sym state) ((bound, p), short)
    by_test false t (m, rest, e, size, bytes) =
        let enough : n ≤ available r = ground arith in
        (
          rest,
          e ∙ ap (λ x. x ∷ rest) (sym (part_read r future n enough m (wire rest) size bytes)),
          refl,
          omega (arith, enough, bound),
          rest_unread r future n enough m (wire rest) size bytes,
        )

-- The header of the next message, where its eight bytes are there.
module _ (r : Reader) (future m rest : List ℕ) (short : Sendable m) (enough : 8 ≤ available r)
    (bytes : unread r ++ future ≡ frame m ++ rest) where
  abbrev header : List ℕ
  header = write_uint32_le (length m % 2 ^ 32) ++ write_uint32_le magic_word

  length_read : read_uint32_le (unread r) ≡ length m
  length_read =
      let there : 4 ≤ length (unread r) = omega (arith, enough, length-unread r) in
      sym (read_uint32_le-append (unread r) future there)
      ∙ ap read_uint32_le bytes
      ∙ read-write_uint32_le (length m % 2 ^ 32) ((write_uint32_le magic_word ++ m) ++ rest)
          (omega arith)
      ∙ omega (arith, short)

  magic_read : read_uint32_le (drop 4 (unread r)) ≡ magic_word
  magic_read =
      let there : 4 ≤ length (drop 4 (unread r)) =
        omega (arith, enough, length-unread r, length-drop 4 (unread r)) in
      let four : 4 ≤ length (unread r) = omega (arith, enough, length-unread r) in
      sym (read_uint32_le-append (drop 4 (unread r)) future there)
      ∙ ap read_uint32_le (sym (drop-append_left 4 (unread r) future four))
      ∙ ap (λ l. read_uint32_le (drop 4 l)) bytes
      ∙ read-write_uint32_le magic_word (m ++ rest) (omega arith)

  accepted :
      (ltb max_message_size (read_uint32_le (unread r))
        || not (read_uint32_le (drop 4 (unread r)) == magic_word))
      ≡ false
  accepted = ground (arith, length_read, magic_read, short)

  payload_unread : unread (after_header r (read_uint32_le (unread r))) ++ future ≡ m ++ rest
  payload_unread = rest_unread r future 8 enough header (m ++ rest) refl bytes

pub header_part-Ends :
    (r : Reader) (future : List ℕ) (ms : List (List ℕ))
    → r.read_state ≡ reading_header
    → InBounds r
    → All Sendable ms
    → HeaderNext (unread r ++ future) ms
    → Ends future ms (header_part r)
unfolding header_part
header_part-Ends r future ms state bound short next = by_test (ltb (available r) header_size) refl
  where
    refused : Bool
    refused =
        ltb max_message_size (read_uint32_le (unread r))
        || not (read_uint32_le (drop 4 (unread r)) == magic_word)

    go_on : Reader
    go_on = after_header r (read_uint32_le (unread r))

    there :
        8 ≤ available r
        → (ms : List (List ℕ)) → All Sendable ms
        → HeaderNext (unread r ++ future) ms
        → Ends future ms (if refused then corrupt r else payload_part go_on)
    there enough [] short next =
        absurd (omega (arith, ap length next, length-append (unread r) future, length-unread r))
    there enough (m ∷ rest) short next =
        let ok : refused ≡ false = accepted r future m (wire rest) short.0 enough next in
        let size : length m ≡ read_uint32_le (unread r) =
          sym (length_read r future m (wire rest) short.0 enough next) in
        let left = payload_unread r future m (wire rest) short.0 enough next in
        rw ok (
          payload_part-Ends go_on future (m ∷ rest) refl (omega (arith, bound, enough))
            (m, rest, refl, size, left))

    by_test :
        (b : Bool)
        → ltb (available r) header_size ≡ b
        → Ends future ms
            (if b then stopped r else if refused then corrupt r else payload_part go_on)
    by_test true t =
        let few : available r < header_size = ltb→lt (available r) header_size t in
        subst
          (λ s.
            (InBounds r × Expects s r.current_message_size (unread r ++ future) ms)
            × Waits s r.current_message_size (available r))
          (sym state) ((bound, next), few)
    by_test false t = there (ground arith) ms short next
