-- ===== src/Ipc/Framing.antt =====
-- The frames of a MessageChannel, and the loop that takes them out of what was read
-- (src/neixx/ipc/message_channel.cpp). A buffer is the list of its bytes.
pub mod Words
pub mod Delivery
pub mod Loop
pub mod Chunks
use libnei.Common.{
  ℕ, zero, suc, ◌+◌, ◌-◌, ◌*◌, ◌/◌, ◌%◌, ◌^◌, bit_or, Bool, true, false, not, ◌||◌, List, [], ◌∷◌,
  ◌++◌, ltb, leb, ◌==◌, if◌then◌else◌, length, get_or, take, drop,
}

abbrev pub header_size : ℕ
header_size = 8

-- "NEIX"
abbrev pub magic_word : ℕ
magic_word = 0x4e45_4958

-- 128 MiB
abbrev pub max_message_size : ℕ
max_message_size = 128 * 1024 * 1024

-- 64 KiB
abbrev pub receive_buffer_compact_threshold : ℕ
receive_buffer_compact_threshold = 65536

-- `WriteUint32LE` and `ReadUint32LE`
abbrev pub write_uint32_le : ℕ → List ℕ
write_uint32_le value =
    value % 256 ∷ value / 2 ^ 8 % 256 ∷ value / 2 ^ 16 % 256 ∷ value / 2 ^ 24 % 256 ∷ []

pub read_uint32_le : List ℕ → ℕ
read_uint32_le src =
    bit_or (bit_or (bit_or (get_or src 0 0) (get_or src 1 0 * 2 ^ 8)) (get_or src 2 0 * 2 ^ 16))
      (get_or src 3 0 * 2 ^ 24)

-- What Send puts on the wire for a payload; its length is cast to `uint32_t`.
abbrev pub frame : List ℕ → List ℕ
frame payload = write_uint32_le (length payload % 2 ^ 32) ++ (write_uint32_le magic_word ++ payload)

pub data ReadState : Type 0 where
  reading_header reading_payload : ReadState

-- The fields of the channel that only the read path uses.
pub record Reader : Type 0 where
  pub receive_buffer : List ℕ
  pub consume_offset : ℕ
  pub read_state : ReadState
  pub current_message_size : ℕ

abbrev pub new_reader : Reader
new_reader = record {
  receive_buffer = [];
  consume_offset = 0;
  read_state = reading_header;
  current_message_size = 0;
}

-- `receive_buffer_.data() + consume_offset_`
abbrev pub unread : Reader → List ℕ
unread r = drop r.consume_offset r.receive_buffer

abbrev pub available : Reader → ℕ
available r = length r.receive_buffer - r.consume_offset

-- How a round of the loop of TryParseFrames ends: by `break`, by an error, or with a message.
pub data Round : Type 0 where
  stopped : Reader → Round
  corrupt : Reader → Round
  got : List ℕ → Reader → Round

pub payload_part : Reader → Round
payload_part r =
    if ltb (available r) r.current_message_size
    then stopped r
    else got (take r.current_message_size (unread r)) (record r {
      consume_offset = r.consume_offset + r.current_message_size;
      current_message_size = 0;
      read_state = reading_header;
    })

abbrev pub after_header : Reader → ℕ → Reader
after_header r payload_len = record r {
  current_message_size = payload_len;
  consume_offset = r.consume_offset + header_size;
  read_state = reading_payload;
}

pub header_part : Reader → Round
unfolding read_uint32_le payload_part
header_part r =
    let payload_len = read_uint32_le (unread r) in
    if ltb (available r) header_size
    then stopped r
    else if ltb max_message_size payload_len
        || not (read_uint32_le (drop 4 (unread r)) == magic_word)
    then corrupt r
    else payload_part (after_header r payload_len)

pub read_round : Reader → Round
unfolding header_part
read_round r = elim r.read_state [
  | reading_header ↦ header_part r
  | reading_payload ↦ payload_part r
]

-- What TryParseFrames returns, with what it sets.
pub record Parsed : Type 0 where
  pub messages : List (List ℕ)
  pub reader : Reader
  pub should_signal_error : Bool

abbrev pub with_message : List ℕ → Parsed → Parsed
with_message m p = record p { messages = m ∷ p.messages }

-- The loop, on fuel.
pub read_loop : ℕ → Reader → Parsed
unfolding read_round
read_loop zero r = record { messages = []; reader = r; should_signal_error = false }
read_loop (suc fuel) r = elim (read_round r) [
  | stopped q ↦ record { messages = []; reader = q; should_signal_error = false }
  | corrupt q ↦ record { messages = []; reader = q; should_signal_error = true }
  | got m q ↦ with_message m (read_loop fuel q)
]

-- A round takes a header at least, but for the first one, which may finish a message.
pub try_parse_frames : Reader → Parsed
unfolding read_loop
try_parse_frames r = read_loop (available r + 2) r

pub compact_receive_buffer : Reader → Reader
compact_receive_buffer r =
    if r.consume_offset == 0
    then r
    else if leb (length r.receive_buffer) r.consume_offset
    then record r { receive_buffer = []; consume_offset = 0 }
    else if leb receive_buffer_compact_threshold r.consume_offset
    then record r { receive_buffer = unread r; consume_offset = 0 }
    else r

-- The part of OnDataReceived that reads: a chunk is appended, parsed, and the buffer compacted.
unfoldable pub ingest : Reader → List ℕ → Parsed
unfolding try_parse_frames compact_receive_buffer
ingest r bytes =
    let parsed = try_parse_frames (record r { receive_buffer = r.receive_buffer ++ bytes }) in
    if parsed.should_signal_error
    then parsed
    else record parsed { reader = compact_receive_buffer parsed.reader }
