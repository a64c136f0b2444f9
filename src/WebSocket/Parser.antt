-- ===== src/WebSocket/Parser.antt =====
-- `WebSocketFrameParser` (src/neixx/net/websocket/websocket_frame.cpp, and its class in
-- websocket_frame_internal.h): the state machine, one step for each `case`, and the loop of `Parse`.
pub mod Progress
pub mod Rounds
pub mod Chunks
pub mod Consumed
pub mod Calls
use libnei.Common.{
  ℕ, zero, suc, ◌+◌, ◌-◌, ◌*◌, min, bit_and, Bool, true, false, not, ◌&&◌, List, [], ◌∷◌, ◌++◌,
  Option, none, some, ltb, ◌==◌, if◌then◌else◌, length, take, drop, replicate, get_or,
}
use mathlib.Core.Option
use libnei.WebSocket.Frame.{WebSocketFrame, empty_frame, apply_mask}

pub data State : Type 0 where
  header extended_len16 extended_len64 mask body complete error : State

pub record WebSocketFrameParser : Type 0 where
  pub state : State
  pub frame : WebSocketFrame
  pub payload_read : ℕ

-- `Reset`, which is also the state of a new parser.
abbrev pub reset : WebSocketFrameParser
reset = record { state = header; frame = empty_frame; payload_read = 0 }

abbrev pub is_frame_complete : WebSocketFrameParser → Bool
is_frame_complete p = elim p.state [ complete ↦ true | _ ↦ false ]

-- `std::vector::resize`: cut, or filled up with zeros.
abbrev pub resize : ℕ → List ℕ → List ℕ
resize n xs = take n xs ++ replicate (n - length xs) 0

-- `memcpy(buffer + at, bytes)`, where the bytes fit.
abbrev pub copy_at : ℕ → List ℕ → List ℕ → List ℕ
copy_at at bytes buffer = take at buffer ++ (bytes ++ drop (at + length bytes) buffer)

-- One round of the loop: `return consumed` as the input is too short, `return -1`, or `break` with
-- the input that is left.
pub data Round : Type 0 where
  wait : Round
  fail : WebSocketFrameParser → Round
  next : WebSocketFrameParser → List ℕ → Round

-- `state_ = frame_.masked ? State::kMaskingKey : State::kPayload`
abbrev after_length : WebSocketFrame → State
after_length frame = if frame.masked then mask else body

abbrev pub start_payload : WebSocketFrame → ℕ → WebSocketFrameParser
start_payload frame n = record {
  state = after_length frame;
  frame = record frame { payload = resize n frame.payload };
  payload_read = 0;
}

-- `case State::kHeader`, on the two bytes; `rest` follows them.
pub read_header : WebSocketFrameParser → ℕ → ℕ → List ℕ → Round
read_header p byte0 byte1 rest =
    let frame = record (p.frame) {
      fin = not (bit_and byte0 0x80 == 0);
      opcode = bit_and byte0 0x0f;
      masked = not (bit_and byte1 0x80 == 0);
    } in
    let payload_len7 = bit_and byte1 0x7f in
    if ltb payload_len7 126
    then next (start_payload frame payload_len7) rest
    else if payload_len7 == 126
    then next (record p { state = extended_len16; frame = frame }) rest
    else next (record p { state = extended_len64; frame = frame }) rest

-- The big-endian number that bytes stand for: `ext_len = (ext_len << 8) | p[i]`.
unfoldable pub big_endian : ℕ → List ℕ → ℕ
big_endian acc [] = acc
big_endian acc (b ∷ bs) = big_endian (acc * 256 + b) bs

-- `memcpy` into the payload, and `payload_read_ += to_copy`.
unfoldable pub store_payload : WebSocketFrameParser → List ℕ → WebSocketFrameParser
store_payload p bytes = record p {
  frame = record (p.frame) { payload = copy_at p.payload_read bytes p.frame.payload };
  payload_read = p.payload_read + length bytes;
}

unfoldable pub unmask : WebSocketFrame → List ℕ
unfolding apply_mask
unmask frame =
    if frame.masked && not (length frame.masking_key == 0)
    then apply_mask frame.masking_key frame.payload
    else frame.payload

unfoldable pub finish_payload : WebSocketFrameParser → WebSocketFrameParser
unfolding unmask
finish_payload p = record p {
  state = complete;
  frame = record (p.frame) { payload = unmask p.frame };
}

-- `case State::kPayload`
pub read_payload : WebSocketFrameParser → List ℕ → Round
unfolding store_payload finish_payload
read_payload p input =
    let remaining = length p.frame.payload - p.payload_read in
    let to_copy = min remaining (length input) in
    let stored = store_payload p (take to_copy input) in
    next
      (if stored.payload_read == length stored.frame.payload then finish_payload stored else stored)
      (drop to_copy input)

-- The bytes that a `case` waits for: `if (len - consumed < n) return consumed`.
abbrev pub needed : State → ℕ
needed header = 2
needed extended_len16 = 2
needed extended_len64 = 8
needed mask = 4
needed _ = 0

abbrev pub is_error : WebSocketFrameParser → Bool
is_error p = elim p.state [ error ↦ true | _ ↦ false ]

-- `consumed < len && state_ != State::kComplete && state_ != State::kError`
abbrev pub goes_on : WebSocketFrameParser → List ℕ → Bool
goes_on p input = ltb 0 (length input) && not (is_frame_complete p) && not (is_error p)

-- How `Parse` leaves its loop, with what it has not consumed.
pub data Outcome : Type 0 where
  stopped : WebSocketFrameParser → List ℕ → Outcome
  failed : WebSocketFrameParser → Outcome

-- What `Parse` returns: a count of bytes, or -1.
pub data Parsed : Type 0 where
  consumed : ℕ → Parsed
  rejected : Parsed

abbrev pub returned : List ℕ → Outcome → WebSocketFrameParser × Parsed
returned input (stopped p rest) = (p, consumed (length input - length rest))
returned input (failed p) = (p, rejected)

-- What follows a round: `loop` is the rest of the loop.
unfoldable pub after_round :
    (WebSocketFrameParser → List ℕ → Option Outcome)
    → WebSocketFrameParser
    → List ℕ
    → Round
    → Option Outcome
after_round loop p input wait = some (stopped p input)
after_round loop p input (fail q) = some (failed q)
after_round loop p input (next q rest) = loop q rest

-- `size_max` is the platform's SIZE_MAX.
module _ (size_max : ℕ) where
  -- `case State::kExtendedLen64`, once its eight bytes are there.
  pub read_length64 : WebSocketFrameParser → ℕ → List ℕ → Round
  read_length64 p ext_len rest =
      if ltb size_max ext_len
      then fail (record p { state = error })
      else next (start_payload p.frame ext_len) rest

  -- The `switch`, once the bytes are there; `rest` follows them.
  pub advance : State → WebSocketFrameParser → List ℕ → List ℕ → Round
  unfolding read_header read_payload read_length64 big_endian
  advance header p bytes rest = read_header p (get_or bytes 0 0) (get_or bytes 1 0) rest
  advance extended_len16 p bytes rest = next (start_payload p.frame (big_endian 0 bytes)) rest
  advance extended_len64 p bytes rest = read_length64 p (big_endian 0 bytes) rest
  advance mask p bytes rest =
      next (record p { state = body; frame = record (p.frame) { masking_key = bytes } }) rest
  advance body p bytes rest = read_payload p rest
  advance _ p bytes rest = next p rest

  -- The body of the loop, on what is left of the input.
  pub round_in : State → WebSocketFrameParser → List ℕ → Round
  unfolding advance
  round_in s p input =
      let n = needed s in
      if ltb (length input) n then wait else advance s p (take n input) (drop n input)

  unfoldable pub round : WebSocketFrameParser → List ℕ → Round
  unfolding round_in
  round p input = round_in p.state p input

  -- The loop, on fuel. A state is visited once in a call, so five rounds are enough.
  pub parse_loop : ℕ → WebSocketFrameParser → List ℕ → Option Outcome
  unfolding round after_round
  parse_loop zero p input = if goes_on p input then none else some (stopped p input)
  parse_loop (suc fuel) p input =
      let more = after_round (parse_loop fuel) p input (round p input) in
      if goes_on p input then more else some (stopped p input)

  parse_in : State → WebSocketFrameParser → List ℕ → Option (WebSocketFrameParser × Parsed)
  unfolding parse_loop
  parse_in error p input = some (p, rejected)
  parse_in complete p input = some (p, consumed 0)
  parse_in _ p input = Option.map (returned input) (parse_loop 5 p input)

  -- `Parse`. `none` is no value of the source: the loop would have run out of fuel.
  unfoldable pub parse : WebSocketFrameParser → List ℕ → Option (WebSocketFrameParser × Parsed)
  unfolding parse_in
  parse p input = parse_in p.state p input
