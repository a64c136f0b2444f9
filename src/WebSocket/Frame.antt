-- ===== src/WebSocket/Frame.antt =====
-- `WebSocketFrame` and `WebSocketOpcode` (include/neixx/net/websocket/websocket_frame.h), and
-- `WebSocketFrameBuilder::ApplyMask` (src/neixx/net/websocket/websocket_frame.cpp).
-- A byte buffer is the list of its bytes.
use libnei.Common.{ℕ, ◌+◌, ◌%◌, bit_xor, Bool, true, false, List, [], ◌∷◌, get_or, ◌||◌, ◌==◌}

-- The parser casts any four bits to the enum, so an opcode is its underlying value.
abbrev pub Opcode : Type 0
Opcode = ℕ

abbrev continuation : Opcode
continuation = 0x0

abbrev pub text : Opcode
text = 0x1

abbrev pub binary : Opcode
binary = 0x2

abbrev pub close : Opcode
close = 0x8

abbrev pub ping : Opcode
ping = 0x9

abbrev pub pong : Opcode
pong = 0xa

pub record WebSocketFrame : Type 0 where
  pub fin : Bool
  pub opcode : Opcode
  pub masked : Bool
  pub masking_key : List ℕ
  pub payload : List ℕ

-- `WebSocketFrame{}`
abbrev pub empty_frame : WebSocketFrame
empty_frame = record { fin = true; opcode = text; masked = false; masking_key = []; payload = [] }

abbrev pub is_control_opcode : Opcode → Bool
is_control_opcode opcode = opcode == close || opcode == ping || opcode == pong

unfoldable pub is_control : WebSocketFrame → Bool
is_control frame = is_control_opcode frame.opcode

-- `data[i] ^= masking_key[i % 4]` from index `i` on. Every caller passes a key of four bytes.
unfoldable pub apply_mask_from : List ℕ → ℕ → List ℕ → List ℕ
apply_mask_from masking_key i [] = []
apply_mask_from masking_key i (d ∷ data_rest) =
    bit_xor d (get_or masking_key (i % 4) 0) ∷ apply_mask_from masking_key (i + 1) data_rest

unfoldable pub apply_mask : List ℕ → List ℕ → List ℕ
unfolding apply_mask_from
apply_mask masking_key bytes = apply_mask_from masking_key 0 bytes
