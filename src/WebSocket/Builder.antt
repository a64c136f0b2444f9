-- ===== src/WebSocket/Builder.antt =====
-- `WebSocketFrameBuilder` (src/neixx/net/websocket/websocket_frame.cpp). A payload is the list of
-- the `payload_len` bytes that the pointer leads to.
use libnei.Common.{
  ℕ, zero, suc, ◌+◌, ◌*◌, ◌/◌, ◌%◌, ◌^◌, bit_or, Bool, true, false, List, [], ◌∷◌, ◌++◌, ltb, leb,
  ◌&&◌, if◌then◌else◌, length, take,
}
use libnei.WebSocket.Frame.{Opcode, text, close, ping, pong, is_control_opcode, apply_mask}

-- `(value >> shift) & 0xFF` for falling shifts: `n` bytes, the highest first.
unfoldable pub bytes_of : ℕ → ℕ → List ℕ
bytes_of zero value = []
bytes_of (suc n) value = (value / 256 ^ n) % 256 ∷ bytes_of n value

-- Control frames carry 125 bytes at most.
abbrev pub clipped : Opcode → List ℕ → List ℕ
clipped opcode payload =
    if is_control_opcode opcode && ltb 125 (length payload) then take 125 payload else payload

-- `seed = seed * 31 + payload[i]`, a uint32_t, over the first `n` bytes.
pub seed_of : ℕ → ℕ → List ℕ → ℕ
seed_of n seed [] = seed
seed_of zero seed (b ∷ bs) = seed
seed_of (suc n) seed (b ∷ bs) = seed_of n ((seed * 31 + b) % 2 ^ 32) bs

unfoldable pub masking_key_of : List ℕ → List ℕ
unfolding bytes_of seed_of
masking_key_of payload = bytes_of 4 (seed_of 32 0 payload)

abbrev pub byte0_of : Bool → Opcode → ℕ
byte0_of fin opcode = if fin then bit_or opcode 0x80 else opcode

abbrev pub masked_bit : Bool → ℕ → ℕ
masked_bit masked b = if masked then bit_or b 0x80 else b

-- Byte 1 and the extended length.
unfoldable pub length_bytes : Bool → ℕ → List ℕ
unfolding bytes_of
length_bytes masked n =
    if ltb n 126
    then masked_bit masked n ∷ []
    else if leb n 0xffff
    then masked_bit masked 126 ∷ bytes_of 2 n
    else masked_bit masked 127 ∷ bytes_of 8 n

unfoldable pub body_of : Bool → List ℕ → List ℕ
unfolding masking_key_of apply_mask
body_of masked payload =
    if masked
    then masking_key_of payload ++ apply_mask (masking_key_of payload) payload
    else payload

-- `Build`
unfoldable pub build : Bool → Opcode → Bool → List ℕ → List ℕ
unfolding length_bytes body_of
build fin opcode masked payload =
    let payload = clipped opcode payload in
    byte0_of fin opcode ∷ (length_bytes masked (length payload) ++ body_of masked payload)

unfoldable pub build_text : List ℕ → List ℕ
unfolding build
build_text payload = build true text false payload

-- `BuildClose`: a status code, then at most 123 bytes of the reason.
unfoldable pub build_close : ℕ → List ℕ → List ℕ
unfolding build bytes_of
build_close code reason = build true close false (bytes_of 2 code ++ take 123 reason)

unfoldable pub build_ping : List ℕ → List ℕ
unfolding build
build_ping payload = build true ping false (take 125 payload)

unfoldable pub build_pong : List ℕ → List ℕ
unfolding build
build_pong payload = build true pong false (take 125 payload)
