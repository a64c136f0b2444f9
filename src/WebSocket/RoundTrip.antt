-- ===== src/WebSocket/RoundTrip.antt =====
-- What `WebSocketFrameBuilder` writes, `WebSocketFrameParser` reads back.
pub mod Payload
mod Header
use mathlib.Core.Option
use native.Mathlib.Nat.{div-div-eq-div-mul, div-add-mod', pow-suc, add-zero}
use mathlib.Core.List.{append_assoc, append-nil}
use libnei.Common.{
  ℕ, zero, suc, ◌+◌, ◌-◌, ◌*◌, ◌/◌, ◌%◌, ◌^◌, ◌≤◌, ◌<◌, bit_and, bit_or, ◌≡◌, ◌≢◌, refl, sym, ap,
  ◌∙◌, ◌⊎◌, inl, inr, Bool, true, false, not, List, [], ◌∷◌, ◌++◌, Option, none, some, arith, ltb,
  leb, ◌==◌, if◌then◌else◌, Bool-cases, length, take, drop, replicate, get_or, length-append,
  length-take, length-drop, length-replicate, take_all, drop_all, take-append_exact,
  drop-append_exact, All, All-take, IsByte, get_or-IsByte,
}
use libnei.Common.Bits.{
  bit_and-0x7f, bit_and-0x80, bit_and-0x0f, bit_or-0x80, bit_xor_twice, bit_xor-lt,
}
use libnei.WebSocket.Bytes.{
  big_endian-bytes_of, length-bytes_of, fin_bit, mask_bit, bytes_of-IsByte, apply_mask_twice,
}
use libnei.WebSocket.Frame.{
  WebSocketFrame, Opcode, empty_frame, apply_mask, apply_mask_from, is_control_opcode,
}
use libnei.WebSocket.Builder.{
  bytes_of, clipped, seed_of, masking_key_of, byte0_of, masked_bit, length_bytes, body_of, build,
}
use libnei.WebSocket.Parser.{
  State, header, extended_len16, extended_len64, mask, body, complete, error, WebSocketFrameParser,
  Round, wait, fail, next, read_header, read_length64, read_payload, advance, round, round_in,
  goes_on, is_frame_complete, Outcome, stopped, failed, parse_loop, copy_at, start_payload, needed,
  store_payload, finish_payload, unmask, after_round, big_endian, reset, resize, returned, consumed,
  parse,
}
use libnei.WebSocket.Parser.Progress.{
  IsValid, length-apply_mask, read_payload_part, read_payload_rest, parse_loop-round,
  parse_loop_stopped,
}
use libnei.WebSocket.Parser.Chunks.{round_body}
use libnei.WebSocket.Parser.Calls.{parse_running}
use Payload.{opened, sent, waiting, keyed, finished, mask_run, payload_run, length-resize}
use Header.{
  short_length, middle_length, long_length, clip_lem, clipped-nil, build-nil, header_run,
  length16_run, length64_run,
}

module _ (size_max : ℕ) where
  -- The header, the length and all that follows, for each of the three forms of a length.
  frame_run :
      (fin : Bool) (op : Opcode) (masked : Bool) (pl rest : List ℕ)
      → op < 16
      → All IsByte pl
      → length pl < 2 ^ 64
      → length pl ≤ size_max
      → 0 < length (pl ++ rest)
      → parse_loop size_max 5 reset
          (byte0_of fin op ∷ (length_bytes masked (length pl) ++ body_of masked pl) ++ rest)
        ≡ some (
            stopped
              (record { state = complete; frame = sent fin op masked pl; payload_read = length pl })
              rest)
  frame_run fin op masked pl rest ho hb h64 hs h = elim (Bool-cases (ltb n 126)) [
    | inl small ↦
        at (short_length masked n small)
        ∙ header_run size_max 4 fin op masked n tail ho (ground arith)
        ∙ (rw small (unfold after_round in payload_run size_max 2 fin op masked pl rest hb h))
    | inr big ↦ elim (Bool-cases (leb n 0xffff)) [
      | inl mid ↦
          at (middle_length masked n big mid)
          ∙ header_run size_max 4 fin op masked 126 ((bytes_of 2 n ++ body_of masked pl) ++ rest) ho
              (omega arith)
          ∙ (unfold after_round in
              (ap
                  (parse_loop size_max 4
                    (record reset { state = extended_len16; frame = opened fin op masked }))
                  (append_assoc (bytes_of 2 n) (body_of masked pl) rest)
                ∙ length16_run size_max 3 (opened fin op masked) n tail (ground arith)
                ∙ payload_run size_max 1 fin op masked pl rest hb h))
      | inr huge ↦
          at (long_length masked n big huge)
          ∙ header_run size_max 4 fin op masked 127 ((bytes_of 8 n ++ body_of masked pl) ++ rest) ho
              (omega arith)
          ∙ (unfold after_round in
              (ap
                  (parse_loop size_max 4
                    (record reset { state = extended_len64; frame = opened fin op masked }))
                  (append_assoc (bytes_of 8 n) (body_of masked pl) rest)
                ∙ length64_run size_max 3 (opened fin op masked) n tail h64 hs
                ∙ payload_run size_max 1 fin op masked pl rest hb h))
    ]
  ]
    where
      n : ℕ
      n = length pl

      tail : List ℕ
      tail = body_of masked pl ++ rest

      at :
          {l : List ℕ}
          → length_bytes masked n ≡ l
          → parse_loop size_max 5 reset
              (byte0_of fin op ∷ (length_bytes masked n ++ body_of masked pl) ++ rest)
            ≡ parse_loop size_max 5 reset (byte0_of fin op ∷ (l ++ body_of masked pl) ++ rest)
      at e =
          ap (λ l. parse_loop size_max 5 reset (byte0_of fin op ∷ (l ++ body_of masked pl) ++ rest))
            e

  -- The parser reads back every frame that `Build` writes, and leaves what follows it: flags, opcode,
  -- masking key and payload (clipped, on a control frame) are those of the frame, and the call
  -- consumes exactly its bytes. It needs a byte to look at once the header is read, so either the
  -- payload is not empty or something follows the frame.
  pub parse-build :
      (fin : Bool) (op : Opcode) (masked : Bool) (payload rest : List ℕ)
      → op < 16
      → All IsByte payload
      → length payload < 2 ^ 64
      → length payload ≤ size_max
      → 0 < length (clipped op payload ++ rest)
      → parse size_max reset (build fin op masked payload ++ rest)
        ≡ some (
          record {
            state = complete;
            frame = sent fin op masked (clipped op payload);
            payload_read = length (clipped op payload);
          },
          consumed (length (build fin op masked payload)),
        )
  parse-build fin op masked payload rest ho hb h64 hs h =
      parse_running size_max reset _ refl refl
      ∙ ap (Option.map (returned (build fin op masked payload ++ rest))) run
      ∙ ap (λ n. some (final, consumed n))
          (omega (arith, length-append (build fin op masked payload) rest))
    where
      pl : List ℕ
      pl = clipped op payload

      final : WebSocketFrameParser
      final = record { state = complete; frame = sent fin op masked pl; payload_read = length pl }

      shorter : length pl ≤ length payload
      shorter = (clip_lem _ payload hb).0

      bytes : All IsByte pl
      bytes = (clip_lem _ payload hb).1

      run :
          parse_loop size_max 5 reset (build fin op masked payload ++ rest)
          ≡ some (stopped final rest)
      run =
          unfold build in
          frame_run fin op masked pl rest ho bytes (omega (arith, shorter)) (omega (arith, shorter))
            h

  empty_run :
      (fin : Bool) (op : Opcode) (masked : Bool)
      → op < 16
      → parse_loop size_max 5 reset (byte0_of fin op ∷ masked_bit masked 0 ∷ body_of masked [])
        ≡ some (stopped (waiting body (sent fin op masked []) 0) [])
  empty_run fin op false ho =
      header_run size_max 4 fin op false 0 (body_of false []) ho (omega arith)
      ∙ (unfold after_round body_of in
          parse_loop_stopped size_max 4 (waiting body (opened fin op false) 0) [] refl)
  empty_run fin op true ho =
      header_run size_max 4 fin op true 0 (body_of true []) ho (omega arith)
      ∙ (unfold after_round body_of apply_mask in
          (mask_run size_max 3 (opened fin op true) 0 key []
              (unfold masking_key_of in length-bytes_of 4 (seed_of 32 0 []))
            ∙ parse_loop_stopped size_max 3
                (waiting body (record (opened fin op true) { masking_key = key }) 0) [] refl))
    where
      key : List ℕ
      key = masking_key_of []

  -- A frame without a payload is not complete when its bytes are read: unless something follows, the
  -- call consumes the frame and leaves the parser waiting for a byte of the payload.
  pub parse-build_empty :
      (fin : Bool) (op : Opcode) (masked : Bool)
      → op < 16
      → parse size_max reset (build fin op masked [])
        ≡ some (waiting body (sent fin op masked []) 0, consumed (length (build fin op masked [])))
  parse-build_empty fin op masked ho =
      parse_running size_max reset _ refl refl
      ∙ ap (Option.map (returned (build fin op masked [])))
          (ap (parse_loop size_max 5 reset) (build-nil fin op masked) ∙ empty_run fin op masked ho)
      ∙ ap (λ n. some (waiting body (sent fin op masked []) 0, consumed n)) (omega arith)
