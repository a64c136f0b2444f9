-- ===== src/WebSocket/Client/Delivery.antt =====
-- What a client makes of the frames of a peer that uses `Build`.
use mathlib.Core.List.{append_assoc, append-nil}
use libnei.Common.{
  ℕ, suc, ◌+◌, ◌^◌, ◌≤◌, ◌<◌, ◌≡◌, refl, ap, ◌∙◌, ◌⊎◌, Bool, true, List, [], ◌∷◌, ◌++◌, Option,
  some, arith, length, drop, length-append, All, IsByte, drop-append_exact,
}
use libnei.WebSocket.Frame.{WebSocketFrame, Opcode, text, binary}
use libnei.WebSocket.Builder.{build, clipped}
use libnei.WebSocket.Parser.{WebSocketFrameParser, complete, reset, parse, consumed}
use libnei.WebSocket.RoundTrip.{parse-build}
use libnei.WebSocket.RoundTrip.Payload.{sent}
use libnei.WebSocket.Client.{
  Client, is_open, start_frame_read, handle_frame, again, after_frame, after_parse, frames_loop,
}

-- A message that a peer sends: it fits a buffer, and its payload is not empty.
pub record Message : Type 0 where
  pub fin : Bool
  pub opcode : Opcode
  pub masked : Bool
  pub payload : List ℕ

pub record IsData (size_max : ℕ) (m : Message) : Type 0 where
  pub kind : (m.opcode ≡ text) ⊎ (m.opcode ≡ binary)
  pub bytes : All IsByte m.payload
  pub not_empty : 0 < length m.payload
  pub fits64 : length m.payload < 2 ^ 64
  pub fits : length m.payload ≤ size_max

-- The bytes of the messages, and the frames that they stand for.
abbrev pub wire : List Message → List ℕ
wire [] = []
wire (m ∷ ms) = build m.fin m.opcode m.masked m.payload ++ wire ms

abbrev pub frames : List Message → List WebSocketFrame
frames [] = []
frames (m ∷ ms) = sent m.fin m.opcode m.masked m.payload ∷ frames ms

clipped_data : (op : Opcode) (pl : List ℕ) → (op ≡ text) ⊎ (op ≡ binary) → clipped op pl ≡ pl
clipped_data op pl k = ground arith

opcode_small : (op : Opcode) → (op ≡ text) ⊎ (op ≡ binary) → op < 16
opcode_small op k = ground arith

handle_data :
    (c : Client) (frame : WebSocketFrame)
    → (frame.opcode ≡ text) ⊎ (frame.opcode ≡ binary)
    → c.on_frame ≡ true
    → handle_frame c frame ≡ again (record c { delivered = c.delivered ++ (frame ∷ []) })
unfolding handle_frame
handle_data c frame k f = ground arith

module _ (size_max : ℕ) where
  -- The parse of the first message.
  parse-wire :
      (m : Message) (ms : List Message)
      → IsData size_max m
      → parse size_max reset (wire (m ∷ ms))
        ≡ some (
          record {
            state = complete;
            frame = sent m.fin m.opcode m.masked m.payload;
            payload_read = length m.payload;
          },
          consumed (length (build m.fin m.opcode m.masked m.payload)),
        )
  parse-wire m ms d =
      let same = clipped_data m.opcode m.payload d.kind in
      parse-build size_max m.fin m.opcode m.masked m.payload (wire ms)
        (opcode_small m.opcode d.kind) d.bytes d.fits64 d.fits
        (omega (
          arith,
          ap length same,
          d.not_empty,
          length-append (clipped m.opcode m.payload) (wire ms),
        ))
      ∙ ap
          (λ pl. some (
            record {
              state = complete;
              frame = sent m.fin m.opcode m.masked pl;
              payload_read = length pl;
            },
            consumed (length (build m.fin m.opcode m.masked m.payload)),
          ))
          same

  loop_step :
      (f : ℕ) (c : Client) (input : List ℕ)
      → 0 < length input
      → frames_loop size_max (suc f) c input
        ≡ after_parse size_max
            (frames_loop size_max f)
            c
            input
            (parse size_max c.frame_parser input)
  unfolding frames_loop
  loop_step f c [] h = absurd (omega arith)
  loop_step f c (b ∷ bs) h = refl

  -- A connected client with a reset parser and an `on_frame` has read the bytes of text and binary
  -- messages, each of at least one byte, of at most SIZE_MAX and of fewer than 2^64, and nothing more. It
  -- calls `on_frame` with their frames, in the order in which they were sent and each once, and then reads
  -- on; the loop ends in a round for each.
  pub frames_loop-wire :
      (ms : List Message) (c : Client)
      → All (IsData size_max) ms
      → c.frame_parser ≡ reset
      → is_open c.state ≡ true
      → c.on_frame ≡ true
      → frames_loop size_max (length ms) c (wire ms)
        ≡ some (record c {
          frame_parser = reset;
          delivered = c.delivered ++ frames ms;
          pending_data = [];
          reads = c.reads + 1;
        })
  unfolding frames_loop after_parse after_frame start_frame_read
  frames_loop-wire [] c h r o f = ground (arith, append-nil c.delivered)
  frames_loop-wire (m ∷ ms) c (d, h) r o f =
      loop_step (length ms) c (wire (m ∷ ms)) long
      ∙ ap (after_parse size_max loop c (wire (m ∷ ms)))
          (ap (λ p. parse size_max p (wire (m ∷ ms))) r ∙ parse-wire m ms d)
      ∙ ap (after_frame size_max loop (drop n (wire (m ∷ ms))))
          (handle_data (record c { frame_parser = p }) frame d.kind f)
      ∙ ap (loop d') (drop-append_exact (build m.fin m.opcode m.masked m.payload) (wire ms) n refl)
      ∙ frames_loop-wire ms d' h refl o f
      ∙ ap
          (λ l. some (record c {
            frame_parser = reset;
            delivered = l;
            pending_data = [];
            reads = c.reads + 1;
          }))
          (append_assoc c.delivered (frame ∷ []) (frames ms))
    where
      n : ℕ
      n = length (build m.fin m.opcode m.masked m.payload)

      loop : Client → List ℕ → Option Client
      loop = frames_loop size_max (length ms)

      frame : WebSocketFrame
      frame = sent m.fin m.opcode m.masked m.payload

      p : WebSocketFrameParser
      p = record { state = complete; frame = frame; payload_read = length m.payload }

      d' : Client
      d' = record c { frame_parser = reset; delivered = c.delivered ++ (frame ∷ []) }

      long : 0 < length (wire (m ∷ ms))
      long = unfold build in omega arith
