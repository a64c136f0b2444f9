-- ===== src/WebSocket/Tests.antt =====
-- Runs of the framing code on concrete bytes, and the theorems at concrete inputs.
use libnei.Common.{
  ℕ, ◌+◌, ◌≡◌, ◌≤◌, ◌⊎◌, inl, refl, inr, ◌-◌, ◌^◌, true, false, List, [], ◌∷◌, ◌++◌, some, arith,
  length,
}
use libnei.WebSocket.Frame.{WebSocketFrame, text, binary, is_control}
use libnei.WebSocket.Builder.{build, build_text, build_close, build_ping, build_pong}
use libnei.WebSocket.Parser.{
  WebSocketFrameParser, complete, Parsed, reset, consumed, rejected, parse,
}
use libnei.WebSocket.Parser.Progress.{IsValid}
use libnei.WebSocket.Parser.Calls.{parse_chunks, parse_returns, and_then}
use libnei.WebSocket.RoundTrip.{parse-build}
use libnei.WebSocket.RoundTrip.Payload.{sent}
use libnei.WebSocket.Client.{
  Client, connected, closing, frames_loop, on_frame_read_complete, send_text, send_binary,
  send_ping, close_client,
}
use libnei.WebSocket.Client.Writes.{
  WriteStep, sends, completes, written_after, sent_frames, accepted_frames, IsPumped,
  written_after_lem,
}
use libnei.WebSocket.Client.Delivery.{IsData, wire, frames, frames_loop-wire}

abbrev size64 : ℕ
size64 = 2 ^ 64 - 1

abbrev hello : List ℕ
hello = 0x48 ∷ 0x65 ∷ 0x6c ∷ 0x6c ∷ 0x6f ∷ []

hello_bytes : build_text hello ≡ 0x81 ∷ 0x05 ∷ hello
unfolding build_text
hello_bytes = refl

-- RFC 6455, section 5.7: a masked "Hello".
abbrev masked_hello : List ℕ
masked_hello = 0x81 ∷ 0x85 ∷ 0x37 ∷ 0xfa ∷ 0x21 ∷ 0x3d ∷ 0x7f ∷ 0x9f ∷ 0x4d ∷ 0x51 ∷ 0x58 ∷ []

abbrev hello_frame : WebSocketFrame
hello_frame = record {
  fin = true;
  opcode = text;
  masked = true;
  masking_key = 0x37 ∷ 0xfa ∷ 0x21 ∷ 0x3d ∷ [];
  payload = hello;
}

parse-masked_hello :
    parse size64 reset masked_hello
    ≡ some (record { state = complete; frame = hello_frame; payload_read = 5 }, consumed 11)
unfolding parse
parse-masked_hello = refl

close_bytes : build_close 1000 [] ≡ 0x88 ∷ 0x02 ∷ 0x03 ∷ 0xe8 ∷ []
unfolding build_close
close_bytes = refl

hello_is_data : is_control hello_frame ≡ false
unfolding is_control
hello_is_data = refl

parse_chunks_example :
    parse size64 reset (0x81 ∷ 0x85 ∷ 0x37 ∷ 0xfa ∷ 0x21 ∷ [])
    ≡ and_then size64
        (0x81 ∷ 0x85 ∷ 0x37 ∷ [])
        (0xfa ∷ 0x21 ∷ [])
        (parse size64 reset (0x81 ∷ 0x85 ∷ 0x37 ∷ []))
parse_chunks_example =
    parse_chunks size64 reset (0x81 ∷ 0x85 ∷ 0x37 ∷ []) 0xfa (0x21 ∷ []) (omega arith)

parse_returns_example :
    (q : WebSocketFrameParser) × (r : Parsed) × (parse size64 reset masked_hello ≡ some (q, r))
    × ((r ≡ rejected) ⊎ ((n : ℕ) × (r ≡ consumed n) × (n ≤ 11) × IsValid q))
parse_returns_example = parse_returns size64 reset masked_hello (omega arith)

parse-build_example :
    parse size64 reset (build true text true hello ++ (0x88 ∷ []))
    ≡ some (
      record { state = complete; frame = sent true text true hello; payload_read = 5 },
      consumed (length (build true text true hello)),
    )
parse-build_example =
    parse-build size64 true text true hello (0x88 ∷ []) (omega arith) (omega arith) (omega arith)
      (omega arith) (omega arith)

abbrev fresh_client : Client
fresh_client = record {
  state = connected;
  frame_parser = reset;
  pending_data = [];
  write_queue = [];
  write_in_flight = false;
  on_frame = true;
  on_close = true;
  delivered = [];
  written = [];
  reads = 0;
  closes = 0;
}

hello-IsData : IsData size64 (record { fin = true; opcode = text; masked = false; payload = hello })
hello-IsData = record {
  kind = inl refl;
  bytes = omega arith;
  not_empty = omega arith;
  fits64 = omega arith;
  fits = omega arith;
}

frames_loop-wire_example :
    frames_loop size64 1 fresh_client
      (wire (record { fin = true; opcode = text; masked = false; payload = hello } ∷ []))
    ≡ some (record fresh_client {
      delivered =
          [] ++ frames (record { fin = true; opcode = text; masked = false; payload = hello } ∷ []);
      reads = 0 + 1;
    })
frames_loop-wire_example =
    frames_loop-wire size64
      (record { fin = true; opcode = text; masked = false; payload = hello } ∷ []) fresh_client
      (hello-IsData, tt) refl refl refl

-- A ping is answered with its payload, and the text behind it is delivered.
ping_is_answered :
    on_frame_read_complete size64 3 fresh_client true (build_ping (7 ∷ []) ++ build_text hello)
    ≡ some (record fresh_client {
      write_in_flight = true;
      written = build_pong (7 ∷ []) ∷ [];
      delivered = sent true text false hello ∷ [];
      reads = 1;
    })
unfolding on_frame_read_complete parse build_ping build_text build_pong
ping_is_answered = refl

-- Two texts are sent, and the first write succeeds.
abbrev two_texts : List WriteStep
two_texts = sends (build_text hello) ∷ sends (build_text []) ∷ completes ∷ []

written_after_lem_example :
    (accepted_frames (written_after two_texts fresh_client)
      ≡ accepted_frames fresh_client ++ sent_frames two_texts)
    × IsPumped (written_after two_texts fresh_client)
written_after_lem_example = written_after_lem two_texts fresh_client refl (inr refl)

-- A client that closes sends a close frame and waits for the peer's.
close_is_sent : close_client fresh_client 1000 ≡ record fresh_client {
  state = closing;
  write_in_flight = true;
  written = build_close 1000 [] ∷ [];
}
unfolding close_client
close_is_sent = refl

-- Nothing is sent once the client closes.
no_text_while_closing :
    send_text (record fresh_client { state = closing }) hello
    ≡ record fresh_client { state = closing }
unfolding send_text
no_text_while_closing = refl

no_ping_while_closing :
    send_ping (record fresh_client { state = closing }) hello
    ≡ record fresh_client { state = closing }
unfolding send_ping
no_ping_while_closing = refl

binary_is_sent : (send_binary fresh_client hello).written ≡ build true binary false hello ∷ []
unfolding send_binary build
binary_is_sent = refl
