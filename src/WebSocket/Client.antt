-- ===== src/WebSocket/Client.antt =====
-- The frame mode of `WebSocketClient::Impl` (src/neixx/net/websocket/websocket_client.cpp). The
-- sockets, the handshake and the callbacks' bodies are not modelled: the state records what the
-- client hands to them.
pub mod Delivery
pub mod Stall
pub mod Writes
use libnei.Common.{
  ℕ, zero, suc, ◌+◌, ◌*◌, ◌%◌, ◌^◌, Bool, true, false, not, ◌&&◌, ◌||◌, List, [], ◌∷◌, ◌++◌, Option,
  none, some, ltb, leb, ◌==◌, if◌then◌else◌, length, drop, get_or,
}
use libnei.WebSocket.Frame.{WebSocketFrame, text, binary, close, ping, pong}
use libnei.WebSocket.Builder.{build, build_text, build_ping, build_pong, build_close}
use libnei.WebSocket.Parser.{
  WebSocketFrameParser, is_frame_complete, reset, Parsed, consumed, rejected, parse,
}

-- `WebSocketClient::Impl::State`
pub data ClientState : Type 0 where
  idle connecting handshake_reading connected closing closed : ClientState

pub record Client : Type 0 where
  pub state : ClientState
  pub frame_parser : WebSocketFrameParser
  pub pending_data : List ℕ
  pub write_queue : List (List ℕ)
  pub write_in_flight : Bool
  -- Whether the callbacks are set; the frames that `on_frame` was called with, oldest first.
  pub on_frame : Bool
  pub on_close : Bool
  pub delivered : List WebSocketFrame
  -- The buffers given to `WriteAsync`, oldest first; the calls of `ReadAsync` and of `on_close`.
  pub written : List (List ℕ)
  pub reads : ℕ
  pub closes : ℕ

-- `state == State::kConnected || state == State::kClosing`
abbrev pub is_open : ClientState → Bool
is_open connected = true
is_open closing = true
is_open _ = false

pub start_frame_read : Client → Client
start_frame_read c = if is_open c.state then record c { reads = c.reads + 1 } else c

abbrev write_front : Client → List (List ℕ) → Client
write_front c [] = c
write_front c (bytes ∷ queue) =
    if is_open c.state
    then record c {
      write_queue = queue;
      write_in_flight = true;
      written = c.written ++ (bytes ∷ []);
    }
    else c

pub pump_writes : Client → Client
pump_writes c = if c.write_in_flight then c else write_front c c.write_queue

do_send_frame : Client → List ℕ → Client
unfolding pump_writes
do_send_frame c bytes =
    if is_open c.state
    then pump_writes (record c { write_queue = c.write_queue ++ (bytes ∷ []) })
    else c

pub finish : Client → Client
finish c = elim c.state [
  | closed ↦ c
  | _ ↦ record c {
    state = closed;
    write_queue = [];
    on_frame = not c.on_close && c.on_frame;
    on_close = false;
    closes = if c.on_close then c.closes + 1 else c.closes;
  }
]

-- The completion of `WriteAsync`.
on_write_complete : Client → Bool → Client
unfolding pump_writes finish
on_write_complete c true = pump_writes (record c { write_in_flight = false })
on_write_complete c false = finish (record c { write_in_flight = false })

is_connected : ClientState → Bool
is_connected connected = true
is_connected _ = false

-- `SendText`, `SendBinary` and `SendPing`, once they run on the client's thread: with the bytes that
-- the builder makes.
send_built : Client → List ℕ → Client
unfolding do_send_frame is_connected
send_built c bytes = if is_connected c.state then do_send_frame c bytes else c

unfoldable pub send_text : Client → List ℕ → Client
unfolding send_built
send_text c message = send_built c (build_text message)

unfoldable pub send_binary : Client → List ℕ → Client
unfolding send_built
send_binary c bytes = send_built c (build true binary false bytes)

unfoldable pub send_ping : Client → List ℕ → Client
unfolding send_built
send_ping c bytes = send_built c (build_ping bytes)

-- `Close`
unfoldable pub close_client : Client → ℕ → Client
unfolding do_send_frame finish
close_client c code = elim c.state [
  | closed ↦ c
  | idle ↦ c
  | connected ↦ do_send_frame (record c { state = closing }) (build_close code [])
  | _ ↦ finish c
]

-- How the `switch` over a complete frame leaves the loop: by `return`, or for another round.
pub data Handled : Type 0 where
  returns : Client → Handled
  again : Client → Handled

abbrev deliver : Client → WebSocketFrame → Client
deliver c frame = if c.on_frame then record c { delivered = c.delivered ++ (frame ∷ []) } else c

-- The status code that is echoed.
abbrev close_code : List ℕ → ℕ
close_code payload =
    if leb 2 (length payload) then get_or payload 0 0 * 256 + get_or payload 1 0 else 1000

is_closing : ClientState → Bool
is_closing closing = true
is_closing _ = false

pub handle_close : Client → WebSocketFrame → Client
unfolding do_send_frame finish is_closing
handle_close c frame =
    if is_closing c.state
    then finish c
    else finish (do_send_frame c (build_close (close_code frame.payload) []))

pub handle_frame : Client → WebSocketFrame → Handled
unfolding do_send_frame handle_close
handle_frame c frame =
    if frame.opcode == text || frame.opcode == binary
    then again (deliver c frame)
    else if frame.opcode == ping
    then again (do_send_frame c (build_pong frame.payload))
    else if frame.opcode == close
    then returns (handle_close c frame)
    else again c

-- `size_max` is the platform's SIZE_MAX.
module _ (size_max : ℕ) where
  -- What follows `handle_frame`: `loop` is the rest of the loop, `rest` the data that is left.
  pub after_frame : (Client → List ℕ → Option Client) → List ℕ → Handled → Option Client
  after_frame loop rest (returns c) = some c
  after_frame loop rest (again c) = loop (record c { frame_parser = reset }) rest

  pub after_parse :
      (Client → List ℕ → Option Client)
      → Client
      → List ℕ
      → Option (WebSocketFrameParser × Parsed)
      → Option Client
  unfolding finish handle_frame after_frame
  after_parse loop c input none = none
  after_parse loop c input (some (p, rejected)) = some (finish (record c { frame_parser = p }))
  after_parse loop c input (some (p, consumed n)) =
      let c = record c { frame_parser = p } in
      if is_frame_complete p
      then after_frame loop (drop n input) (handle_frame c p.frame)
      else loop c (drop n input)

  -- `while (offset < len)`, and what follows it. `none` says that the fuel ran out.
  pub frames_loop : ℕ → Client → List ℕ → Option Client
  unfolding after_parse start_frame_read
  frames_loop fuel c [] = some (start_frame_read (record c { pending_data = [] }))
  frames_loop zero c (b ∷ bs) = none
  frames_loop (suc fuel) c (b ∷ bs) =
      after_parse (frames_loop fuel) c (b ∷ bs) (parse size_max c.frame_parser (b ∷ bs))

  pub process_frames : ℕ → Client → Option Client
  unfolding frames_loop
  process_frames fuel c = frames_loop fuel c c.pending_data

  -- `OnFrameReadComplete`, with the bytes that were read.
  unfoldable pub on_frame_read_complete : ℕ → Client → Bool → List ℕ → Option Client
  unfolding finish process_frames
  on_frame_read_complete fuel c success bytes =
      if not (is_open c.state)
      then some c
      else if not success || length bytes == 0
      then some (finish c)
      else process_frames fuel (record c { pending_data = c.pending_data ++ bytes })
