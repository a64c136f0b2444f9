-- ===== src/WebSocket/Client/Stall.antt =====
-- The loop of `ProcessFrames` on data that ends inside a header, a length or a masking key.
use mathlib.Core.Option
use libnei.Common.{
  ℕ, zero, suc, ◌<◌, ◌≡◌, refl, ap, ◌∙◌, false, List, [], ◌∷◌, none, some, arith, length,
}
use libnei.WebSocket.Parser.{
  WebSocketFrameParser, after_round, is_error, is_frame_complete, needed, stopped, parse_loop,
  returned, consumed, parse,
}
use libnei.WebSocket.Parser.Progress.{parse_loop-round}
use libnei.WebSocket.Parser.Chunks.{round_short}
use libnei.WebSocket.Parser.Calls.{parse_running}
use libnei.WebSocket.Client.{Client, after_parse, frames_loop}

module _ (size_max : ℕ) where
  -- `Parse` on input that is too short for its state consumes nothing and changes nothing.
  parse_short :
      (p : WebSocketFrameParser) (input : List ℕ)
      → 0 < length input
      → length input < needed p.state
      → parse size_max p input ≡ some (p, consumed 0)
  parse_short p input h short =
      parse_running size_max p input runs incomplete
      ∙ ap (Option.map (returned input)) stops
      ∙ ap (λ n. some (p, consumed n)) (omega arith)
    where
      runs : is_error p ≡ false
      runs = ground arith

      incomplete : is_frame_complete p ≡ false
      incomplete = ground arith

      stops : parse_loop size_max 5 p input ≡ some (stopped p input)
      stops =
          parse_loop-round size_max 4 p input (ground arith)
          ∙ (rw (round_short size_max p input short) (unfold after_round in refl))

  -- While data is left that is too short for the parser's state, the loop of `ProcessFrames` runs for
  -- ever: it does not return after any number of rounds, and so never reads the bytes that are missing.
  frames_loop_stalls :
      (fuel : ℕ) (c : Client) (input : List ℕ)
      → 0 < length input
      → length input < needed c.frame_parser.state
      → frames_loop size_max fuel c input ≡ none
  unfolding frames_loop after_parse
  frames_loop_stalls fuel c [] h short = absurd (omega arith)
  frames_loop_stalls zero c (b ∷ bs) h short = refl
  frames_loop_stalls (suc fuel) c (b ∷ bs) h short =
      let incomplete : is_frame_complete c.frame_parser ≡ false = ground arith in
      rw (parse_short c.frame_parser (b ∷ bs) h short, incomplete)
        (frames_loop_stalls fuel c (b ∷ bs) h short)
