-- ===== src/WebSocket/RoundTrip/Payload.antt =====
-- The parser's rounds over the masking key and the payload of a frame that `Build` wrote.
use mathlib.Core.List.{append_assoc, append-nil}
use libnei.Common.{
  ℕ, zero, suc, ◌+◌, ◌-◌, ◌<◌, ◌≡◌, refl, sym, ap, ◌∙◌, Bool, true, false, List, [], ◌++◌, some,
  arith, ltb, ◌==◌, if◌then◌else◌, length, take, drop, replicate, length-append, length-replicate,
  take_all, drop_all, take-append_exact, drop-append_exact, All, IsByte,
}
use libnei.WebSocket.Bytes.{length-bytes_of, bytes_of-IsByte, apply_mask_twice}
use libnei.WebSocket.Frame.{WebSocketFrame, Opcode, apply_mask}
use libnei.WebSocket.Builder.{seed_of, masking_key_of, body_of}
use libnei.WebSocket.Parser.{
  State, mask, body, complete, WebSocketFrameParser, next, round, goes_on, stopped, parse_loop,
  start_payload, store_payload, finish_payload, unmask, after_round, resize,
}
use libnei.WebSocket.Parser.Progress.{
  length-apply_mask, read_payload_rest, parse_loop-round, parse_loop_stopped,
}
use libnei.WebSocket.Parser.Chunks.{round_body}

-- A parser that waits for the `n` bytes of the payload of `frame`, in state `s`.
abbrev pub waiting : State → WebSocketFrame → ℕ → WebSocketFrameParser
waiting s frame n = record {
  state = s;
  frame = record frame { payload = resize n [] };
  payload_read = 0;
}

abbrev pub finished : WebSocketFrame → List ℕ → ℕ → WebSocketFrameParser
finished frame payload n = record {
  state = complete;
  frame = record frame { payload = payload };
  payload_read = n;
}

pub length-resize : (n : ℕ) → length (resize n []) ≡ n
length-resize n = omega (
  arith,
  ap length (take_all n empty (omega arith)),
  length-append (take n empty) (replicate (n - 0) zero),
  length-replicate (n - 0) zero,
)
  where
    empty : List ℕ
    empty = []

store-waiting :
    (frame : WebSocketFrame) (pl : List ℕ)
    → store_payload (waiting body frame (length pl)) pl
      ≡ record { state = body; frame = record frame { payload = pl }; payload_read = length pl }
unfolding store_payload
store-waiting frame pl =
    let n = length pl in
    let gone : drop (0 + n) (resize n []) ≡ [] =
      drop_all (0 + n) (resize n []) (omega (arith, length-resize n)) in
    let kept : pl ++ drop (0 + n) (resize n []) ≡ pl = rw gone (append-nil pl) in
    rw kept (
      ap (λ k. record { state = body; frame = record frame { payload = pl }; payload_read = k })
        (omega arith))

finish-store-waiting :
    (frame : WebSocketFrame) (pl : List ℕ)
    → finish_payload (store_payload (waiting body frame (length pl)) pl)
      ≡ finished frame (unmask (record frame { payload = pl })) (length pl)
finish-store-waiting frame pl =
    ap finish_payload (store-waiting frame pl) ∙ (unfold finish_payload in refl)

-- The header's fields, as the parser has them before the rest is read.
abbrev pub opened : Bool → Opcode → Bool → WebSocketFrame
opened fin opcode masked = record {
  fin = fin;
  opcode = opcode;
  masked = masked;
  masking_key = [];
  payload = [];
}

abbrev pub keyed : Bool → List ℕ → List ℕ
keyed masked pl = if masked then masking_key_of pl else []

-- The frame that is sent by `Build`.
abbrev pub sent : Bool → Opcode → Bool → List ℕ → WebSocketFrame
sent fin opcode masked pl = record (opened fin opcode masked) {
  masking_key = keyed masked pl;
  payload = pl;
}

module _ (size_max : ℕ) where
  -- From the payload on.
  body_run :
      (f : ℕ) (frame : WebSocketFrame) (pl rest : List ℕ)
      → 0 < length (pl ++ rest)
      → parse_loop size_max (suc f) (waiting body frame (length pl)) (pl ++ rest)
        ≡ some (stopped (finish_payload (store_payload (waiting body frame (length pl)) pl)) rest)
  body_run f frame pl rest h =
      parse_loop-round size_max f p (pl ++ rest) goes
      ∙ ap (after_round (parse_loop size_max f) p (pl ++ rest)) whole
      ∙ (unfold after_round in
          parse_loop_stopped size_max f (finish_payload (store_payload p pl)) rest
            (unfold finish_payload in ground arith))
    where
      p : WebSocketFrameParser
      p = waiting body frame (length pl)

      goes : goes_on p (pl ++ rest) ≡ true
      goes = ground arith

      size : length p.frame.payload ≡ length pl
      size = length-resize (length pl)

      whole : round size_max p (pl ++ rest) ≡ next (finish_payload (store_payload p pl)) rest
      whole =
          round_body size_max p (pl ++ rest) refl
          ∙ read_payload_rest p (pl ++ rest) (length pl) (omega arith) (omega (arith, size))
              (omega (arith, length-append pl rest))
          ∙ (rw (
            take-append_exact pl rest (length pl) refl,
            drop-append_exact pl rest (length pl) refl,
          ))

  pub mask_run :
      (f : ℕ) (frame : WebSocketFrame) (n : ℕ) (key tail : List ℕ)
      → length key ≡ 4
      → parse_loop size_max (suc f) (waiting mask frame n) (key ++ tail)
        ≡ parse_loop size_max f (waiting body (record frame { masking_key = key }) n) tail
  mask_run f frame n key tail k =
      parse_loop-round size_max f p (key ++ tail) (ground (arith, length-append key tail))
      ∙ ap (after_round (parse_loop size_max f) p (key ++ tail)) step
      ∙ (unfold after_round in refl)
    where
      p : WebSocketFrameParser
      p = waiting mask frame n

      no_wait : ltb (length (key ++ tail)) 4 ≡ false
      no_wait = ground (arith, length-append key tail)

      step :
          round size_max p (key ++ tail)
          ≡ next (waiting body (record frame { masking_key = key }) n) tail
      step =
          unfold round in
          (rw (no_wait, take-append_exact key tail 4 (sym k), drop-append_exact key tail 4 (sym k)))

  -- The key and the payload, behind the length.
  pub payload_run :
      (f : ℕ) (fin : Bool) (op : Opcode) (masked : Bool) (pl rest : List ℕ)
      → All IsByte pl
      → 0 < length (pl ++ rest)
      → parse_loop size_max
          (suc (suc f))
          (start_payload (opened fin op masked) (length pl))
          (body_of masked pl ++ rest)
        ≡ some (
            stopped
              (record { state = complete; frame = sent fin op masked pl; payload_read = length pl })
              rest)
  payload_run f fin op false pl rest hb h =
      unfold body_of in
      (body_run (suc f) (opened fin op false) pl rest h
        ∙ ap (λ q. some (stopped q rest))
            (finish-store-waiting (opened fin op false) pl ∙ (unfold unmask in refl)))
  payload_run f fin op true pl rest hb h =
      ap (parse_loop size_max (suc (suc f)) (waiting mask frame n)) split
      ∙ mask_run (suc f) frame n key (bytes ++ rest) key_length
      ∙ ap (λ k. parse_loop size_max (suc f) (waiting body keyed_frame k) (bytes ++ rest))
          (sym same)
      ∙ body_run f keyed_frame bytes rest
          (omega (arith, same, length-append pl rest, length-append bytes rest))
      ∙ ap (λ q. some (stopped q rest)) (finish-store-waiting keyed_frame bytes)
      ∙ ap (λ bs. some (stopped (finished keyed_frame bs (length bytes)) rest)) unmasked
      ∙ ap (λ k. some (stopped (finished keyed_frame pl k) rest)) same
    where
      n : ℕ
      n = length pl

      key : List ℕ
      key = masking_key_of pl

      bytes : List ℕ
      bytes = apply_mask key pl

      frame : WebSocketFrame
      frame = opened fin op true

      split : body_of true pl ++ rest ≡ key ++ (bytes ++ rest)
      split = unfold body_of in append_assoc key bytes rest

      keyed_frame : WebSocketFrame
      keyed_frame = record frame { masking_key = key }

      key_length : length key ≡ 4
      key_length = unfold masking_key_of in length-bytes_of 4 (seed_of 32 0 pl)

      key_bytes : All IsByte key
      key_bytes = unfold masking_key_of in bytes_of-IsByte 4 (seed_of 32 0 pl)

      same : length bytes ≡ length pl
      same = unfold apply_mask in length-apply_mask key pl 0

      has_key : (length key == 0) ≡ false
      has_key = ground (arith, key_length)

      unmasked : unmask (record keyed_frame { payload = bytes }) ≡ pl
      unmasked = unfold unmask apply_mask in (rw has_key (apply_mask_twice key 0 pl key_bytes hb))
