-- ===== src/WebSocket/RoundTrip/Header.antt =====
-- The parser's rounds over the first two bytes and the extended length of a frame.
use libnei.Common.{
  ℕ, suc, ◌+◌, ◌^◌, ◌≤◌, ◌<◌, ◌≡◌, refl, sym, ap, ◌∙◌, Bool, true, false, List, [], ◌∷◌, ◌++◌,
  arith, ltb, leb, ◌==◌, if◌then◌else◌, length, take, length-append, length-take, take-append_exact,
  drop-append_exact, All, All-take, IsByte,
}
use libnei.WebSocket.Bytes.{big_endian-bytes_of, length-bytes_of, fin_bit, mask_bit}
use libnei.WebSocket.Frame.{WebSocketFrame, Opcode}
use libnei.WebSocket.Builder.{bytes_of, clipped, byte0_of, masked_bit, length_bytes, body_of, build}
use libnei.WebSocket.Parser.{
  extended_len16, extended_len64, WebSocketFrameParser, next, round, parse_loop, start_payload,
  after_round, big_endian, reset,
}
use libnei.WebSocket.Parser.Progress.{parse_loop-round}
use libnei.WebSocket.RoundTrip.Payload.{opened}

pub short_length :
    (masked : Bool) (n : ℕ) → ltb n 126 ≡ true → length_bytes masked n ≡ masked_bit masked n ∷ []
unfolding length_bytes
short_length masked n e = rw e

pub middle_length :
    (masked : Bool) (n : ℕ)
    → ltb n 126 ≡ false
    → leb n 0xffff ≡ true
    → length_bytes masked n ≡ masked_bit masked 126 ∷ bytes_of 2 n
unfolding length_bytes
middle_length masked n e e' = rw (e, e')

pub long_length :
    (masked : Bool) (n : ℕ)
    → ltb n 126 ≡ false
    → leb n 0xffff ≡ false
    → length_bytes masked n ≡ masked_bit masked 127 ∷ bytes_of 8 n
unfolding length_bytes
long_length masked n e e' = rw (e, e')

pub clip_lem :
    (cut : Bool) (payload : List ℕ)
    → All IsByte payload
    → (length (if cut then take 125 payload else payload) ≤ length payload)
      × All IsByte (if cut then take 125 payload else payload)
clip_lem true payload h = (omega (arith, length-take 125 payload), All-take IsByte 125 payload h)
clip_lem false payload h = (omega arith, h)

pub clipped-nil : (op : Opcode) → clipped op [] ≡ []
clipped-nil op = ground arith

pub build-nil :
    (fin : Bool) (op : Opcode) (masked : Bool)
    → build fin op masked [] ≡ byte0_of fin op ∷ masked_bit masked 0 ∷ body_of masked []
unfolding build
build-nil fin op masked = rw (clipped-nil op) refl

module _ (size_max : ℕ) where
  -- The header.
  pub header_run :
      (f : ℕ) (fin : Bool) (op : Opcode) (masked : Bool) (k : ℕ) (tail : List ℕ)
      → op < 16
      → k < 128
      → parse_loop size_max (suc f) reset (byte0_of fin op ∷ masked_bit masked k ∷ tail)
        ≡ after_round (parse_loop size_max f) reset (byte0_of fin op ∷ masked_bit masked k ∷ tail) (
            if ltb k 126
            then next (start_payload (opened fin op masked) k) tail
            else if k == 126
            then next (record reset { state = extended_len16; frame = opened fin op masked }) tail
            else next (record reset { state = extended_len64; frame = opened fin op masked }) tail)
  header_run f fin op masked k tail ho hk =
      parse_loop-round size_max f reset _ (ground arith)
      ∙ ap
          (after_round (parse_loop size_max f) reset (byte0_of fin op ∷ masked_bit masked k ∷ tail))
          step
    where
      no_wait : ltb (length (byte0_of fin op ∷ masked_bit masked k ∷ tail)) 2 ≡ false
      no_wait = ground arith

      step : round size_max reset (byte0_of fin op ∷ masked_bit masked k ∷ tail) ≡ (
          if ltb k 126
          then next (start_payload (opened fin op masked) k) tail
          else if k == 126
          then next (record reset { state = extended_len16; frame = opened fin op masked }) tail
          else next (record reset { state = extended_len64; frame = opened fin op masked }) tail)
      step =
          unfold round in
          (rw (
            no_wait,
            (fin_bit fin op ho).0,
            (fin_bit fin op ho).1,
            (mask_bit masked k hk).0,
            (mask_bit masked k hk).1,
          ))

  -- The extended lengths.
  pub length16_run :
      (f : ℕ) (frame : WebSocketFrame) (n : ℕ) (tail : List ℕ)
      → n < 2 ^ 16
      → parse_loop size_max
          (suc f)
          (record reset { state = extended_len16; frame = frame })
          (bytes_of 2 n ++ tail)
        ≡ parse_loop size_max f (start_payload frame n) tail
  length16_run f frame n tail h =
      parse_loop-round size_max f p (bytes_of 2 n ++ tail) (ground (arith, long))
      ∙ ap (after_round (parse_loop size_max f) p (bytes_of 2 n ++ tail)) step
      ∙ (unfold after_round in refl)
    where
      p : WebSocketFrameParser
      p = record reset { state = extended_len16; frame = frame }

      size : length (bytes_of 2 n) ≡ 2
      size = length-bytes_of 2 n

      long : length (bytes_of 2 n ++ tail) ≡ 2 + length tail
      long = omega (arith, size, length-append (bytes_of 2 n) tail)

      no_wait : ltb (length (bytes_of 2 n ++ tail)) 2 ≡ false
      no_wait = ground (arith, long)

      value : big_endian 0 (bytes_of 2 n) ≡ n
      value = big_endian-bytes_of 2 0 n ∙ omega arith

      step : round size_max p (bytes_of 2 n ++ tail) ≡ next (start_payload frame n) tail
      step =
          unfold round in
          (rw (
            no_wait,
            take-append_exact (bytes_of 2 n) tail 2 (sym size),
            drop-append_exact (bytes_of 2 n) tail 2 (sym size),
            value,
          ))

  pub length64_run :
      (f : ℕ) (frame : WebSocketFrame) (n : ℕ) (tail : List ℕ)
      → n < 2 ^ 64
      → n ≤ size_max
      → parse_loop size_max
          (suc f)
          (record reset { state = extended_len64; frame = frame })
          (bytes_of 8 n ++ tail)
        ≡ parse_loop size_max f (start_payload frame n) tail
  length64_run f frame n tail h hs =
      parse_loop-round size_max f p (bytes_of 8 n ++ tail) (ground (arith, long))
      ∙ ap (after_round (parse_loop size_max f) p (bytes_of 8 n ++ tail)) step
      ∙ (unfold after_round in refl)
    where
      p : WebSocketFrameParser
      p = record reset { state = extended_len64; frame = frame }

      size : length (bytes_of 8 n) ≡ 8
      size = length-bytes_of 8 n

      long : length (bytes_of 8 n ++ tail) ≡ 8 + length tail
      long = omega (arith, size, length-append (bytes_of 8 n) tail)

      no_wait : ltb (length (bytes_of 8 n ++ tail)) 8 ≡ false
      no_wait = ground (arith, long)

      value : big_endian 0 (bytes_of 8 n) ≡ n
      value = big_endian-bytes_of 8 0 n ∙ omega arith

      fits : ltb size_max n ≡ false
      fits = ground arith

      step : round size_max p (bytes_of 8 n ++ tail) ≡ next (start_payload frame n) tail
      step =
          unfold round in
          (rw (
            no_wait,
            take-append_exact (bytes_of 8 n) tail 8 (sym size),
            drop-append_exact (bytes_of 8 n) tail 8 (sym size),
            value,
            fits,
          ))
