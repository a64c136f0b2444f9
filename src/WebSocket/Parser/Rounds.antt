-- ===== src/WebSocket/Parser/Rounds.antt =====
-- One round of `Parse` on input that arrives in pieces.
use mathlib.Core.List.{append_assoc}
use libnei.Common.{
  ℕ, ◌+◌, ◌-◌, ◌≤◌, ◌<◌, ◌≡◌, ◌≢◌, refl, sym, ap, ◌∙◌, false, List, [], ◌++◌, arith, ltb, length,
  take, drop, length-append, length-take, dec_lt, take-append_left, drop-append_left,
  take-append_right, drop-append_right, take-append_exact, drop-drop,
}
use libnei.WebSocket.Parser.{
  State, header, extended_len16, extended_len64, mask, body, complete, error, WebSocketFrameParser,
  Round, wait, fail, next, read_payload, advance, round, copy_at, needed, store_payload,
}
use libnei.WebSocket.Parser.Progress.{read_payload_part, read_payload_rest, length-copy_at}

copy_at_twice :
    (at : ℕ) (xs ys buffer : List ℕ)
    → at + length xs + length ys ≤ length buffer
    → copy_at (at + length xs) ys (copy_at at xs buffer) ≡ copy_at at (xs ++ ys) buffer
copy_at_twice at xs ys buffer h =
    rw
      (
        ← append_assoc (take at buffer) xs (drop (at + length xs) buffer),
        front,
        back,
        append_assoc,
        append_assoc,
      )
      (ap (λ n. take at buffer ++ (xs ++ (ys ++ drop n buffer)))
        (omega (arith, length-append xs ys)))
  where
    head : ℕ
    head = at + length xs

    len : head ≡ length (take at buffer ++ xs)
    len = omega (arith, length-append (take at buffer) xs, length-take at buffer)

    front : take head ((take at buffer ++ xs) ++ drop head buffer) ≡ take at buffer ++ xs
    front = take-append_exact (take at buffer ++ xs) (drop head buffer) head len

    back :
        drop (head + length ys) ((take at buffer ++ xs) ++ drop head buffer)
        ≡ drop (head + length ys) buffer
    back =
        drop-append_right (head + length ys) (take at buffer ++ xs) (drop head buffer)
          (omega (arith, len))
        ∙ drop-drop head _ buffer
        ∙ ap (λ n. drop n buffer) (omega (arith, len))

store_twice :
    (p : WebSocketFrameParser) (xs ys : List ℕ)
    → p.payload_read + length xs + length ys ≤ length p.frame.payload
    → store_payload (store_payload p xs) ys ≡ store_payload p (xs ++ ys)
unfolding store_payload
store_twice p xs ys h =
    ground (arith, copy_at_twice p.payload_read xs ys p.frame.payload, length-append xs ys)

pub store_lem :
    (p : WebSocketFrameParser) (bytes : List ℕ)
    → p.payload_read + length bytes ≤ length p.frame.payload
    → ((store_payload p bytes).payload_read ≡ p.payload_read + length bytes)
      × (length (store_payload p bytes).frame.payload ≡ length p.frame.payload)
      × ((store_payload p bytes).state ≡ p.state)
unfolding store_payload
store_lem p bytes h = (refl, length-copy_at p.payload_read bytes p.frame.payload h, refl)

-- A payload that comes in two pieces.
pub read_payload-append :
    (p : WebSocketFrameParser) (xs ys : List ℕ)
    → p.payload_read + length xs < length p.frame.payload
    → read_payload p (xs ++ ys) ≡ read_payload (store_payload p xs) ys
read_payload-append p xs ys h =
    let facts = store_lem p xs (omega arith) in
    let more = length-append xs ys in
    elim (dec_lt (p.payload_read + length (xs ++ ys)) (length p.frame.payload)) [
      | yes part ↦
          read_payload_part p (xs ++ ys) part
          ∙ ap (λ q. next q []) (sym (store_twice p xs ys (omega arith)))
          ∙ sym (read_payload_part (store_payload p xs) ys (omega arith))
      | no full ↦
          let n = length p.frame.payload - p.payload_read in
          let m = n - length xs in
          read_payload_rest p (xs ++ ys) n (omega arith) refl (omega arith)
          ∙ (rw (
            take-append_right n xs ys (omega arith),
            drop-append_right n xs ys (omega arith),
            ← store_twice p xs (take m ys) (omega (arith, length-take m ys)),
          ))
          ∙ sym (
              read_payload_rest (store_payload p xs) ys m (omega arith) (omega arith) (omega arith))
    ]

pub State-discrete : Discrete State
State-discrete = hlevel

abbrev pub push : List ℕ → Round → Round
push ys wait = wait
push ys (fail q) = fail q
push ys (next q rest) = next q (rest ++ ys)

module _ (size_max : ℕ) where
  -- Every other round looks at its own bytes only.
  advance-append :
      (p : WebSocketFrameParser) (s : State) (bytes rest ys : List ℕ)
      → s ≢ body
      → advance size_max s p bytes (rest ++ ys) ≡ push ys (advance size_max s p bytes rest)
  unfolding advance
  advance-append p header bytes rest ys h = ground arith
  advance-append p extended_len16 bytes rest ys h = refl
  advance-append p extended_len64 bytes rest ys h = ground arith
  advance-append p mask bytes rest ys h = refl
  advance-append p body bytes rest ys h = absurd (h refl)
  advance-append p complete bytes rest ys h = refl
  advance-append p error bytes rest ys h = refl

  pub round-append :
      (p : WebSocketFrameParser) (xs ys : List ℕ)
      → p.state ≢ body
      → needed p.state ≤ length xs
      → round size_max p (xs ++ ys) ≡ push ys (round size_max p xs)
  unfolding round
  round-append p xs ys h long =
      let n = needed p.state in
      let short = length-append xs ys in
      let no_wait : ltb (length xs) n ≡ false = ground arith in
      let no_wait' : ltb (length (xs ++ ys)) n ≡ false = ground (arith, short) in
      rw (no_wait, no_wait', take-append_left n xs ys long, drop-append_left n xs ys long)
        (advance-append p p.state (take n xs) (drop n xs) ys h)
