-- ===== src/WebSocket/Parser/Progress.antt =====
-- `Parse` ends: every round consumes its input or moves on to a later state.
use libnei.Common.{
  ℕ, zero, suc, ◌+◌, ◌-◌, ◌≤◌, ◌<◌, min, ◌≡◌, ◌≢◌, refl, sym, ap, ◌∙◌, ◌⊎◌, inl, inr, true, false,
  List, [], ◌∷◌, ◌++◌, Option, some, arith, ltb, Bool-cases, length, take, drop, length-append,
  length-take, length-drop, take_all, drop_all, dec_lt,
}
use libnei.WebSocket.Frame.{apply_mask, apply_mask_from}
use libnei.WebSocket.Parser.{
  after_round, State, header, extended_len16, extended_len64, mask, body, complete, error,
  WebSocketFrameParser, Round, wait, fail, next, read_payload, advance, round, goes_on, Outcome,
  stopped, failed, parse_loop, copy_at, needed, store_payload, finish_payload,
}

-- How many more states a call can reach.
abbrev pub rank : State → ℕ
rank header = 4
rank extended_len16 = 3
rank extended_len64 = 3
rank mask = 2
rank body = 1
rank complete = 0
rank error = 0

-- `payload_read_` never passes the end of the payload.
abbrev pub IsValid : WebSocketFrameParser → Type 0
IsValid p = p.payload_read ≤ length p.frame.payload

pub length-apply_mask :
    (key bytes : List ℕ) (i : ℕ) → length (apply_mask_from key i bytes) ≡ length bytes
unfolding apply_mask_from
length-apply_mask key [] i = refl
length-apply_mask key (b ∷ bytes) i = omega (arith, length-apply_mask key bytes (i + 1))

pub length-copy_at :
    (at : ℕ) (bytes buffer : List ℕ)
    → at + length bytes ≤ length buffer
    → length (copy_at at bytes buffer) ≡ length buffer
length-copy_at at bytes buffer h = omega (
  arith,
  length-append (take at buffer) (bytes ++ drop (at + length bytes) buffer),
  length-append bytes (drop (at + length bytes) buffer),
  length-take at buffer,
  length-drop (at + length bytes) buffer,
)

-- `case State::kPayload` with less input than the payload still wants.
pub read_payload_part :
    (p : WebSocketFrameParser) (input : List ℕ)
    → p.payload_read + length input < length p.frame.payload
    → read_payload p input ≡ next (store_payload p input) []
unfolding read_payload
read_payload_part p input h =
    let e : min (length p.frame.payload - p.payload_read) (length input) ≡ length input =
      omega arith in
    rw (e, take_all (length input) input (omega arith), drop_all (length input) input (omega arith))
      (ground (arith, length-copy_at p.payload_read input p.frame.payload))

-- The same with input enough.
pub read_payload_rest :
    (p : WebSocketFrameParser) (input : List ℕ) (n : ℕ)
    → IsValid p
    → n ≡ length p.frame.payload - p.payload_read
    → n ≤ length input
    → read_payload p input ≡ next (finish_payload (store_payload p (take n input))) (drop n input)
unfolding read_payload
read_payload_rest p input n v e h =
    let m : min (length p.frame.payload - p.payload_read) (length input) ≡ n = omega arith in
    rw m (
      ground
        (arith, length-take n input, length-copy_at p.payload_read (take n input) p.frame.payload))

-- What a round leaves: a valid parser, in a later state or with no input.
abbrev pub Progress : ℕ → Round → Type 0
Progress r wait = Unit {0}
Progress r (fail q) = Unit {0}
Progress r (next q rest) =
    IsValid q × ((rank q.state < r) ⊎ ((rank q.state ≤ r) × (r ≡ 1) × (rest ≡ [])))

pub IsValid-store :
    (p : WebSocketFrameParser) (bytes : List ℕ)
    → p.payload_read + length bytes ≤ length p.frame.payload
    → IsValid (store_payload p bytes)
unfolding store_payload
IsValid-store p bytes h = omega (arith, length-copy_at p.payload_read bytes p.frame.payload)

pub IsValid-finish : (p : WebSocketFrameParser) → IsValid p → IsValid (finish_payload p)
unfolding finish_payload apply_mask
IsValid-finish p v = ground (arith, length-apply_mask p.frame.masking_key p.frame.payload 0)

read_payload-Progress :
    (p : WebSocketFrameParser) (input : List ℕ)
    → IsValid p
    → p.state ≡ body
    → Progress 1 (read_payload p input)
read_payload-Progress p input v s =
    elim (dec_lt (p.payload_read + length input) (length p.frame.payload)) [
      | yes part ↦
          rw (read_payload_part p input part)
            (IsValid-store p input (omega arith), inr (stored, refl, refl))
      | no full ↦ rw (read_payload_rest p input _ v refl (omega arith)) (
        IsValid-finish _ (
            IsValid-store p _
              (omega (arith, length-take (length p.frame.payload - p.payload_read) input))),
        inl (finished _),
      )
    ]
  where
    stored : rank (store_payload p input).state ≤ 1
    stored = unfold store_payload in omega (arith, ap rank s)

    finished : (q : WebSocketFrameParser) → rank (finish_payload q).state < 1
    finished q = unfold finish_payload in omega arith

module _ (size_max : ℕ) where
  advance-Progress :
      (p : WebSocketFrameParser) (s : State) (bytes rest : List ℕ)
      → IsValid p
      → p.state ≡ s
      → s ≢ complete
      → s ≢ error
      → Progress (rank s) (advance size_max s p bytes rest)
  unfolding advance
  advance-Progress p header bytes rest v e nc ne = ground arith
  advance-Progress p extended_len16 bytes rest v e nc ne = ground arith
  advance-Progress p extended_len64 bytes rest v e nc ne = ground arith
  advance-Progress p mask bytes rest v e nc ne = ground arith
  advance-Progress p body bytes rest v e nc ne = read_payload-Progress p rest v e
  advance-Progress p complete bytes rest v e nc ne = absurd (nc refl)
  advance-Progress p error bytes rest v e nc ne = absurd (ne refl)

  pub round-Progress :
      (p : WebSocketFrameParser) (input : List ℕ)
      → IsValid p
      → goes_on p input ≡ true
      → Progress (rank p.state) (round size_max p input)
  unfolding round
  round-Progress p input v g = elim (Bool-cases (ltb (length input) (needed p.state))) [
    | inl short ↦ rw short tt
    | inr long ↦ rw long (
        advance-Progress p p.state (take n input) (drop n input) v refl (λ c. ground arith)
          (λ c. ground arith))
  ]
    where
      n : ℕ
      n = needed p.state

  pub parse_loop_stopped :
      (fuel : ℕ) (p : WebSocketFrameParser) (input : List ℕ)
      → goes_on p input ≡ false
      → parse_loop size_max fuel p input ≡ some (stopped p input)
  unfolding parse_loop
  parse_loop_stopped zero p input g = rw g
  parse_loop_stopped (suc fuel) p input g = rw g

  pub parse_loop-round :
      (fuel : ℕ) (p : WebSocketFrameParser) (input : List ℕ)
      → goes_on p input ≡ true
      → parse_loop size_max (suc fuel) p input
        ≡ after_round (parse_loop size_max fuel) p input (round size_max p input)
  unfolding parse_loop
  parse_loop-round fuel p input g = rw g

  -- Fuel that the loop cannot use up.
  abbrev Enough : ℕ → WebSocketFrameParser → List ℕ → Type 0
  Enough fuel p input = (rank p.state ≤ fuel) ⊎ (input ≡ [])

  Enough-zero :
      (p : WebSocketFrameParser) (input : List ℕ) → Enough 0 p input → goes_on p input ≡ false
  Enough-zero p input h = ground arith

  going-Enough :
      (fuel : ℕ) (p : WebSocketFrameParser) (input : List ℕ)
      → goes_on p input ≡ true
      → Enough fuel p input
      → rank p.state ≤ fuel
  going-Enough fuel p input g h = ground arith

  abbrev Ends : Option Outcome → Type 0
  Ends r = (o : Outcome) × (r ≡ some o)

  after_round-Ends :
      (loop : WebSocketFrameParser → List ℕ → Option Outcome) (fuel n : ℕ)
      (p : WebSocketFrameParser) (input : List ℕ) (r : Round)
      → n ≤ suc fuel
      → Progress n r
      → ((q : WebSocketFrameParser) (rest : List ℕ)
          → IsValid q
          → Enough fuel q rest
          → Ends (loop q rest))
      → Ends (after_round loop p input r)
  unfolding after_round
  after_round-Ends loop fuel n p input wait h s k = (stopped p input, refl)
  after_round-Ends loop fuel n p input (fail q) h s k = (failed q, refl)
  after_round-Ends loop fuel n p input (next q rest) h (v, inl lower) k =
      k q rest v (inl (omega arith))
  after_round-Ends loop fuel n p input (next q rest) h (v, inr (_, _, e)) k = k q rest v (inr e)

  pub parse_loop-Ends :
      (fuel : ℕ) (p : WebSocketFrameParser) (input : List ℕ)
      → IsValid p
      → Enough fuel p input
      → Ends (parse_loop size_max fuel p input)
  parse_loop-Ends zero p input v h =
      (stopped p input, parse_loop_stopped zero p input (Enough-zero p input h))
  parse_loop-Ends (suc fuel) p input v h = elim (Bool-cases (goes_on p input)) [
    | inl g ↦ rw (parse_loop-round fuel p input g) (
        after_round-Ends (parse_loop size_max fuel) fuel (rank p.state) p input _
          (going-Enough (suc fuel) p input g h) (round-Progress p input v g) (parse_loop-Ends fuel))
    | inr g ↦ (stopped p input, parse_loop_stopped (suc fuel) p input g)
  ]

  after_round_same :
      (loop loop' : WebSocketFrameParser → List ℕ → Option Outcome) (f g n : ℕ)
      (p : WebSocketFrameParser) (input : List ℕ) (r : Round)
      → n ≤ suc f
      → n ≤ suc g
      → Progress n r
      → ((q : WebSocketFrameParser) (rest : List ℕ)
          → IsValid q
          → Enough f q rest
          → Enough g q rest
          → loop q rest ≡ loop' q rest)
      → after_round loop p input r ≡ after_round loop' p input r
  unfolding after_round
  after_round_same loop loop' f g n p input wait hf hg s k = refl
  after_round_same loop loop' f g n p input (fail q) hf hg s k = refl
  after_round_same loop loop' f g n p input (next q rest) hf hg (v, inl lower) k =
      k q rest v (inl (omega arith)) (inl (omega arith))
  after_round_same loop loop' f g n p input (next q rest) hf hg (v, inr (_, _, e)) k =
      k q rest v (inr e) (inr e)

  -- More fuel changes nothing.
  pub parse_loop_same :
      (f g : ℕ) (p : WebSocketFrameParser) (input : List ℕ)
      → IsValid p
      → Enough f p input
      → Enough g p input
      → parse_loop size_max f p input ≡ parse_loop size_max g p input
  parse_loop_same zero g p input v hf hg =
      let e = Enough-zero p input hf in
      parse_loop_stopped zero p input e ∙ sym (parse_loop_stopped g p input e)
  parse_loop_same (suc f) zero p input v hf hg =
      let e = Enough-zero p input hg in
      parse_loop_stopped (suc f) p input e ∙ sym (parse_loop_stopped zero p input e)
  parse_loop_same (suc f) (suc g) p input v hf hg = elim (Bool-cases (goes_on p input)) [
    | inl go ↦
        rw (parse_loop-round f p input go, parse_loop-round g p input go)
          (after_round_same (parse_loop size_max f) (parse_loop size_max g) f g (rank p.state) p
            input _ (going-Enough (suc f) p input go hf) (going-Enough (suc g) p input go hg)
            (round-Progress p input v go) (parse_loop_same f g))
    | inr e ↦ parse_loop_stopped (suc f) p input e ∙ sym (parse_loop_stopped (suc g) p input e)
  ]
