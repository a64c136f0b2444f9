-- ===== src/WebSocket/Parser/Calls.antt =====
-- What a call of `Parse` promises: it returns, it consumes a front of its input, and it makes no
-- difference how the input is cut into calls.
use mathlib.Core.Option
use libnei.Common.{
  ℕ, ◌+◌, ◌-◌, ◌≤◌, ◌≡◌, ◌≢◌, refl, sym, ap, ◌∙◌, true, false, List, ◌∷◌, ◌++◌, Option, none, some,
  arith, Bool-cases, if◌then◌else◌, ◌⊎◌, inl, inr, length, drop, length-append,
}
use libnei.WebSocket.Parser.{
  State, complete, error, WebSocketFrameParser, is_error, is_frame_complete, Outcome, stopped,
  failed, parse_loop, Parsed, consumed, rejected, returned, parse_in, parse,
}
use libnei.WebSocket.Parser.Progress.{IsValid, parse_loop-Ends, parse_loop_stopped}
use libnei.WebSocket.Parser.Consumed.{IsKept, parse_loop-IsKept, IsSuffix, suffix_length}
use libnei.WebSocket.Parser.Chunks.{parse_loop-append, rank-le, IsResumed, continue}

-- Bytes consumed by an earlier call count too.
abbrev pub later : ℕ → Parsed → Parsed
later n (consumed m) = consumed (n + m)
later n rejected = rejected

module _ (size_max : ℕ) where
  parse_in_running :
      (s : State) (p : WebSocketFrameParser) (input : List ℕ)
      → s ≢ error
      → s ≢ complete
      → parse_in size_max s p input ≡ Option.map (returned input) (parse_loop size_max 5 p input)
  unfolding parse_in
  parse_in_running error p input ne nc = absurd (ne refl)
  parse_in_running complete p input ne nc = absurd (nc refl)
  parse_in_running _ p input ne nc = refl

  -- `Parse` runs its loop unless the frame is complete or broken.
  pub parse_running :
      (p : WebSocketFrameParser) (input : List ℕ)
      → is_error p ≡ false
      → is_frame_complete p ≡ false
      → parse size_max p input ≡ Option.map (returned input) (parse_loop size_max 5 p input)
  unfolding parse
  parse_running p input ne nc =
      parse_in_running p.state p input (λ e. ground arith) (λ e. ground arith)

  parse_cases :
      (p : WebSocketFrameParser) (input : List ℕ)
      → IsValid p
      → is_error p ≡ false
      → is_frame_complete p ≡ false
      → (o : Outcome) × (parse_loop size_max 5 p input ≡ some o)
        × (parse size_max p input ≡ some (returned input o))
        × IsKept input o
  parse_cases p input v ne nc =
      let (o, e) =
        parse_loop-Ends size_max 5 p input v (inl (omega (arith, rank-le size_max p.state))) in
      (o, e, parse_running p input ne nc ∙ (rw e), parse_loop-IsKept size_max 5 p input o v ne e)

  -- The parser's state of a parser that runs, has an error, or is complete.
  state_cases :
      (p : WebSocketFrameParser)
      → (p.state ≡ error)
        ⊎ (p.state ≡ complete)
        ⊎ ((is_error p ≡ false) × (is_frame_complete p ≡ false))
  state_cases p = ground arith

  -- A call that has been made, and the rest of the input after it.
  abbrev pub and_then :
      List ℕ
      → List ℕ
      → Option (WebSocketFrameParser × Parsed)
      → Option (WebSocketFrameParser × Parsed)
  and_then xs ys none = none
  and_then xs ys (some (q, rejected)) = some (q, rejected)
  and_then xs ys (some (q, consumed n)) =
      if is_frame_complete q
      then some (q, consumed n)
      else Option.map (λ r. (r.0, later n r.1)) (parse size_max q (drop n xs ++ ys))

  parse_error :
      (p : WebSocketFrameParser) (input : List ℕ)
      → p.state ≡ error
      → parse size_max p input ≡ some (p, rejected)
  unfolding parse
  parse_error p input e = ap (λ s. parse_in size_max s p input) e ∙ (unfold parse_in in refl)

  parse_complete :
      (p : WebSocketFrameParser) (input : List ℕ)
      → p.state ≡ complete
      → parse size_max p input ≡ some (p, consumed 0)
  unfolding parse
  parse_complete p input e = ap (λ s. parse_in size_max s p input) e ∙ (unfold parse_in in refl)

  later-returned :
      (q : WebSocketFrameParser) (xs rest ys : List ℕ) (o : Outcome)
      → length rest ≤ length xs
      → IsKept (rest ++ ys) o
      → (returned (xs ++ ys) o)
        ≡ ((returned (rest ++ ys) o).0, later (length xs - length rest) (returned (rest ++ ys) o).1)
  later-returned q xs rest ys (failed p) h k = refl
  later-returned q xs rest ys (stopped p rest') h (_, _, s) =
      let (_, le) = suffix_length rest' (rest ++ ys) s in
      ap (λ n. (p, consumed n)) (omega (arith, length-append xs ys, length-append rest ys))

  stopped_chunks :
      (q : WebSocketFrameParser) (xs rest ys : List ℕ)
      → IsValid q
      → is_error q ≡ false
      → IsSuffix rest xs
      → Option.map (returned (xs ++ ys)) (parse_loop size_max 5 q (rest ++ ys))
        ≡ and_then xs ys (some (q, consumed (length xs - length rest)))
  stopped_chunks q xs rest ys v ne s =
      let (e, le) = suffix_length rest xs s in
      elim (Bool-cases (is_frame_complete q)) [
        | inl c ↦
            rw (c, parse_loop_stopped size_max 5 q (rest ++ ys) (ground arith))
              (ap (λ n. some (q, consumed n))
                (omega (arith, length-append xs ys, length-append rest ys)))
        | inr nc ↦
            let (o, run, call, k) = parse_cases q (rest ++ ys) v ne nc in
            rw (nc, ← e, run, call) (ap some (later-returned q xs rest ys o le k))
      ]

  running_chunks :
      (p : WebSocketFrameParser) (xs : List ℕ) (y : ℕ) (ys : List ℕ) (o : Outcome)
      → IsValid p
      → is_error p ≡ false
      → is_frame_complete p ≡ false
      → parse_loop size_max 5 p xs ≡ some o
      → IsKept xs o
      → parse size_max p (xs ++ (y ∷ ys)) ≡ and_then xs (y ∷ ys) (some (returned xs o))
  running_chunks p xs y ys (failed q) v ne nc e k =
      parse_running p _ ne nc
      ∙ ap (Option.map (returned (xs ++ (y ∷ ys)))) (joined ∙ ap (continue size_max (y ∷ ys)) e)
    where
      joined : IsResumed size_max 5 p xs (y ∷ ys)
      joined = parse_loop-append size_max 5 p xs y ys v (omega (arith, rank-le size_max p.state))
  running_chunks p xs y ys (stopped q rest) v ne nc e (vq, nq, s) =
      parse_running p _ ne nc
      ∙ ap (Option.map (returned (xs ++ (y ∷ ys)))) (joined ∙ ap (continue size_max (y ∷ ys)) e)
      ∙ stopped_chunks q xs rest (y ∷ ys) vq nq s
    where
      joined : IsResumed size_max 5 p xs (y ∷ ys)
      joined = parse_loop-append size_max 5 p xs y ys v (omega (arith, rank-le size_max p.state))

  -- A call of `Parse` on a valid parser and `xs` followed by at least one more byte is the call on `xs`
  -- and, unless that completed the frame or rejected it, a call of the parser that it left on what it had
  -- not consumed and the further bytes; the counts of consumed bytes add up.
  pub parse_chunks :
      (p : WebSocketFrameParser) (xs : List ℕ) (y : ℕ) (ys : List ℕ)
      → IsValid p
      → parse size_max p (xs ++ (y ∷ ys)) ≡ and_then xs (y ∷ ys) (parse size_max p xs)
  parse_chunks p xs y ys v = elim (state_cases p) [
    | inl e ↦ rw (parse_error p xs e, parse_error p (xs ++ (y ∷ ys)) e)
    | inr (inl c) ↦
        let done : is_frame_complete p ≡ true = ground arith in
        rw (parse_complete p xs c, parse_complete p (xs ++ (y ∷ ys)) c, done)
    | inr (inr (ne, nc)) ↦
        let (o, run, call, k) = parse_cases p xs v ne nc in
        running_chunks p xs y ys o v ne nc run k ∙ ap (and_then xs (y ∷ ys)) (sym call)
  ]

  -- `Parse` returns on every input, of a valid parser in any state: its loop never runs out of fuel.
  -- A count that it returns is at most the length of the input, and the parser stays valid.
  pub parse_returns :
      (p : WebSocketFrameParser) (input : List ℕ)
      → IsValid p
      → (q : WebSocketFrameParser) × (r : Parsed) × (parse size_max p input ≡ some (q, r))
        × ((r ≡ rejected) ⊎ ((n : ℕ) × (r ≡ consumed n) × (n ≤ length input) × IsValid q))
  parse_returns p input v = elim (state_cases p) [
    | inl e ↦ (p, rejected, parse_error p input e, inl refl)
    | inr (inl c) ↦ (p, consumed 0, parse_complete p input c, inr (0, refl, omega arith, v))
    | inr (inr (ne, nc)) ↦
        let (o, run, call, k) = parse_cases p input v ne nc in
        ((returned input o).0, (returned input o).1, call, bounds o k)
  ]
    where
      bounds :
          (o : Outcome)
          → IsKept input o
          → (((returned input o).1 ≡ rejected)
              ⊎ ((n : ℕ) × ((returned input o).1 ≡ consumed n)
                  × (n ≤ length input)
                  × IsValid (returned input o).0))
      bounds (failed q) k = inl refl
      bounds (stopped q rest) (vq, _, s) = inr (_, refl, omega arith, vq)
