-- ===== src/WebSocket/Parser/Chunks.antt =====
-- `Parse` on input that arrives in pieces.
use libnei.Common.{
  ℕ, zero, suc, ◌+◌, ◌-◌, ◌≤◌, ◌<◌, ◌≡◌, ◌≢◌, refl, sym, ap, ◌∙◌, inl, inr, true, false, List, [],
  ◌∷◌, ◌++◌, Option, none, some, arith, ltb, Bool-cases, length, take, drop, length-append,
  length-take, dec_lt, take-append_left, drop-append_left,
}
use libnei.WebSocket.Parser.{
  State, header, extended_len16, extended_len64, mask, body, complete, error, WebSocketFrameParser,
  Round, wait, fail, next, read_payload, advance, round, round_in, goes_on, Outcome, stopped,
  failed, parse_loop, needed, store_payload, finish_payload, after_round,
}
use libnei.WebSocket.Parser.Progress.{
  IsValid, IsValid-store, IsValid-finish, rank, Progress, round-Progress, read_payload_part,
  read_payload_rest, parse_loop_same, parse_loop-round, parse_loop_stopped,
}
use libnei.WebSocket.Parser.Rounds.{
  store_lem, read_payload-append, State-discrete, push, round-append,
}

module _ (size_max : ℕ) where
  -- What the loop does with more input, once it has stopped.
  abbrev pub continue : List ℕ → Option Outcome → Option Outcome
  continue ys none = none
  continue ys (some (stopped q rest)) = parse_loop size_max 5 q (rest ++ ys)
  continue ys (some (failed q)) = some (failed q)

  abbrev pub IsResumed : ℕ → WebSocketFrameParser → List ℕ → List ℕ → Type 0
  IsResumed f p xs ys =
      parse_loop size_max f p (xs ++ ys) ≡ continue ys (parse_loop size_max f p xs)

  pub rank-le : (s : State) → rank s ≤ 4
  rank-le header = omega arith
  rank-le extended_len16 = omega arith
  rank-le extended_len64 = omega arith
  rank-le mask = omega arith
  rank-le body = omega arith
  rank-le complete = omega arith
  rank-le error = omega arith

  to_five :
      (f : ℕ) (p : WebSocketFrameParser) (input : List ℕ)
      → IsValid p
      → rank p.state ≤ f
      → parse_loop size_max f p input ≡ parse_loop size_max 5 p input
  to_five f p input v h =
      parse_loop_same size_max f 5 p input v (inl h) (inl (omega (arith, rank-le p.state)))

  resume_stopped :
      (f : ℕ) (p : WebSocketFrameParser) (xs ys : List ℕ)
      → IsValid p
      → rank p.state ≤ f
      → parse_loop size_max f p xs ≡ some (stopped p xs)
      → IsResumed f p xs ys
  resume_stopped f p xs ys v h e = rw e (to_five f p (xs ++ ys) v h)

  pub round_body :
      (p : WebSocketFrameParser) (input : List ℕ)
      → p.state ≡ body
      → round size_max p input ≡ read_payload p input
  unfolding round
  round_body p input s =
      let no_wait : ltb (length input) 0 ≡ false = ground arith in
      ap (λ t. round_in size_max t p input) s ∙ rw no_wait

  same_round :
      (loop : WebSocketFrameParser → List ℕ → Option Outcome) (p p' : WebSocketFrameParser)
      (xs ys : List ℕ) (q : WebSocketFrameParser) (zs : List ℕ)
      → after_round loop p xs (read_payload q zs) ≡ after_round loop p' ys (read_payload q zs)
  unfolding after_round read_payload
  same_round loop p p' xs ys q zs = refl

  resume_part :
      (f : ℕ) (p : WebSocketFrameParser) (xs : List ℕ) (y : ℕ) (ys : List ℕ)
      → IsValid p
      → p.state ≡ body
      → goes_on p xs ≡ true
      → p.payload_read + length xs < length p.frame.payload
      → IsResumed (suc f) p xs (y ∷ ys)
  resume_part f p xs y ys v s g part =
      to_five (suc f) p (xs ++ (y ∷ ys)) v (omega (arith, ap rank s))
      ∙ parse_loop-round size_max 4 p (xs ++ (y ∷ ys)) (more g)
      ∙ ap (after_round (parse_loop size_max 4) p (xs ++ (y ∷ ys)))
          (round_body p _ s ∙ read_payload-append p xs (y ∷ ys) part)
      ∙ same_round (parse_loop size_max 4) p q _ (y ∷ ys) q (y ∷ ys)
      ∙ ap (after_round (parse_loop size_max 4) q (y ∷ ys)) (sym (round_body q _ (facts.2 ∙ s)))
      ∙ sym (parse_loop-round size_max 4 q (y ∷ ys) (ground (arith, facts.2 ∙ s)))
      ∙ sym (ap (continue (y ∷ ys)) stop)
    where
      q : WebSocketFrameParser
      q = store_payload p xs

      facts :
          ((store_payload p xs).payload_read ≡ p.payload_read + length xs)
          × (length (store_payload p xs).frame.payload ≡ length p.frame.payload)
          × ((store_payload p xs).state ≡ p.state)
      facts = store_lem p xs (omega arith)

      more : goes_on p xs ≡ true → goes_on p (xs ++ (y ∷ ys)) ≡ true
      more g = ground (arith, length-append xs (y ∷ ys))

      stop : parse_loop size_max (suc f) p xs ≡ some (stopped q [])
      stop =
          parse_loop-round size_max f p xs g
          ∙ ap (after_round (parse_loop size_max f) p xs)
              (round_body p xs s ∙ read_payload_part p xs part)
          ∙ (unfold after_round in parse_loop_stopped size_max f q [] (ground arith))

  -- A round that leaves the loop less to do than `f` rounds can.
  abbrev Lower : ℕ → Round → Type 0
  Lower f wait = ⊥
  Lower f (fail q) = Unit {0}
  Lower f (next q rest) = IsValid q × (rank q.state ≤ f)

  abbrev IsResumedBelow : ℕ → List ℕ → Type 0
  IsResumedBelow f ys =
      (q : WebSocketFrameParser) (rest : List ℕ)
      → IsValid q
      → rank q.state ≤ f
      → IsResumed f q rest ys

  resume_after :
      (f : ℕ) (p : WebSocketFrameParser) (xs ys : List ℕ) (r : Round)
      → Lower f r
      → IsResumedBelow f ys
      → after_round (parse_loop size_max f) p (xs ++ ys) (push ys r)
        ≡ continue ys (after_round (parse_loop size_max f) p xs r)
  unfolding after_round
  resume_after f p xs ys wait h ih = absurd h
  resume_after f p xs ys (fail q) h ih = refl
  resume_after f p xs ys (next q rest) (v, h) ih = ih q rest v h

  resume_push :
      (f : ℕ) (p : WebSocketFrameParser) (xs ys : List ℕ)
      → goes_on p xs ≡ true
      → round size_max p (xs ++ ys) ≡ push ys (round size_max p xs)
      → Lower f (round size_max p xs)
      → IsResumedBelow f ys
      → IsResumed (suc f) p xs ys
  resume_push f p xs ys g e h ih =
      parse_loop-round size_max f p (xs ++ ys) more
      ∙ ap (after_round (parse_loop size_max f) p (xs ++ ys)) e
      ∙ resume_after f p xs ys (round size_max p xs) h ih
      ∙ sym (ap (continue ys) (parse_loop-round size_max f p xs g))
    where
      more : goes_on p (xs ++ ys) ≡ true
      more = ground (arith, length-append xs ys)

  resume_full :
      (f : ℕ) (p : WebSocketFrameParser) (xs ys : List ℕ)
      → IsValid p
      → p.state ≡ body
      → goes_on p xs ≡ true
      → length p.frame.payload - p.payload_read ≤ length xs
      → IsResumedBelow f ys
      → IsResumed (suc f) p xs ys
  resume_full f p xs ys v s g full ih =
      resume_push f p xs ys g
        (round_body p (xs ++ ys) s
          ∙ read_payload_rest p (xs ++ ys) n v refl (omega (arith, length-append xs ys))
          ∙ (rw (take-append_left n xs ys full, drop-append_left n xs ys full))
          ∙ sym (ap (push ys) whole))
        (rw whole
          (IsValid-finish _ (IsValid-store p (take n xs) (omega (arith, length-take n xs))), done))
        ih
    where
      n : ℕ
      n = length p.frame.payload - p.payload_read

      whole : round size_max p xs ≡ next (finish_payload (store_payload p (take n xs))) (drop n xs)
      whole = round_body p xs s ∙ read_payload_rest p xs n v refl full

      done : rank (finish_payload (store_payload p (take n xs))).state ≤ f
      done = unfold finish_payload in omega arith

  advance-ne-wait :
      (s : State) (p : WebSocketFrameParser) (bytes rest : List ℕ)
      → advance size_max s p bytes rest ≢ wait
  unfolding advance
  advance-ne-wait header p bytes rest = λ e. ground arith
  advance-ne-wait extended_len16 p bytes rest = λ e. ground arith
  advance-ne-wait extended_len64 p bytes rest = λ e. ground arith
  advance-ne-wait mask p bytes rest = λ e. ground arith
  advance-ne-wait body p bytes rest = λ e. ground arith
  advance-ne-wait complete p bytes rest = λ e. ground arith
  advance-ne-wait error p bytes rest = λ e. ground arith

  round-ne-wait :
      (p : WebSocketFrameParser) (xs : List ℕ)
      → needed p.state ≤ length xs
      → round size_max p xs ≢ wait
  unfolding round
  round-ne-wait p xs long =
      let no_wait : ltb (length xs) (needed p.state) ≡ false = ground arith in
      rw no_wait (advance-ne-wait p.state p _ _)

  rank-one : (s : State) → rank s ≡ 1 → s ≡ body
  rank-one s e = ground arith

  resume_other :
      (f : ℕ) (p : WebSocketFrameParser) (xs ys : List ℕ)
      → IsValid p
      → p.state ≢ body
      → rank p.state ≤ suc f
      → goes_on p xs ≡ true
      → needed p.state ≤ length xs
      → IsResumedBelow f ys
      → IsResumed (suc f) p xs ys
  resume_other f p xs ys v nb h g long ih =
      resume_push f p xs ys g (round-append size_max p xs ys nb long)
        (lower (round size_max p xs) refl (round-Progress size_max p xs v g)) ih
    where
      lower : (r : Round) → round size_max p xs ≡ r → Progress (rank p.state) r → Lower f r
      lower wait e pr = absurd (round-ne-wait p xs long e)
      lower (fail q) e pr = tt
      lower (next q rest) e (vq, inl l) = (vq, omega arith)
      lower (next q rest) e (vq, inr (l, one, _)) = absurd (nb (rank-one p.state one))

  resume_body :
      (f : ℕ) (p : WebSocketFrameParser) (xs : List ℕ) (y : ℕ) (ys : List ℕ)
      → IsValid p
      → p.state ≡ body
      → goes_on p xs ≡ true
      → IsResumedBelow f (y ∷ ys)
      → IsResumed (suc f) p xs (y ∷ ys)
  resume_body f p xs y ys v s g ih =
      elim (dec_lt (p.payload_read + length xs) (length p.frame.payload)) [
        | yes part ↦ resume_part f p xs y ys v s g part
        | no full ↦ resume_full f p xs (y ∷ ys) v s g (omega arith) ih
      ]

  pub round_short :
      (p : WebSocketFrameParser) (xs : List ℕ)
      → length xs < needed p.state
      → round size_max p xs ≡ wait
  unfolding round
  round_short p xs h = let e : ltb (length xs) (needed p.state) ≡ true = ground arith in rw e

  resume_short :
      (f : ℕ) (p : WebSocketFrameParser) (xs ys : List ℕ)
      → IsValid p
      → rank p.state ≤ suc f
      → goes_on p xs ≡ true
      → length xs < needed p.state
      → IsResumed (suc f) p xs ys
  resume_short f p xs ys v h g short = resume_stopped (suc f) p xs ys v h (
      parse_loop-round size_max f p xs g
      ∙ (rw (round_short p xs short) (unfold after_round in refl)))

  -- The loop on a longer input is the loop on its front, and then on what that left with the rest.
  pub parse_loop-append :
      (f : ℕ) (p : WebSocketFrameParser) (xs : List ℕ) (y : ℕ) (ys : List ℕ)
      → IsValid p
      → rank p.state ≤ f
      → IsResumed f p xs (y ∷ ys)
  parse_loop-append zero p xs y ys v h =
      resume_stopped zero p xs (y ∷ ys) v h (parse_loop_stopped size_max zero p xs (ground arith))
  parse_loop-append (suc f) p xs y ys v h = elim (Bool-cases (goes_on p xs)) [
    | inr g ↦ resume_stopped (suc f) p xs (y ∷ ys) v h (parse_loop_stopped size_max (suc f) p xs g)
    | inl g ↦ elim (dec_lt (length xs) (needed p.state)) [
      | yes short ↦ resume_short f p xs (y ∷ ys) v h g short
      | no long ↦ elim (State-discrete p.state body) [
        | yes s ↦
            resume_body f p xs y ys v s g (λ q rest vq hq. parse_loop-append f q rest y ys vq hq)
        | no ns ↦
            resume_other f p xs (y ∷ ys) v ns h g (omega arith)
              (λ q rest vq hq. parse_loop-append f q rest y ys vq hq)
      ]
    ]
  ]
