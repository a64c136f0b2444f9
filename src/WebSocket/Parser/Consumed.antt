-- ===== src/WebSocket/Parser/Consumed.antt =====
-- What `Parse` has consumed when it returns: a front of the input, and never more.
use libnei.Common.{
  ℕ, zero, suc, ◌+◌, ◌-◌, ◌≤◌, ◌≡◌, ◌≢◌, refl, sym, ap, ◌∙◌, inl, inr, false, List, some, arith,
  ltb, Bool-cases, length, drop, length-drop, drop_all, dec_le, drop-drop,
}
use mathlib.Core.Path.{subst}
use libnei.WebSocket.Parser.{
  State, header, extended_len16, extended_len64, mask, body, complete, error, WebSocketFrameParser,
  Round, wait, fail, next, read_payload, advance, round, goes_on, is_error, Outcome, stopped,
  failed, parse_loop, needed, after_round,
}
use libnei.WebSocket.Parser.Progress.{
  IsValid, rank, Progress, round-Progress, parse_loop-round, parse_loop_stopped,
}

abbrev pub IsSuffix : List ℕ → List ℕ → Type 0
IsSuffix rest input = (k : ℕ) × (rest ≡ drop k input)

suffix_trans : (xs ys zs : List ℕ) → IsSuffix xs ys → IsSuffix ys zs → IsSuffix xs zs
suffix_trans xs ys zs (k, e) (m, e') = (m + k, e ∙ ap (drop k) e' ∙ drop-drop m k zs)

-- A suffix is what is left after as many bytes as it is shorter.
pub suffix_length :
    (rest input : List ℕ)
    → IsSuffix rest input
    → (rest ≡ drop (length input - length rest) input) × (length rest ≤ length input)
suffix_length rest input (k, e) =
    let n = ap length e ∙ length-drop k input in
    elim (dec_le k (length input)) [
      | yes h ↦ (e ∙ ap (λ j. drop j input) (omega arith), omega arith)
      | no h ↦ (
        e
            ∙ drop_all k input (omega arith)
            ∙ sym (drop_all (length input - length rest) input (omega arith)),
        omega arith,
      )
    ]

-- A round leaves a suffix of its input, and no error unless it fails.
abbrev Kept : List ℕ → Round → Type 0
Kept input wait = Unit {0}
Kept input (fail q) = Unit {0}
Kept input (next q rest) = (is_error q ≡ false) × IsSuffix rest input

read_payload-Kept :
    (p : WebSocketFrameParser) (input : List ℕ)
    → is_error p ≡ false
    → Kept input (read_payload p input)
unfolding read_payload
read_payload-Kept p input ne = (ground arith, (_, refl))

-- The other rounds leave all that follows their own bytes.
abbrev Same : List ℕ → Round → Type 0
Same input wait = Unit {0}
Same input (fail q) = Unit {0}
Same input (next q rest) = (is_error q ≡ false) × (rest ≡ input)

Same-Kept : (input : List ℕ) (r : Round) → Same input r → Kept input r
Same-Kept input wait h = tt
Same-Kept input (fail q) h = tt
Same-Kept input (next q rest) (ne, e) = (ne, (0, e))

Kept-trans : (input rest : List ℕ) (r : Round) → IsSuffix rest input → Kept rest r → Kept input r
Kept-trans input rest wait s h = tt
Kept-trans input rest (fail q) s h = tt
Kept-trans input rest (next q rest') s (ne, s') = (ne, suffix_trans rest' rest input s' s)

-- What the loop returns.
abbrev pub IsKept : List ℕ → Outcome → Type 0
IsKept input (stopped q rest) = IsValid q × (is_error q ≡ false) × IsSuffix rest input
IsKept input (failed q) = Unit {0}

IsKept-trans :
    (input rest : List ℕ) (o : Outcome) → IsSuffix rest input → IsKept rest o → IsKept input o
IsKept-trans input rest (stopped q rest') s (v, ne, s') =
    (v, ne, suffix_trans rest' rest input s' s)
IsKept-trans input rest (failed q) s h = tt

module _ (size_max : ℕ) where
  advance-Same :
      (s : State) (p : WebSocketFrameParser) (bytes rest : List ℕ)
      → s ≢ body
      → is_error p ≡ false
      → Same rest (advance size_max s p bytes rest)
  unfolding advance
  advance-Same header p bytes rest nb ne = ground arith
  advance-Same extended_len16 p bytes rest nb ne = ground arith
  advance-Same extended_len64 p bytes rest nb ne = ground arith
  advance-Same mask p bytes rest nb ne = (refl, refl)
  advance-Same body p bytes rest nb ne = absurd (nb refl)
  advance-Same complete p bytes rest nb ne = (ne, refl)
  advance-Same error p bytes rest nb ne = (ne, refl)

  advance-Kept :
      (s : State) (p : WebSocketFrameParser) (bytes rest : List ℕ)
      → is_error p ≡ false
      → Kept rest (advance size_max s p bytes rest)
  advance-Kept body p bytes rest ne = unfold advance in read_payload-Kept p rest ne
  advance-Kept s p bytes rest ne =
      Same-Kept rest _ (advance-Same s p bytes rest (λ e. ground arith) ne)

  round-Kept :
      (p : WebSocketFrameParser) (input : List ℕ)
      → is_error p ≡ false
      → Kept input (round size_max p input)
  unfolding round
  round-Kept p input ne = elim (Bool-cases (ltb (length input) (needed p.state))) [
    | inl short ↦ rw short tt
    | inr long ↦
        rw long (Kept-trans input _ _ (needed p.state, refl) (advance-Kept p.state p _ _ ne))
  ]

  after_round-IsKept :
      (f : ℕ) (p : WebSocketFrameParser) (input : List ℕ) (o : Outcome) (r : Round) (n : ℕ)
      → IsValid p
      → is_error p ≡ false
      → Progress n r
      → Kept input r
      → ((q : WebSocketFrameParser) (rest : List ℕ)
          → IsValid q
          → is_error q ≡ false
          → parse_loop size_max f q rest ≡ some o
          → IsKept rest o)
      → after_round (parse_loop size_max f) p input r ≡ some o
      → IsKept input o
  unfolding after_round
  after_round-IsKept f p input o wait n v ne pr k ih e =
      let same : stopped p input ≡ o = cc in subst (IsKept input) same (v, ne, (0, refl))
  after_round-IsKept f p input o (fail q) n v ne pr k ih e =
      let same : failed q ≡ o = cc in subst (IsKept input) same tt
  after_round-IsKept f p input o (next q rest) n v ne (vq, _) (nq, s) ih e =
      IsKept-trans input rest o s (ih q rest vq nq e)

  stays_IsKept :
      (f : ℕ) (p : WebSocketFrameParser) (input : List ℕ) (o : Outcome)
      → IsValid p
      → is_error p ≡ false
      → goes_on p input ≡ false
      → parse_loop size_max f p input ≡ some o
      → IsKept input o
  stays_IsKept f p input o v ne g e =
      let same : stopped p input ≡ o = cc (parse_loop_stopped size_max f p input g) in
      subst (IsKept input) same (v, ne, (0, refl))

  pub parse_loop-IsKept :
      (f : ℕ) (p : WebSocketFrameParser) (input : List ℕ) (o : Outcome)
      → IsValid p
      → is_error p ≡ false
      → parse_loop size_max f p input ≡ some o
      → IsKept input o
  parse_loop-IsKept zero p input o v ne e = elim (Bool-cases (goes_on p input)) [
    | inl g ↦ absurd (unfold parse_loop in ground (arith, e, g))
    | inr g ↦ stays_IsKept zero p input o v ne g e
  ]
  parse_loop-IsKept (suc f) p input o v ne e = elim (Bool-cases (goes_on p input)) [
    | inl g ↦
        after_round-IsKept f p input o (round size_max p input) (rank p.state) v ne
          (round-Progress size_max p input v g) (round-Kept p input ne)
          (λ q rest vq nq e'. parse_loop-IsKept f q rest o vq nq e')
          (sym (parse_loop-round size_max f p input g) ∙ e)
    | inr g ↦ stays_IsKept (suc f) p input o v ne g e
  ]
