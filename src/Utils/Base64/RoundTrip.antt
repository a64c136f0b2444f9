-- ===== src/Utils/Base64/RoundTrip.antt =====
-- `nei_base64_decode` after `nei_base64_encode`.
use mathlib.Core.List.{append_assoc, append-nil}
use libnei.Common.{
  ℕ, ◌+◌, ◌-◌, ◌*◌, ◌/◌, ◌%◌, ◌^◌, ◌≤◌, ◌<◌, ◌≡◌, refl, ap, sym, ◌∙◌, bit_or, Bool, true, false,
  List, [], ◌∷◌, ◌++◌, none, some, arith, ltb, ◌==◌, length, All, IsByte,
}
use libnei.Utils.Base64.{
  success, invalid_input, bytes, Outcome, finished, failed, equals, base64_encoded_length,
  base64_decoded_max_length, digit, group, encode_loop, base64_encode, first_byte, second_byte,
  third_byte, decode_group, is_empty, decode_loop, padding, base64_decode,
}
use libnei.Utils.Base64.Padding.{length-encode_loop, decoded_length}
use libnei.Utils.Base64.Values.{
  char, base64_value-char, char-plain, digit-18, digit-12, digit-6, digit-0, first_byte_back,
  second_byte_back, third_byte_back, short_group,
}

-- A group of four characters of values, and the two that end in `=`.
module _ (v0 v1 : ℕ) (h0 : v0 < 64) (h1 : v1 < 64) where
  group_of_one : decode_group (char v0) (char v1) equals equals true ≡ some (first_byte v0 v1 ∷ [])
  unfolding decode_group
  group_of_one = rw (decode_group, base64_value-char v0 h0, base64_value-char v1 h1) refl

  module _ (v2 : ℕ) (h2 : v2 < 64) where
    group_of_two :
        decode_group (char v0) (char v1) (char v2) equals true
        ≡ some (first_byte v0 v1 ∷ second_byte v1 v2 ∷ [])
    unfolding decode_group
    group_of_two =
        rw
          (
            decode_group,
            base64_value-char v0 h0,
            base64_value-char v1 h1,
            base64_value-char v2 h2,
            char-plain v2 h2,
          )
          refl

    group_of_three :
        (v3 : ℕ) (last : Bool)
        → v3 < 64
        → decode_group (char v0) (char v1) (char v2) (char v3) last
          ≡ some (first_byte v0 v1 ∷ second_byte v1 v2 ∷ third_byte v2 v3 ∷ [])
    unfolding decode_group
    group_of_three v3 last h3 =
        rw
          (
            decode_group,
            base64_value-char v0 h0,
            base64_value-char v1 h1,
            base64_value-char v2 h2,
            base64_value-char v3 h3,
            char-plain v2 h2,
            char-plain v3 h3,
          )
          refl

-- What the encoder writes for a group, and for the one or two bytes at the end.
module _ (a b : ℕ) (ha : IsByte a) (hb : IsByte b) where
  encode_one :
      encode_loop (a ∷ []) ≡ char (a / 4) ∷ char (a % 4 * 16 + 0 / 16) ∷ equals ∷ equals ∷ []
  unfolding encode_loop
  encode_one =
      let zeros : bit_or (a * 2 ^ 16) (0 * 2 ^ 8) ≡ group a 0 0 = short_group a 0 (omega arith) in
      let byte_0 : IsByte 0 = omega arith in
      cc (
        ap (λ v. digit v 18) zeros ∙ digit-18 a 0 0 ha byte_0 byte_0,
        ap (λ v. digit v 12) zeros ∙ digit-12 a 0 0 ha byte_0 byte_0,
      )

  encode_two :
      encode_loop (a ∷ b ∷ [])
      ≡ char (a / 4) ∷ char (a % 4 * 16 + b / 16) ∷ char (b % 16 * 4 + 0 / 64) ∷ equals ∷ []
  unfolding encode_loop
  encode_two =
      let zeros : bit_or (a * 2 ^ 16) (b * 2 ^ 8) ≡ group a b 0 = short_group a b hb in
      let byte_0 : IsByte 0 = omega arith in
      cc (
        ap (λ v. digit v 18) zeros ∙ digit-18 a b 0 ha hb byte_0,
        ap (λ v. digit v 12) zeros ∙ digit-12 a b 0 ha hb byte_0,
        ap (λ v. digit v 6) zeros ∙ digit-6 a b 0 ha hb byte_0,
      )

  encode_three :
      (c : ℕ) (input : List ℕ)
      → IsByte c
      → encode_loop (a ∷ b ∷ c ∷ input)
        ≡ char (a / 4)
          ∷ char (a % 4 * 16 + b / 16)
          ∷ char (b % 16 * 4 + c / 64)
          ∷ char (c % 64)
          ∷ encode_loop input
  unfolding encode_loop
  encode_three c input hc = cc (
    digit-18 a b c ha hb hc,
    digit-12 a b c ha hb hc,
    digit-6 a b c ha hb hc,
    digit-0 a b c ha hb hc,
  )

decode_step :
    (out : List ℕ) (c0 c1 c2 c3 : ℕ) (input bs : List ℕ)
    → decode_group c0 c1 c2 c3 (is_empty input) ≡ some bs
    → decode_loop out (c0 ∷ c1 ∷ c2 ∷ c3 ∷ input) ≡ decode_loop (out ++ bs) input
unfolding decode_loop
decode_step out c0 c1 c2 c3 input bs e =
    ap (λ o. elim o [ none ↦ failed invalid_input out | some bs ↦ decode_loop (out ++ bs) input ]) e

-- The bytes of a group come back.
module _ (a b c : ℕ) (ha : IsByte a) (hb : IsByte b) (hc : IsByte c) where
  abbrev v1 : ℕ
  v1 = a % 4 * 16 + b / 16

  abbrev v2 : ℕ
  v2 = b % 16 * 4 + c / 64

  one_back : decode_group (char (a / 4)) (char v1) equals equals true ≡ some (a ∷ [])
  one_back =
      group_of_one (a / 4) v1 (omega arith) (omega arith)
      ∙ ap (λ x. some (x ∷ [])) (first_byte_back a b c ha hb hc)

  two_back : decode_group (char (a / 4)) (char v1) (char v2) equals true ≡ some (a ∷ b ∷ [])
  two_back =
      group_of_two (a / 4) v1 (omega arith) (omega arith) v2 (omega arith)
      ∙ cc (first_byte_back a b c ha hb hc, second_byte_back a b c ha hb hc)

  three_back :
      (last : Bool)
      → decode_group (char (a / 4)) (char v1) (char v2) (char (c % 64)) last ≡ some (a ∷ b ∷ c ∷ [])
  three_back last =
      group_of_three (a / 4) v1 (omega arith) (omega arith) v2 (omega arith) (c % 64) last
        (omega arith)
      ∙ cc (
        first_byte_back a b c ha hb hc,
        second_byte_back a b c ha hb hc,
        third_byte_back a b c ha hb hc,
      )

decode_loop-encode_loop :
    (out input : List ℕ)
    → All IsByte input
    → decode_loop out (encode_loop input) ≡ finished (out ++ input)
decode_loop-encode_loop out [] h =
    unfold decode_loop encode_loop in ap finished (sym (append-nil out))
decode_loop-encode_loop out (a ∷ []) h =
    let (ha, _) = h in
    ap (decode_loop out) (encode_one a 0 ha (omega arith))
    ∙ decode_step out _ _ _ _ [] (a ∷ []) (one_back a 0 0 ha (omega arith) (omega arith))
    ∙ (unfold decode_loop in refl)
decode_loop-encode_loop out (a ∷ b ∷ []) h =
    let (ha, (hb, _)) = h in
    ap (decode_loop out) (encode_two a b ha hb)
    ∙ decode_step out _ _ _ _ [] (a ∷ b ∷ []) (two_back a b 0 ha hb (omega arith))
    ∙ (unfold decode_loop in refl)
decode_loop-encode_loop out (a ∷ b ∷ c ∷ input) h =
    let (ha, (hb, (hc, rest))) = h in
    ap (decode_loop out) (encode_three a b ha hb c input hc)
    ∙ decode_step out _ _ _ _ (encode_loop input) (a ∷ b ∷ c ∷ [])
        (three_back a b c ha hb hc (is_empty (encode_loop input)))
    ∙ decode_loop-encode_loop (out ++ a ∷ b ∷ c ∷ []) input rest
    ∙ ap finished (append_assoc out (a ∷ b ∷ c ∷ []) input)

encode_succeeds :
    (input : List ℕ) (out_cap : ℕ)
    → base64_encoded_length (length input) ≤ out_cap
    → base64_encode (bytes input) false out_cap ≡ finished (encode_loop input)
unfolding base64_encode
encode_succeeds input out_cap h = ground arith

decode_succeeds :
    (input : List ℕ) (out_cap : ℕ)
    → All IsByte input
    → length input ≤ out_cap
    → base64_decode (bytes (encode_loop input)) false out_cap ≡ finished input
unfolding base64_decode base64_decoded_max_length
decode_succeeds input out_cap h fits =
    let text = encode_loop input in
    let whole : (length text % 4 == 0) ≡ true = ground (arith, length-encode_loop input) in
    let roomy : ltb out_cap (length text / 4 * 3 - padding text) ≡ false =
      ground (arith, decoded_length input) in
    rw (whole, roomy) (decode_loop-encode_loop [] input h)

-- Bytes that fit a buffer, encoded and decoded into outputs that are large enough, come back, and
-- both calls succeed.
pub base64_decode-base64_encode :
    (input : List ℕ) (out_cap back_cap : ℕ)
    → All IsByte input
    → base64_encoded_length (length input) ≤ out_cap
    → length input ≤ back_cap
    → let encoded = base64_encode (bytes input) false out_cap in
      (encoded.status ≡ success)
      × (base64_decode (bytes encoded.written) false back_cap ≡ finished input)
base64_decode-base64_encode input out_cap back_cap h fits back_fits =
    let done = encode_succeeds input out_cap fits in
    (
      ap (λ (o : Outcome). o.status) done,
      ap (λ (o : Outcome). base64_decode (bytes o.written) false back_cap) done
          ∙ decode_succeeds input back_cap h back_fits,
    )
