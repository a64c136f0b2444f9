-- ===== src/Utils/Base64.antt =====
-- Base64 (src/nei/utils/base64.c). A call's arguments are the input, a pointer with its length, and
-- the capacity of the output, whose pointer may be NULL; what a call leaves behind are its status,
-- the bytes that it wrote through `out`, from the first on, and what it stores through `out_len`.
pub mod Values
pub mod RoundTrip
pub mod Padding
pub mod Groups
pub mod Outcomes
use libnei.Common.{
  ℕ, ◌+◌, ◌-◌, ◌*◌, ◌/◌, ◌%◌, ◌^◌, bit_and, bit_or, not, Bool, true, false, ◌&&◌, ◌||◌, List, [],
  ◌∷◌, ◌++◌, Option, none, some, ltb, leb, ◌==◌, if◌then◌else◌, length, get_or,
}

-- NEI_BASE64_OK and the errors.
pub data Status : Type 0 where
  success invalid_arg invalid_input output_too_small : Status

-- `input` and `input_len`.
pub data Input : Type 0 where
  null : ℕ → Input
  bytes : List ℕ → Input

pub record Outcome : Type 0 where
  pub status : Status
  pub written : List ℕ
  pub out_len : Option ℕ

abbrev pub failed : Status → List ℕ → Outcome
failed s w = record { status = s; written = w; out_len = none }

abbrev pub finished : List ℕ → Outcome
finished w = record { status = success; written = w; out_len = some (length w) }

abbrev pub equals : ℕ
equals = 0x3d

abbrev between : ℕ → ℕ → ℕ → Bool
between first last c = leb first c && leb c last

-- `nei_base64_value`, where `none` is -1.
unfoldable pub base64_value : ℕ → Option ℕ
base64_value c =
    if between 0x41 0x5a c
    then some (c - 0x41)
    else if between 0x61 0x7a c
    then some (c - 0x61 + 26)
    else if between 0x30 0x39 c
    then some (c - 0x30 + 52)
    else if c == 0x2b
    then some 62
    else if c == 0x2f
    then some 63
    else none

-- A `size_t`.
abbrev pub size_mod : ℕ
size_mod = 2 ^ 64

unfoldable pub base64_encoded_length : ℕ → ℕ
base64_encoded_length input_len = (input_len + 2) % size_mod / 3 * 4 % size_mod

unfoldable pub base64_decoded_max_length : ℕ → ℕ
base64_decoded_max_length input_len = input_len / 4 * 3

-- "ABC…Zabc…z0123456789+/"
abbrev pub enc_table : List ℕ
enc_table =
    0x41 ∷ 0x42 ∷ 0x43 ∷ 0x44 ∷ 0x45 ∷ 0x46 ∷ 0x47 ∷ 0x48 ∷ 0x49 ∷ 0x4a ∷ 0x4b ∷ 0x4c ∷ 0x4d ∷ 0x4e
    ∷ 0x4f ∷ 0x50 ∷ 0x51 ∷ 0x52 ∷ 0x53 ∷ 0x54 ∷ 0x55 ∷ 0x56 ∷ 0x57 ∷ 0x58 ∷ 0x59 ∷ 0x5a ∷ 0x61
    ∷ 0x62 ∷ 0x63 ∷ 0x64 ∷ 0x65 ∷ 0x66 ∷ 0x67 ∷ 0x68 ∷ 0x69 ∷ 0x6a ∷ 0x6b ∷ 0x6c ∷ 0x6d ∷ 0x6e
    ∷ 0x6f ∷ 0x70 ∷ 0x71 ∷ 0x72 ∷ 0x73 ∷ 0x74 ∷ 0x75 ∷ 0x76 ∷ 0x77 ∷ 0x78 ∷ 0x79 ∷ 0x7a ∷ 0x30
    ∷ 0x31 ∷ 0x32 ∷ 0x33 ∷ 0x34 ∷ 0x35 ∷ 0x36 ∷ 0x37 ∷ 0x38 ∷ 0x39 ∷ 0x2b ∷ 0x2f ∷ []

-- `s_enc_table[(v >> shift) & 0x3F]`
pub digit : ℕ → ℕ → ℕ
digit v shift = get_or enc_table (bit_and (v / 2 ^ shift) 0x3f) 0

-- The three bytes of a group, in 24 bits.
abbrev pub group : ℕ → ℕ → ℕ → ℕ
group a b c = bit_or (bit_or (a * 2 ^ 16) (b * 2 ^ 8)) c

-- The loop and the rest after it: `i + 3 <= input_len`, then one or two bytes.
pub encode_loop : List ℕ → List ℕ
unfolding digit
encode_loop [] = []
encode_loop (a ∷ []) =
    let v = bit_or (a * 2 ^ 16) (0 * 2 ^ 8) in digit v 18 ∷ digit v 12 ∷ equals ∷ equals ∷ []
encode_loop (a ∷ b ∷ []) =
    let v = bit_or (a * 2 ^ 16) (b * 2 ^ 8) in digit v 18 ∷ digit v 12 ∷ digit v 6 ∷ equals ∷ []
encode_loop (a ∷ b ∷ c ∷ input) =
    let v = group a b c in digit v 18 ∷ digit v 12 ∷ digit v 6 ∷ digit v 0 ∷ encode_loop input

-- The function behind the test of the input pointer.
encode_bytes : List ℕ → Bool → ℕ → Outcome
unfolding encode_loop
encode_bytes input out_is_null out_cap =
    let need = base64_encoded_length (length input) in
    if out_is_null && not (need == 0)
    then failed invalid_arg []
    else if ltb out_cap need
    then failed output_too_small []
    else finished (encode_loop input)

unfoldable pub base64_encode : Input → Bool → ℕ → Outcome
unfolding encode_bytes
base64_encode (null input_len) out_is_null out_cap =
    if not (input_len == 0) then failed invalid_arg [] else encode_bytes [] out_is_null out_cap
base64_encode (bytes input) out_is_null out_cap = encode_bytes input out_is_null out_cap

-- The first byte of a group, `(uint8_t)((v0 << 2) | (v1 >> 4))`, and the two after it.
abbrev pub first_byte : ℕ → ℕ → ℕ
first_byte v0 v1 = bit_or (v0 * 2 ^ 2) (v1 / 2 ^ 4) % 256

abbrev pub second_byte : ℕ → ℕ → ℕ
second_byte v1 v2 = bit_or (bit_and v1 0x0f * 2 ^ 4) (v2 / 2 ^ 2) % 256

abbrev pub third_byte : ℕ → ℕ → ℕ
third_byte v2 v3 = bit_or (bit_and v2 0x03 * 2 ^ 6) v3 % 256

-- A group whose third character is not `=`.
abbrev pub decode_tail : ℕ → ℕ → ℕ → ℕ → Bool → Option (List ℕ)
decode_tail v0 v1 v2 c3 is_last =
    if c3 == equals
    then if is_last then some (first_byte v0 v1 ∷ second_byte v1 v2 ∷ []) else none
    else elim (base64_value c3) [
      | none ↦ none
      | some v3 ↦ some (first_byte v0 v1 ∷ second_byte v1 v2 ∷ third_byte v2 v3 ∷ [])
    ]

-- A group whose first two characters have values.
abbrev pub decode_pair : ℕ → ℕ → ℕ → ℕ → Bool → Option (List ℕ)
decode_pair v0 v1 c2 c3 is_last =
    if c2 == equals
    then if not is_last || not (c3 == equals) then none else some (first_byte v0 v1 ∷ [])
    else elim (base64_value c2) [ none ↦ none | some v2 ↦ decode_tail v0 v1 v2 c3 is_last ]

-- One round of the loop of `nei_base64_decode`: the bytes that it writes, `none` where it returns
-- NEI_BASE64_ERR_INVALID_INPUT, before it writes any.
pub decode_group : ℕ → ℕ → ℕ → ℕ → Bool → Option (List ℕ)
unfolding base64_value
decode_group c0 c1 c2 c3 is_last = elim (base64_value c0) [
  | none ↦ none
  | some v0 ↦ elim (base64_value c1) [ none ↦ none | some v1 ↦ decode_pair v0 v1 c2 c3 is_last ]
]

abbrev pub is_empty : List ℕ → Bool
is_empty [] = true
is_empty (c ∷ cs) = false

-- The loop, behind the bytes that it has written. The length is a multiple of 4: no round reads past
-- the end, and the last clause is not reached.
pub decode_loop : List ℕ → List ℕ → Outcome
unfolding decode_group
decode_loop out [] = finished out
decode_loop out (c0 ∷ c1 ∷ c2 ∷ c3 ∷ input) = elim (decode_group c0 c1 c2 c3 (is_empty input)) [
  | none ↦ failed invalid_input out
  | some bs ↦ decode_loop (out ++ bs) input
]
decode_loop out input = finished out

-- The `=` at the end, two at most.
unfoldable pub padding : List ℕ → ℕ
padding input =
    if not (length input == 0) && get_or input (length input - 1) 0 == equals
    then if ltb 1 (length input) && get_or input (length input - 2) 0 == equals then 2 else 1
    else 0

-- The function behind the test of the input pointer.
decode_bytes : List ℕ → Bool → ℕ → Outcome
unfolding decode_loop padding
decode_bytes input out_is_null out_cap =
    if out_is_null && not (length input == 0)
    then failed invalid_arg []
    else if not (length input % 4 == 0)
    then failed invalid_input []
    else if ltb out_cap (base64_decoded_max_length (length input) - padding input)
    then failed output_too_small []
    else decode_loop [] input

unfoldable pub base64_decode : Input → Bool → ℕ → Outcome
unfolding decode_bytes
base64_decode (null input_len) out_is_null out_cap =
    if not (input_len == 0) then failed invalid_arg [] else decode_bytes [] out_is_null out_cap
base64_decode (bytes input) out_is_null out_cap = decode_bytes input out_is_null out_cap
