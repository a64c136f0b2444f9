-- ===== src/Utils/Tests.antt =====
-- Runs of the utilities on concrete inputs, and the theorems at concrete inputs.
use libnei.Common.{ℕ, ◌≤◌, ◌≡◌, refl, false, List, [], ◌∷◌, none, arith, length, All, IsByte}
use libnei.Utils.Base64.{
  success, invalid_arg, invalid_input, output_too_small, bytes, null, finished, failed,
  base64_encode, base64_decode, base64_decoded_max_length, base64_encoded_length, base64_value,
  padding,
}
use libnei.Utils.Base64.RoundTrip.{base64_decode-base64_encode}
use libnei.Utils.Base64.Outcomes.{IsReported, base64_decode_lem}

-- "Man!" is "TWFuIQ==".
abbrev sample : List ℕ
sample = 0x4d ∷ 0x61 ∷ 0x6e ∷ 0x21 ∷ []

abbrev sample_text : List ℕ
sample_text = 0x54 ∷ 0x57 ∷ 0x46 ∷ 0x75 ∷ 0x49 ∷ 0x51 ∷ 0x3d ∷ 0x3d ∷ []

sample_encoded : base64_encode (bytes sample) false 8 ≡ finished sample_text
unfolding base64_encode base64_encoded_length
sample_encoded = refl

-- A wrong character in the second group: the first group is in the output.
wrong_character :
    base64_decode (bytes (0x54 ∷ 0x57 ∷ 0x46 ∷ 0x75 ∷ 0x49 ∷ 0x21 ∷ 0x3d ∷ 0x3d ∷ [])) false 4
    ≡ failed invalid_input (0x4d ∷ 0x61 ∷ 0x6e ∷ [])
unfolding base64_decode base64_decoded_max_length
wrong_character = refl

no_input : base64_decode (null 4) false 8 ≡ failed invalid_arg []
unfolding base64_decode
no_input = refl

sample-IsByte : All IsByte sample
sample-IsByte = (omega arith, (omega arith, (omega arith, (omega arith, tt))))

sample_fits : base64_encoded_length 4 ≤ 8
unfolding base64_encoded_length
sample_fits = omega arith

base64_decode-base64_encode_example :
    ((base64_encode (bytes sample) false 8).status ≡ success)
    × (base64_decode (bytes (base64_encode (bytes sample) false 8).written) false 4
        ≡ finished sample)
base64_decode-base64_encode_example =
    base64_decode-base64_encode sample 8 4 sample-IsByte sample_fits (omega arith)

base64_decode_lem_example :
    ((base64_decode (bytes sample_text) false 3).out_len ≡ none)
    × (length (base64_decode (bytes sample_text) false 3).written ≤ 3)
    × IsReported (base64_decode (bytes sample_text) false 3)
    × ((base64_decode (bytes sample_text) false 3).status ≡ output_too_small)
unfolding base64_value padding
base64_decode_lem_example = base64_decode_lem sample_text false 3
