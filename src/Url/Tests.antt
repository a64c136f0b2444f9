-- ===== src/Url/Tests.antt =====
-- Runs of the URL code on concrete texts, and the theorems at concrete inputs.
use libnei.Common.{ℕ, ◌≡◌, refl, List, [], ◌∷◌, arith, All, IsByte}
use libnei.Url.Encoding.{url_encode, url_encode_query, url_decode}
use libnei.Url.Encoding.RoundTrip.{decode-encode}

-- "a b+", in UTF-8 behind it "é".
abbrev sample : List ℕ
sample = 0x61 ∷ 0x20 ∷ 0x62 ∷ 0x2b ∷ 0xc3 ∷ 0xa9 ∷ []

sample-IsByte : All IsByte sample
sample-IsByte =
    (omega arith, (omega arith, (omega arith, (omega arith, (omega arith, (omega arith, tt))))))

sample_query :
    url_encode_query sample
    ≡ 0x61 ∷ 0x2b ∷ 0x62 ∷ 0x25 ∷ 0x32 ∷ 0x42 ∷ 0x25 ∷ 0x43 ∷ 0x33 ∷ 0x25 ∷ 0x41 ∷ 0x39 ∷ []
unfolding url_encode_query
sample_query = refl

-- "100%": a `%` that starts no escape stands for itself.
lone_percent : url_decode (0x31 ∷ 0x30 ∷ 0x30 ∷ 0x25 ∷ []) ≡ 0x31 ∷ 0x30 ∷ 0x30 ∷ 0x25 ∷ []
unfolding url_decode
lone_percent = refl

decode-encode_example :
    (url_decode (url_encode sample) ≡ sample) × (url_decode (url_encode_query sample) ≡ sample)
decode-encode_example = decode-encode sample sample-IsByte
