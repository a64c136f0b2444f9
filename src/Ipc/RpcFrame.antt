-- ===== src/Ipc/RpcFrame.antt =====
-- The frames of an RpcEndpoint (src/neixx/ipc/rpc_endpoint.cpp): a type, an id of eight bytes and the
-- payload. A null buffer is none.
use libnei.Common.{
  ℕ, ◌+◌, ◌*◌, ◌/◌, ◌%◌, ◌^◌, ◌<◌, ◌≡◌, ap, ◌∙◌, bit_or, Option, none, some, List, [], ◌∷◌, ◌++◌,
  arith, get_or, drop, length, ltb, false,
}
use libnei.Common.Bits.Fields.{bit_or_sum_right}

abbrev pub one_way : ℕ
one_way = 0

abbrev pub request : ℕ
request = 1

abbrev pub response : ℕ
response = 2

abbrev pub rpc_header_size : ℕ
rpc_header_size = 9

-- `WriteUint64LE` and `ReadUint64LE`
abbrev pub write_uint64_le : ℕ → List ℕ
write_uint64_le value =
    value % 256
    ∷ value / 2 ^ 8 % 256
    ∷ value / 2 ^ 16 % 256
    ∷ value / 2 ^ 24 % 256
    ∷ value / 2 ^ 32 % 256
    ∷ value / 2 ^ 40 % 256
    ∷ value / 2 ^ 48 % 256
    ∷ value / 2 ^ 56 % 256
    ∷ []

pub read_uint64_le : List ℕ → ℕ
read_uint64_le src =
    let low = bit_or (bit_or (get_or src 0 0) (get_or src 1 0 * 2 ^ 8)) (get_or src 2 0 * 2 ^ 16) in
    let middle = bit_or (bit_or low (get_or src 3 0 * 2 ^ 24)) (get_or src 4 0 * 2 ^ 32) in
    let high = bit_or (bit_or middle (get_or src 5 0 * 2 ^ 40)) (get_or src 6 0 * 2 ^ 48) in
    bit_or high (get_or src 7 0 * 2 ^ 56)

abbrev pub bytes_of : Option (List ℕ) → List ℕ
bytes_of none = []
bytes_of (some bytes) = bytes

-- A payload of no bytes is a null buffer.
abbrev pub payload_of : List ℕ → Option (List ℕ)
payload_of [] = none
payload_of (b ∷ bytes) = some (b ∷ bytes)

unfoldable pub build_rpc_frame : ℕ → ℕ → Option (List ℕ) → List ℕ
build_rpc_frame type request_id payload = type ∷ (write_uint64_le request_id ++ bytes_of payload)

pub record RpcMessage : Type 0 where
  pub type : ℕ
  pub request_id : ℕ
  pub payload : Option (List ℕ)

-- Of a buffer of rpc_header_size bytes or more.
unfoldable pub parse_rpc_frame : List ℕ → RpcMessage
unfolding read_uint64_le
parse_rpc_frame buf = record {
  type = get_or buf 0 0;
  request_id = read_uint64_le (drop 1 buf);
  payload = payload_of (drop rpc_header_size buf);
}

-- Eight bytes as digits.
digits_sum :
    (a b c d e f g h : ℕ)
    → a < 256
    → b < 256
    → c < 256
    → d < 256
    → e < 256
    → f < 256
    → g < 256
    → read_uint64_le (a ∷ b ∷ c ∷ d ∷ e ∷ f ∷ g ∷ h ∷ [])
      ≡ h * 2 ^ 56
        + (g * 2 ^ 48 + (f * 2 ^ 40 + (e * 2 ^ 32 + (d * 2 ^ 24 + (c * 2 ^ 16 + (b * 2 ^ 8 + a))))))
unfolding read_uint64_le
digits_sum a b c d e f g h la lb lc ld le lf lg =
    let s1 = b * 2 ^ 8 + a in
    let s2 = c * 2 ^ 16 + s1 in
    let s3 = d * 2 ^ 24 + s2 in
    let s4 = e * 2 ^ 32 + s3 in
    let s5 = f * 2 ^ 40 + s4 in
    let s6 = g * 2 ^ 48 + s5 in
    rw (bit_or_sum_right 8 b a (omega arith)) (
      rw (bit_or_sum_right 16 c s1 (omega arith)) (
        rw (bit_or_sum_right 24 d s2 (omega arith)) (
          rw (bit_or_sum_right 32 e s3 (omega arith)) (
            rw (bit_or_sum_right 40 f s4 (omega arith)) (
              rw (bit_or_sum_right 48 g s5 (omega arith))
                (bit_or_sum_right 56 h s6 (omega arith)))))))

read-write_uint64_le :
    (value : ℕ) (rest : List ℕ)
    → value < 2 ^ 64
    → read_uint64_le (write_uint64_le value ++ rest) ≡ value
unfolding read_uint64_le
read-write_uint64_le value rest h =
    digits_sum (value % 256) (value / 2 ^ 8 % 256) (value / 2 ^ 16 % 256) (value / 2 ^ 24 % 256)
      (value / 2 ^ 32 % 256) (value / 2 ^ 40 % 256) (value / 2 ^ 48 % 256) (value / 2 ^ 56 % 256)
      (omega arith) (omega arith) (omega arith) (omega arith) (omega arith) (omega arith)
      (omega arith)
    ∙ omega arith

pub parse-build_rpc_frame :
    (type request_id : ℕ) (payload : Option (List ℕ))
    → request_id < 2 ^ 64
    → parse_rpc_frame (build_rpc_frame type request_id payload)
      ≡ record { type = type; request_id = request_id; payload = payload_of (bytes_of payload) }
unfolding parse_rpc_frame build_rpc_frame
parse-build_rpc_frame type request_id payload h =
    ap
      (λ (i : ℕ).
        let m : RpcMessage = record {
          type = type;
          request_id = i;
          payload = payload_of (bytes_of payload);
        } in
        m)
      (read-write_uint64_le request_id (bytes_of payload) h)

pub build_rpc_frame-long :
    (type request_id : ℕ) (payload : Option (List ℕ))
    → ltb (length (build_rpc_frame type request_id payload)) rpc_header_size ≡ false
unfolding build_rpc_frame
build_rpc_frame-long type request_id payload = ground arith
