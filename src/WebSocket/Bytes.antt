-- ===== src/WebSocket/Bytes.antt =====
-- The bytes of a frame: big-endian numbers, the flags of the first two bytes, the mask.
use native.Mathlib.Nat.{div-div-eq-div-mul, div-add-mod', pow-suc}
use libnei.Common.{
  ℕ, zero, suc, ◌+◌, ◌*◌, ◌/◌, ◌%◌, ◌^◌, ◌<◌, bit_and, ◌≡◌, refl, ap, ◌∙◌, Bool, true, false, not,
  List, [], ◌∷◌, arith, ◌==◌, length, get_or, All, IsByte, get_or-IsByte,
}
use libnei.Common.Bits.{bit_and-0x7f, bit_and-0x80, bit_and-0x0f, bit_or-0x80, bit_xor_twice}
use libnei.WebSocket.Frame.{Opcode, apply_mask_from}
use libnei.WebSocket.Builder.{bytes_of, byte0_of, masked_bit}
use libnei.WebSocket.Parser.{big_endian}

-- A digit and the digits below it.
digit_split : (v q : ℕ) → v / q % 256 * q + v % q ≡ v % (q * 256)
digit_split v q = omega (
  arith,
  div-add-mod' v q,
  div-add-mod' v (q * 256),
  ap (λ (t : ℕ). t * q) (div-add-mod' (v / q) 256),
  ap (λ (t : ℕ). t * (q * 256)) (div-div-eq-div-mul v q 256),
)

-- `bytes_of` writes the big-endian digits that the parser adds up.
pub big_endian-bytes_of :
    (n acc v : ℕ) → big_endian acc (bytes_of n v) ≡ acc * 256 ^ n + v % 256 ^ n
unfolding big_endian bytes_of
big_endian-bytes_of zero acc v = omega arith
big_endian-bytes_of (suc n) acc v =
    big_endian-bytes_of n (acc * 256 + v / 256 ^ n % 256) v
    ∙ omega (
      arith,
      digit_split v (256 ^ n),
      pow-suc 256 n,
      ap (λ (t : ℕ). acc * t) (pow-suc 256 n),
      ap (λ (t : ℕ). v % t) (pow-suc 256 n),
    )

pub length-bytes_of : (n v : ℕ) → length (bytes_of n v) ≡ n
unfolding bytes_of
length-bytes_of zero v = refl
length-bytes_of (suc n) v = ap suc (length-bytes_of n v)

-- The first two bytes.
pub fin_bit :
    (fin : Bool) (op : Opcode)
    → op < 16
    → (not (bit_and (byte0_of fin op) 0x80 == 0) ≡ fin) × (bit_and (byte0_of fin op) 0x0f ≡ op)
fin_bit true op h =
    rw
      (
        bit_or-0x80 op (omega arith),
        bit_and-0x80 (op + 128) (omega arith),
        bit_and-0x0f (op + 128) (omega arith),
      )
      (ground arith, omega arith)
fin_bit false op h =
    rw (bit_and-0x80 op (omega arith), bit_and-0x0f op (omega arith)) (ground arith, omega arith)

pub mask_bit :
    (masked : Bool) (k : ℕ)
    → k < 128
    → (not (bit_and (masked_bit masked k) 0x80 == 0) ≡ masked)
      × (bit_and (masked_bit masked k) 0x7f ≡ k)
mask_bit true k h =
    rw
      (
        bit_or-0x80 k (omega arith),
        bit_and-0x80 (k + 128) (omega arith),
        bit_and-0x7f (k + 128) (omega arith),
      )
      (ground arith, omega arith)
mask_bit false k h =
    rw (bit_and-0x80 k (omega arith), bit_and-0x7f k (omega arith)) (ground arith, omega arith)

pub bytes_of-IsByte : (n v : ℕ) → All IsByte (bytes_of n v)
unfolding bytes_of
bytes_of-IsByte zero v = tt
bytes_of-IsByte (suc n) v = (omega arith, bytes_of-IsByte n v)

-- Masking is its own inverse.
pub apply_mask_twice :
    (key : List ℕ) (i : ℕ) (bytes : List ℕ)
    → All IsByte key
    → All IsByte bytes
    → apply_mask_from key i (apply_mask_from key i bytes) ≡ bytes
unfolding apply_mask_from
apply_mask_twice key i [] hk hb = refl
apply_mask_twice key i (b ∷ bytes) hk hb =
    rw (bit_xor_twice b (get_or key (i % 4) 0) hb.0 (get_or-IsByte key (i % 4) hk))
      (ap (◌∷◌ b) (apply_mask_twice key (i + 1) bytes hk hb.1))
