-- ===== src/Url/Parser/Ports.antt =====
-- A port that is written as a number is read as it.
use native.Mathlib.Nat.{pow-suc}
use libnei.Common.{
  ℕ, zero, suc, ◌+◌, ◌-◌, ◌*◌, ◌/◌, ◌%◌, ◌^◌, ◌<◌, ◌≡◌, refl, ap, ◌∙◌, Bool, true, false, [], ◌∷◌,
  ◌++◌, arith, ltb, ◌==◌, min, length, All, Text, Bool-cases, inl, inr,
}
use libnei.Url.Chars.{
  is, is_digit, is_space, ends_host, digits_value, strtol_from, digits, to_string,
}
use libnei.Url.Parser.Searches.{Fails}
use libnei.Url.Parser.Composed.{IsPort}

abbrev AllDigits : Text → Type 0
AllDigits s = All (λ c. is_digit c ≡ true) s

-- The value of digits behind a value.
abbrev value_of : ℕ → Text → ℕ
value_of v [] = v
value_of v (c ∷ s) = value_of (v * 10 + (c - b'0')) s

digits_value_all :
    (v : ℕ) (ds zs : Text)
    → AllDigits ds
    → digits_value v (ds ++ (b'/' ∷ zs)) ≡ (value_of v ds, length ds)
unfolding digits_value
digits_value_all v [] zs h = refl
digits_value_all v (d ∷ ds) zs h = rw (h.0, digits_value_all (v * 10 + (d - b'0')) ds zs h.1) refl

digits-AllDigits :
    (places n : ℕ) (after : Text) → AllDigits after → AllDigits (digits places n after)
unfolding digits is_digit
digits-AllDigits zero n after h = h
digits-AllDigits (suc places) n after h = elim (Bool-cases (ltb n 10)) [
  | inl e ↦ rw e (ground arith, h)
  | inr e ↦ rw e (digits-AllDigits places (n / 10) ((b'0' + n % 10) ∷ after) (ground arith, h))
]

value_of-digits :
    (places n : ℕ) (after : Text)
    → n < 10 ^ places
    → value_of 0 (digits places n after) ≡ value_of n after
unfolding digits
value_of-digits zero n after h = let none : n ≡ 0 = omega arith in rw none refl
value_of-digits (suc places) n after h = elim (Bool-cases (ltb n 10)) [
  | inl e ↦ rw e (ap (λ v. value_of v after) (omega arith))
  | inr e ↦ rw e (
      value_of-digits places (n / 10) ((b'0' + n % 10) ∷ after) (omega (arith, pow-suc 10 places))
      ∙ ap (λ v. value_of v after) (omega arith))
]

not_end : (ds : Text) → AllDigits ds → Fails ends_host ds × Fails (is b'@') ds
unfolding is_digit
not_end [] h = (tt, tt)
not_end (d ∷ ds) h =
    let rest = not_end ds h.1 in
    let here : is_digit d ≡ true = h.0 in ((ground arith, rest.0), (ground arith, rest.1))

-- A number of five digits at most.
strtol-digits :
    (ds zs : Text) (p : ℕ)
    → AllDigits ds
    → 0 < length ds
    → value_of 0 ds ≡ p
    → p < 65536
    → strtol_from 0 (ds ++ (b'/' ∷ zs)) ≡ (false, p, length ds)
unfolding strtol_from is_digit
strtol-digits [] zs p h long e small = absurd (omega arith)
strtol-digits (d ∷ ds) zs p h long e small =
    let read = digits_value_all 0 (d ∷ ds) zs h in
    let no_space : is_space d ≡ false = ground arith in
    let no_minus : (d == b'-') ≡ false = ground arith in
    let no_plus : (d == b'+') ≡ false = ground arith in
    let fits : min p (2 ^ 63 - 1) ≡ p = omega arith in
    let some_digits : (suc (length ds) == 0) ≡ false = ground arith in
    rw (no_space, no_minus, no_plus, read, e, some_digits, fits)
      (ap (λ n. let r : Bool × ℕ × ℕ = (false, p, n) in r) (omega arith))

nonempty : (ds : Text) (p : ℕ) → value_of 0 ds ≡ p → 0 < p → 0 < length ds
nonempty [] p e h = absurd (omega arith)
nonempty (d ∷ ds) p e h = omega arith

pub to_string-IsPort : (zs : Text) (p : ℕ) → 0 < p → p < 65536 → IsPort zs (to_string p) p
unfolding to_string
to_string-IsPort zs p low high =
    let ds = digits 5 p [] in
    let all = digits-AllDigits 5 p [] tt in
    let value = value_of-digits 5 p [] (omega arith) in
    let ends = not_end ds all in
    record {
      no_end = ends.0;
      no_at = ends.1;
      reads = strtol-digits ds zs p all (nonempty ds p value low) value high;
      low = low;
      high = high;
    }
