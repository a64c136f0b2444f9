-- ===== src/Utils/Base64/Groups.antt =====
-- Which groups of four characters the decoder takes, and how many bytes it writes for one.
use libnei.Common.{
  ℕ, suc, ◌+◌, ◌-◌, ◌*◌, ◌/◌, ◌≤◌, ◌≡◌, refl, ap, sym, ◌∙◌, inl, inr, not, Bool, true, false, ◌&&◌,
  ◌||◌, List, [], ◌∷◌, Option, none, some, arith, ◌==◌, if◌then◌else◌, length, take, Bool-cases,
}
use libnei.Utils.Base64.{
  equals, base64_value, decode_group, first_byte, second_byte, third_byte, padding,
}
use libnei.Utils.Base64.Padding.{padding_more, padding_last, padding_short}

-- A text as Base64 has it: characters of the alphabet, and the padding.
abbrev pub is_some {ℓ} : {A : Type ℓ} → Option A → Bool
is_some none = false
is_some (some a) = true

abbrev pub all_values : List ℕ → Bool
all_values [] = true
all_values (c ∷ text) = is_some (base64_value c) && all_values text

abbrev pub content : List ℕ → List ℕ
content text = take (length text - padding text) text

abbrev pub need : List ℕ → ℕ
need text = length text / 4 * 3 - padding text

-- How many bytes a group gives.
abbrev pub group_size : Option (List ℕ) → Option ℕ
group_size none = none
group_size (some bs) = some (length bs)

equals_value : (c : ℕ) → (c == equals) ≡ true → base64_value c ≡ none
unfolding base64_value
equals_value c h = ground arith

-- A round after its look-ups: the four values, and whether the last two characters are `=`.
abbrev looked_up : Option ℕ → Option ℕ → Option ℕ → Option ℕ → Bool → Bool → Bool → Option (List ℕ)
looked_up o0 o1 o2 o3 e2 e3 is_last = elim o0 [
  | none ↦ none
  | some v0 ↦ elim o1 [
    | none ↦ none
    | some v1 ↦
        if e2
        then if not is_last || not e3 then none else some (first_byte v0 v1 ∷ [])
        else elim o2 [
          | none ↦ none
          | some v2 ↦
              if e3
              then if is_last then some (first_byte v0 v1 ∷ second_byte v1 v2 ∷ []) else none
              else elim o3 [
                | none ↦ none
                | some v3 ↦ some (first_byte v0 v1 ∷ second_byte v1 v2 ∷ third_byte v2 v3 ∷ [])
              ]
        ]
  ]
]

decode_group-looked_up :
    (c0 c1 c2 c3 : ℕ) (is_last : Bool)
    → decode_group c0 c1 c2 c3 is_last
      ≡ looked_up
          (base64_value c0)
          (base64_value c1)
          (base64_value c2)
          (base64_value c3)
          (c2 == equals)
          (c3 == equals)
          is_last
unfolding decode_group
decode_group-looked_up c0 c1 c2 c3 is_last = refl

-- A character is not both a value and `=`.
abbrev apart : Option ℕ → Bool → Bool
apart o e = not (is_some o && e)

value_apart : (c : ℕ) → apart (base64_value c) (c == equals) ≡ true
value_apart c = elim (Bool-cases (c == equals)) [
  | inl e ↦ rw (e, equals_value c e) refl
  | inr e ↦ rw e (by_value (base64_value c))
]
  where
    by_value : (o : Option ℕ) → apart o false ≡ true
    by_value none = refl
    by_value (some v) = refl

looked_up_inner :
    (o0 o1 o2 o3 : Option ℕ) (e2 e3 : Bool)
    → apart o2 e2 ≡ true
    → apart o3 e3 ≡ true
    → group_size (looked_up o0 o1 o2 o3 e2 e3 false) ≡ (
        if is_some o0 && (is_some o1 && (is_some o2 && (is_some o3 && true))) then some 3 else none)
looked_up_inner o0 o1 o2 o3 e2 e3 h2 h3 = ground arith

looked_up_last :
    (o0 o1 o2 o3 : Option ℕ) (e2 e3 : Bool)
    → apart o2 e2 ≡ true
    → apart o3 e3 ≡ true
    → group_size (looked_up o0 o1 o2 o3 e2 e3 true) ≡ (
        if is_some o0 && (is_some o1 && (e3 && e2 || (is_some o2 && (e3 || is_some o3))))
        then some (if e3 then if e2 then 1 else 2 else 3)
        else none)
looked_up_last o0 o1 o2 o3 e2 e3 h2 h3 = ground arith

pub inner_content :
    (c0 c1 c2 c3 : ℕ) (rest : List ℕ)
    → 4 ≤ length rest
    → content (c0 ∷ c1 ∷ c2 ∷ c3 ∷ rest) ≡ c0 ∷ c1 ∷ c2 ∷ c3 ∷ content rest
inner_content c0 c1 c2 c3 rest h =
    let kept : suc (suc (suc (suc (length rest)))) - padding (c0 ∷ c1 ∷ c2 ∷ c3 ∷ rest)
        ≡ suc (suc (suc (suc (length rest - padding rest)))) =
      omega (arith, padding_more c0 c1 c2 c3 rest h, padding_short rest) in
    ap (λ n. take n (c0 ∷ c1 ∷ c2 ∷ c3 ∷ rest)) kept

pub inner_need :
    (c0 c1 c2 c3 : ℕ) (rest : List ℕ)
    → 4 ≤ length rest
    → need (c0 ∷ c1 ∷ c2 ∷ c3 ∷ rest) ≡ 3 + need rest
inner_need c0 c1 c2 c3 rest h = omega (arith, padding_more c0 c1 c2 c3 rest h, padding_short rest)

abbrev pub valid : List ℕ → Bool
valid text = all_values (content text)

pub inner_group :
    (c0 c1 c2 c3 : ℕ)
    → group_size (decode_group c0 c1 c2 c3 false)
      ≡ (if all_values (c0 ∷ c1 ∷ c2 ∷ c3 ∷ []) then some 3 else none)
inner_group c0 c1 c2 c3 =
    ap group_size (decode_group-looked_up c0 c1 c2 c3 false)
    ∙ looked_up_inner (base64_value c0) (base64_value c1) (base64_value c2) (base64_value c3)
        (c2 == equals) (c3 == equals) (value_apart c2) (value_apart c3)

-- The last group without its padding.
module _ (c0 c1 c2 c3 : ℕ) where
  abbrev unpadded : ℕ → List ℕ
  unpadded p = take (4 - p) (c0 ∷ c1 ∷ c2 ∷ c3 ∷ [])

  abbrev marks : Bool → Bool → ℕ
  marks e2 e3 = if e3 then if e2 then 2 else 1 else 0

  valid_marks :
      (e2 e3 : Bool)
      → (is_some (base64_value c0)
          && (is_some (base64_value c1)
              && (e3 && e2 || (is_some (base64_value c2) && (e3 || is_some (base64_value c3))))))
        ≡ all_values (unpadded (marks e2 e3))
  valid_marks true true = ground arith
  valid_marks false true = ground arith
  valid_marks true false = ground arith
  valid_marks false false = ground arith

  need_marks : (e2 e3 : Bool) → (if e3 then if e2 then 1 else 2 else 3) ≡ 3 - marks e2 e3
  need_marks e2 e3 = ground arith

  pub last_group :
      group_size (decode_group c0 c1 c2 c3 true)
      ≡ (if valid (c0 ∷ c1 ∷ c2 ∷ c3 ∷ []) then some (need (c0 ∷ c1 ∷ c2 ∷ c3 ∷ [])) else none)
  last_group =
      let e2 = c2 == equals in
      let e3 = c3 == equals in
      ap group_size (decode_group-looked_up c0 c1 c2 c3 true)
      ∙ looked_up_last (base64_value c0) (base64_value c1) (base64_value c2) (base64_value c3) e2 e3
          (value_apart c2) (value_apart c3)
      ∙ cc (valid_marks e2 e3, need_marks e2 e3)
      ∙ ap (λ p. if all_values (unpadded p) then some (3 - p) else none)
          (sym (padding_last c0 c1 c2 c3))
