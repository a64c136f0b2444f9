-- ===== src/Url/Parser/Searches.antt =====
-- Searches and characters in a text that is put together.
use libnei.Common.{
  ℕ, suc, ◌+◌, ◌≡◌, refl, ap, ◌∙◌, Bool, true, false, Option, none, some, [], ◌∷◌, ◌++◌, arith,
  length, get_or, All, Text,
}
use libnei.Url.Chars.{find_if, lower_between, to_lower, next_place}

abbrev pub shift : ℕ → Option ℕ → Option ℕ
shift n none = none
shift n (some i) = some (n + i)

shift-suc : (n : ℕ) (o : Option ℕ) → next_place (shift n o) ≡ shift (suc n) o
shift-suc n none = refl
shift-suc n (some i) = ap some (omega arith)

shift-0 : (o : Option ℕ) → o ≡ shift 0 o
shift-0 none = refl
shift-0 (some i) = ap some (omega arith)

abbrev pub Fails : (ℕ → Bool) → Text → Type 0
Fails p s = All (λ c. p c ≡ false) s

-- A search that begins behind a text, or in it where no character passes.
find_if-append :
    (p : ℕ → Bool) (xs ys : Text) (k : ℕ)
    → find_if p (length xs + k) (xs ++ ys) ≡ shift (length xs) (find_if p k ys)
unfolding find_if
find_if-append p [] ys k =
    let none_before : 0 + k ≡ k = omega arith in rw none_before (shift-0 (find_if p k ys))
find_if-append p (x ∷ xs) ys k =
    let one : suc (length xs) + k ≡ suc (length xs + k) = omega arith in
    rw one (ap next_place (find_if-append p xs ys k) ∙ shift-suc (length xs) (find_if p k ys))

find_if_skip :
    (p : ℕ → Bool) (xs ys : Text)
    → Fails p xs
    → find_if p 0 (xs ++ ys) ≡ shift (length xs) (find_if p 0 ys)
unfolding find_if
find_if_skip p [] ys h = shift-0 (find_if p 0 ys)
find_if_skip p (x ∷ xs) ys h =
    rw h.0 (ap next_place (find_if_skip p xs ys h.1) ∙ shift-suc (length xs) (find_if p 0 ys))

pub get_or-append : (xs ys : Text) (k : ℕ) → get_or (xs ++ ys) (length xs + k) 0 ≡ get_or ys k 0
get_or-append [] ys k = let none_before : 0 + k ≡ k = omega arith in rw none_before
get_or-append (x ∷ xs) ys k =
    let one : suc (length xs) + k ≡ suc (length xs + k) = omega arith in
    rw one (get_or-append xs ys k)

lower_between_none : (s : Text) → lower_between 0 0 s ≡ s
unfolding lower_between
lower_between_none [] = refl
lower_between_none (c ∷ s) = refl

-- Characters that are in lower case stay.
pub lower_between_same :
    (xs ys zs : Text)
    → All (λ c. to_lower c ≡ c) ys
    → lower_between (length xs) (length xs + length ys) (xs ++ (ys ++ zs)) ≡ xs ++ (ys ++ zs)
unfolding lower_between
lower_between_same [] [] zs h = lower_between_none zs
lower_between_same [] (y ∷ ys) zs h =
    let one : 0 + suc (length ys) ≡ suc (0 + length ys) = omega arith in
    rw (one, h.0) (ap (◌∷◌ y) (lower_between_same [] ys zs h.1))
lower_between_same (x ∷ xs) ys zs h =
    let one : suc (length xs) + length ys ≡ suc (length xs + length ys) = omega arith in
    rw one (ap (◌∷◌ x) (lower_between_same xs ys zs h))

module _ (p : ℕ → Bool) (pre ys : Text) (n : ℕ) (here : n ≡ length pre) (fails : Fails p ys) where
  -- A search that passes over some characters.
  pub find_behind :
      (zs : Text) → find_if p n (pre ++ (ys ++ zs)) ≡ shift (n + length ys) (find_if p 0 zs)
  find_behind zs =
      let at_end : n ≡ length pre + 0 = omega arith in
      rw at_end (
        find_if-append p pre (ys ++ zs) 0
        ∙ ap (shift (length pre)) (find_if_skip p ys zs fails)
        ∙ shift_twice (find_if p 0 zs))
    where
      shift_twice :
          (o : Option ℕ)
          → shift (length pre) (shift (length ys) o) ≡ shift (length pre + 0 + length ys) o
      shift_twice none = refl
      shift_twice (some i) = ap some (omega arith)

  -- And finds one that passes.
  pub find_after :
      (c : ℕ) (zs : Text)
      → p c ≡ true
      → find_if p n (pre ++ (ys ++ (c ∷ zs))) ≡ some (n + length ys)
  unfolding find_if
  find_after c zs passes = find_behind (c ∷ zs) ∙ rw passes (ap some (omega arith))
