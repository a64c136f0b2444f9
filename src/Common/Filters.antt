-- ===== src/Common/Filters.antt =====
-- The elements of a list that pass a Boolean test, and how many they are.
use Prim.Native.Nat.{ℕ, zero, suc, ◌+◌, ◌≤◌}
use mathlib.Core.Path.{◌≡◌, refl, subst}
use mathlib.Core.Option.{some}
use mathlib.Core.Logic.{inl, inr}
use mathlib.Core.Bool.{Bool, true, false}
use mathlib.Core.List.{List, [], ◌∷◌, ◌++◌}
use native.Mathlib.Omega.{arith}
use libnei.Common.Tests.{if◌then◌else◌, Bool-cases}
use libnei.Common.Lists.{All, get_elem?, drop}

module _ {ℓ} {A : Type ℓ} where
  unfoldable pub filter : (A → Bool) → List A → List A
  filter p [] = []
  filter p (x ∷ xs) = let rest = filter p xs in if p x then x ∷ rest else rest

  unfoldable pub count : (A → Bool) → List A → ℕ
  count p [] = 0
  count p (x ∷ xs) = (if p x then 1 else 0) + count p xs

  pub count-append : (p : A → Bool) (xs ys : List A) → count p (xs ++ ys) ≡ count p xs + count p ys
  unfolding count
  count-append p [] ys = omega arith
  count-append p (x ∷ xs) ys = omega (arith, count-append p xs ys)

  pub All-filter {κ} :
      (P : A → Type κ) (q : A → Bool)
      → ((x : A) → q x ≡ true → P x)
      → (xs : List A) → All P (filter q xs)
  unfolding filter
  All-filter P q h [] = tt
  All-filter P q h (x ∷ xs) = elim (Bool-cases (q x)) [
    | inl e ↦ rw e (h x e, All-filter P q h xs)
    | inr e ↦ rw e (All-filter P q h xs)
  ]

  pub filter-All : (q : A → Bool) (xs : List A) → All (λ x. q x ≡ true) xs → filter q xs ≡ xs
  unfolding filter
  filter-All q [] h = refl
  filter-All q (x ∷ xs) h = rw (h.0, filter-All q xs h.1)

  pub filter-None : (q : A → Bool) (xs : List A) → All (λ x. q x ≡ false) xs → filter q xs ≡ []
  unfolding filter
  filter-None q [] h = refl
  filter-None q (x ∷ xs) h = rw (h.0) (filter-None q xs h.1)

module _ {ℓ} {A : Type ℓ} where
  -- A list without the element at a place.
  abbrev pub remove_at : ℕ → List A → List A
  remove_at n [] = []
  remove_at zero (x ∷ xs) = xs
  remove_at (suc n) (x ∷ xs) = x ∷ remove_at n xs

  pub count-remove_at :
      (p : A → Bool) (n : ℕ) (xs : List A) (x : A)
      → get_elem? xs n ≡ some x
      → count p xs ≡ count p (x ∷ remove_at n xs)
  unfolding count
  count-remove_at p n [] x e = ground arith
  count-remove_at p zero (y ∷ xs) x e = ground arith
  count-remove_at p (suc n) (y ∷ xs) x e = ground (arith, count-remove_at p n xs x e)

  pub count-drop : (p : A → Bool) (n : ℕ) (xs : List A) → count p (drop n xs) ≤ count p xs
  unfolding count
  count-drop p zero xs = omega arith
  count-drop p (suc n) [] = omega arith
  count-drop p (suc n) (x ∷ xs) = omega (arith, count-drop p n xs)

  pub All-drop {κ} : (P : A → Type κ) (n : ℕ) (xs : List A) → All P xs → All P (drop n xs)
  All-drop P zero xs h = h
  All-drop P (suc n) [] h = tt
  All-drop P (suc n) (x ∷ xs) h = All-drop P n xs h.1

  pub All-remove_at {κ} : (P : A → Type κ) (n : ℕ) (xs : List A) → All P xs → All P (remove_at n xs)
  All-remove_at P n [] h = tt
  All-remove_at P zero (x ∷ xs) h = h.1
  All-remove_at P (suc n) (x ∷ xs) h = (h.0, All-remove_at P n xs h.1)

  pub All-get_elem? {κ} :
      (P : A → Type κ) (n : ℕ) (xs : List A) (x : A) → get_elem? xs n ≡ some x → All P xs → P x
  All-get_elem? P n [] x e h = cc
  All-get_elem? P zero (y ∷ xs) x e h = let same : y ≡ x = cc in subst P same h.0
  All-get_elem? P (suc n) (y ∷ xs) x e h = All-get_elem? P n xs x e h.1
