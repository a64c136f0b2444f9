-- ===== src/Http/Text.antt =====
-- ToLowerASCIIChar and EqualsCaseInsensitiveASCII (src/neixx/strings/string_util.cpp), and the lookup and
-- the removal of headers (src/neixx/net/http/http_response.cpp, http_client.cpp). A text is the list of
-- its bytes.
use libnei.Common.{Text}
use libnei.Common.{
  ℕ, ◌+◌, ◌-◌, ◌≡◌, refl, Bool, true, false, ◌&&◌, ◌||◌, not, List, [], ◌∷◌, map, arith, leb, ◌==◌,
  if◌then◌else◌, filter, All, All-filter, Bool-cases, inl, inr,
}

pub to_lower : ℕ → ℕ
to_lower c = if leb b'A' c && leb c b'Z' then c - b'A' + b'a' else c

-- Whether Compare gives 0.
unfoldable pub equals_case_insensitive : Text → Text → Bool
unfolding to_lower
equals_case_insensitive [] [] = true
equals_case_insensitive [] (b ∷ bs) = false
equals_case_insensitive (a ∷ as_) [] = false
equals_case_insensitive (a ∷ as_) (b ∷ bs) =
    to_lower a == to_lower b && equals_case_insensitive as_ bs

pub record HttpHeader : Type 0 where
  pub name : Text
  pub value : Text

-- GetHeaderValue: the first header of the name, and the empty text where there is none.
unfoldable pub get_header_value : Text → List HttpHeader → Text
get_header_value name [] = []
get_header_value name (h ∷ headers) =
    if equals_case_insensitive h.name name then h.value else get_header_value name headers

unfoldable pub is_dropped : List Text → HttpHeader → Bool
is_dropped [] h = false
is_dropped (name ∷ drop) h = equals_case_insensitive h.name name || is_dropped drop h

unfoldable pub erase_headers : List Text → List HttpHeader → List HttpHeader
erase_headers drop headers = filter (λ h. not (is_dropped drop h)) headers

pub equals_case_insensitive-eq :
    (a b : Text) → equals_case_insensitive a b ≡ true → map to_lower a ≡ map to_lower b
unfolding equals_case_insensitive
equals_case_insensitive-eq [] [] h = refl
equals_case_insensitive-eq [] (b ∷ bs) h = ground arith
equals_case_insensitive-eq (a ∷ as_) [] h = ground arith
equals_case_insensitive-eq (a ∷ as_) (b ∷ bs) h = ground (arith, equals_case_insensitive-eq as_ bs)

-- What is erased is gone.
pub erase_headers-All :
    (drop : List Text) (headers : List HttpHeader)
    → All (λ h. is_dropped drop h ≡ false) (erase_headers drop headers)
unfolding erase_headers
erase_headers-All drop = All-filter _ _ (λ h e. ground arith)

-- An erasure adds no header.
pub erase_headers-keeps {ℓ} :
    (P : HttpHeader → Type ℓ) (drop : List Text) (headers : List HttpHeader)
    → All P headers
    → All P (erase_headers drop headers)
unfolding erase_headers filter
erase_headers-keeps P drop [] h = tt
erase_headers-keeps P drop (x ∷ headers) h = elim (Bool-cases (is_dropped drop x)) [
  | inl e ↦ rw e (erase_headers-keeps P drop headers h.1)
  | inr e ↦ rw e (h.0, erase_headers-keeps P drop headers h.1)
]
