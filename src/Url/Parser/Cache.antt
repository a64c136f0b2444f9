-- ===== src/Url/Parser/Cache.antt =====
-- The cache of Url::origin (src/neixx/url/url.cpp).
use mathlib.Core.Path.{subst}
use libnei.Common.{
  ◌≡◌, refl, sym, ◌⊎◌, inl, inr, Bool, true, false, not, ◌||◌, [], ◌∷◌, ◌++◌, Text, codes,
  if◌then◌else◌, Bool-cases,
}
use libnei.Url.Parser.{Url, parse, scheme, host, port_suffix, is_nil, origin}

-- A URL with its cache, which Parse clears.
record CachedUrl : Type 0 where
  url : Url
  origin_cache : Text

unfoldable parse_cached : Text → CachedUrl
parse_cached s = record { url = parse s; origin_cache = [] }

-- `missing` is set where there is no origin, and `text` is what is written where there is one.
abbrev looked_up : Bool → Text → CachedUrl → Text × CachedUrl
looked_up missing text u =
    if missing
    then ([], u)
    else if not (is_nil u.origin_cache)
    then (u.origin_cache, u)
    else (text, record u { origin_cache = text })

abbrev lacks_origin : Url → Bool
lacks_origin u = is_nil u.spec || is_nil (scheme u) || is_nil (host u)

abbrev origin_text : Url → Text
origin_text u = scheme u ++ (codes "://" ++ (host u ++ port_suffix u))

unfoldable cached_origin : CachedUrl → Text × CachedUrl
cached_origin u = looked_up (lacks_origin u.url) (origin_text u.url) u

-- The cache is empty or has the origin.
abbrev IsCoherent : CachedUrl → Type 0
IsCoherent u = (u.origin_cache ≡ []) ⊎ (u.origin_cache ≡ origin u.url)

parse_cached-IsCoherent : (s : Text) → IsCoherent (parse_cached s)
unfolding parse_cached
parse_cached-IsCoherent s = inl refl

full_cache :
    (cache text : Text) → is_nil cache ≡ false → (cache ≡ []) ⊎ (cache ≡ text) → cache ≡ text
full_cache [] text full h = absurd cc
full_cache (c ∷ cache) text full (inl e) = absurd cc
full_cache (c ∷ cache) text full (inr e) = e

looked_up_lem :
    (missing : Bool) (text : Text) (u : CachedUrl) (o : Text)
    → o ≡ (if missing then [] else text)
    → (u.origin_cache ≡ []) ⊎ (u.origin_cache ≡ o)
    → let r = looked_up missing text u in
      (r.0 ≡ o) × (r.1.url ≡ u.url) × ((r.1.origin_cache ≡ []) ⊎ (r.1.origin_cache ≡ o))
looked_up_lem true text u o e h = (sym e, refl, h)
looked_up_lem false text u o e h = elim (Bool-cases (is_nil u.origin_cache)) [
  | inl empty ↦ rw empty (sym e, refl, inr (sym e))
  | inr full ↦ let same = full_cache u.origin_cache o full h in rw full (same, refl, inr same)
]

origin_same : (u : Url) → origin u ≡ (if lacks_origin u then [] else origin_text u)
unfolding origin port_suffix
origin_same u = refl

cached_origin_same :
    (u : CachedUrl) → cached_origin u ≡ looked_up (lacks_origin u.url) (origin_text u.url) u
unfolding cached_origin
cached_origin_same u = refl

-- What a call gives: the origin, and the URL as it was with a coherent cache.
abbrev Keeps : CachedUrl → Text × CachedUrl → Type 0
Keeps u r =
    (r.0 ≡ origin u.url)
    × (r.1.url ≡ u.url)
    × ((r.1.origin_cache ≡ []) ⊎ (r.1.origin_cache ≡ origin u.url))

-- A call of origin gives what one without the cache gives, and leaves the URL as it is and the cache
-- coherent.
cached_origin-Keeps : (u : CachedUrl) → IsCoherent u → Keeps u (cached_origin u)
cached_origin-Keeps u h =
    subst (Keeps u) (sym (cached_origin_same u)) (
      looked_up_lem (lacks_origin u.url) (origin_text u.url) u (origin u.url) (origin_same u.url) h)
