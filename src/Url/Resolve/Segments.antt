-- ===== src/Url/Resolve/Segments.antt =====
-- What NormalizePathSegments leaves between the slashes.
use libnei.Common.{
  ℕ, ◌≡◌, refl, ap, ◌∙◌, inl, inr, Bool, true, false, not, ◌&&◌, List, [], ◌∷◌, ◌++◌, ◌==◌, All,
  All-append, Bool-cases, Text, codes, text_equal, if◌then◌else◌,
}
use libnei.Url.Parser.{is_nil}
use libnei.Url.Resolve.{
  first_longer, split, pop_back, push_segment, push_segments, joined_by_slash,
  normalize_path_segments, without_slash, ends_with,
}

abbrev NoSlash : Text → Type 0
NoSlash s = All (λ c. (c == b'/') ≡ false) s

-- Neither "." nor "..".
abbrev pub Dotless : Text → Type 0
Dotless s = (text_equal s (codes ".") ≡ false) × (text_equal s (codes "..") ≡ false)

abbrev Plain : Text → Type 0
Plain s = NoSlash s × Dotless s

first_longer-All :
    (c : ℕ) (pieces : List Text)
    → (c == b'/') ≡ false
    → All NoSlash pieces
    → All NoSlash (first_longer c pieces)
first_longer-All c [] e h = ((e, tt), tt)
first_longer-All c (p ∷ pieces) e h = ((e, h.0), h.1)

split-NoSlash : (s : Text) → All NoSlash (split s)
unfolding split
split-NoSlash [] = (tt, tt)
split-NoSlash (c ∷ s) = elim (Bool-cases (c == b'/')) [
  | inl e ↦ rw e (tt, split-NoSlash s)
  | inr e ↦ rw e (first_longer-All c (split s) e (split-NoSlash s))
]

pop_back-All : (segments : List Text) → All Plain segments → All Plain (pop_back segments)
pop_back-All [] h = tt
pop_back-All (x ∷ []) h = tt
pop_back-All (x ∷ y ∷ xs) h = (h.0, pop_back-All (y ∷ xs) h.1)

push_segment-All :
    (segments : List Text) (seg : Text)
    → NoSlash seg
    → All Plain segments
    → All Plain (push_segment segments seg)
unfolding push_segment
push_segment-All segments seg n h = elim (Bool-cases (text_equal seg (codes ".."))) [
  | inl e ↦ rw e (pop_back-All segments h)
  | inr e ↦ elim (Bool-cases (text_equal seg (codes "."))) [
    | inl f ↦ rw (e, f) h
    | inr f ↦ elim (Bool-cases (is_nil seg)) [
      | inl g ↦ rw (e, f, g) h
      | inr g ↦ rw (e, f, g) (All-append Plain segments (seg ∷ []) h ((n, (f, e)), tt))
    ]
  ]
]

push_segments-All :
    (segments pieces : List Text)
    → All NoSlash pieces
    → All Plain segments
    → All Plain (push_segments segments pieces)
unfolding push_segments
push_segments-All segments [] n h = h
push_segments-All segments (p ∷ pieces) n h =
    push_segments-All (push_segment segments p) pieces n.1 (push_segment-All segments p n.0 h)

split_cons : (s : Text) → (p : Text) × (ps : List Text) × (split s ≡ p ∷ ps)
unfolding split
split_cons [] = ([], [], refl)
split_cons (c ∷ s) = elim (Bool-cases (c == b'/')) [
  | inl e ↦ ([], split s, rw e)
  | inr e ↦ let (p, ps, q) = split_cons s in (c ∷ p, ps, rw (e, q))
]

first_longer-append :
    (c : ℕ) (s : Text) (pieces : List Text)
    → first_longer c (split s ++ pieces) ≡ first_longer c (split s) ++ pieces
first_longer-append c s pieces = let (p, ps, q) = split_cons s in rw q

-- A slash separates.
split-append : (s t : Text) → split (s ++ (b'/' ∷ t)) ≡ split s ++ split t
unfolding split
split-append [] t = refl
split-append (c ∷ s) t = elim (Bool-cases (c == b'/')) [
  | inl e ↦ rw e (ap (◌∷◌ []) (split-append s t))
  | inr e ↦ rw e (ap (first_longer c) (split-append s t) ∙ first_longer-append c s (split t))
]

split_one : (s : Text) → NoSlash s → split s ≡ s ∷ []
unfolding split
split_one [] h = refl
split_one (c ∷ s) h = rw (h.0, split_one s h.1)

joined-Dotless :
    (segments : List Text) → All Plain segments → All Dotless (split (joined_by_slash segments))
unfolding joined_by_slash split text_equal
joined-Dotless [] h = ((refl, refl), tt)
joined-Dotless (x ∷ []) h = rw (split_one x h.0.0) (h.0.1, tt)
joined-Dotless (x ∷ y ∷ xs) h =
    rw (split-append x (joined_by_slash (y ∷ xs)), split_one x h.0.0)
      (h.0.1, joined-Dotless (y ∷ xs) h.1)

led-Dotless :
    (c : ℕ) (t : Text)
    → All Dotless (split t)
    → All Dotless (split ((if c == b'/' then codes "/" else []) ++ t))
unfolding split text_equal
led-Dotless c t h = elim (Bool-cases (c == b'/')) [
  | inl e ↦ rw e ((refl, refl), h)
  | inr e ↦ rw e h
]

closed-Dotless :
    (close : Bool) (t : Text)
    → All Dotless (split t)
    → All Dotless (split (if close then t ++ codes "/" else t))
unfolding split text_equal
closed-Dotless false t h = h
closed-Dotless true t h =
    rw (split-append t []) (All-append Dotless (split t) ([] ∷ []) h ((refl, refl), tt))

-- Whatever the path, no piece between the slashes of what NormalizePathSegments gives is "." or "..".
pub normalize_path_segments-Dotless : (s : Text) → All Dotless (split (normalize_path_segments s))
unfolding normalize_path_segments text_equal
normalize_path_segments-Dotless [] = ((refl, refl), ((refl, refl), tt))
normalize_path_segments-Dotless (c ∷ s) =
    let pieces = split (without_slash (c ∷ s)) in
    let segments = push_segments [] pieces in
    let plain = push_segments-All [] pieces (split-NoSlash (without_slash (c ∷ s))) tt in
    let result = (if c == b'/' then codes "/" else []) ++ joined_by_slash segments in
    let close = ends_with b'/' (c ∷ s) && not (is_nil result) && not (ends_with b'/' result) in
    closed-Dotless close result
      (led-Dotless c (joined_by_slash segments) (joined-Dotless segments plain))
