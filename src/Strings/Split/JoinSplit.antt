-- ===== src/Strings/Split/JoinSplit.antt =====
-- `JoinString` after `SplitString`.
use mathlib.Core.List.{append-nil}
use libnei.Common.{
  ℕ, zero, suc, ◌+◌, ◌<◌, ◌≡◌, refl, ap, sym, ◌∙◌, List, [], ◌∷◌, ◌++◌, Option, none, some, arith,
  length, length-append, Bool, true, false, ◌&&◌, ◌||◌, ◌==◌, inl, inr, Bool-cases, All,
}
use libnei.Strings.Split.{
  WhitespaceHandling, SplitResult, keep_whitespace, split_want_all, append_split_token, strip,
  before, first_found, find_delimiter, prepend, after_find, split_loop, split_string, join_string,
}

strip_lem : (ds input rest : List ℕ) → strip ds input ≡ some rest → ds ++ rest ≡ input
unfolding strip
strip_lem [] input rest e = cc
strip_lem (d ∷ ds) [] rest e = cc
strip_lem (d ∷ ds) (ch ∷ chs) rest e = ground (arith, strip_lem ds chs rest)

find_lem :
    (ds input token rest : List ℕ)
    → find_delimiter ds input ≡ some (token, rest)
    → token ++ (ds ++ rest) ≡ input
unfolding find_delimiter
find_lem ds [] token rest e = by_strip (strip ds []) (strip_lem ds []) e
  where
    by_strip :
        (o : Option (List ℕ))
        → ((rest : List ℕ) → o ≡ some rest → ds ++ rest ≡ [])
        → first_found o none ≡ some (token, rest)
        → token ++ (ds ++ rest) ≡ []
    by_strip none h e = cc
    by_strip (some r) h e = let k = h r refl in ground (arith, k)
find_lem ds (ch ∷ chs) token rest e =
    by_found (strip ds (ch ∷ chs)) (find_delimiter ds chs) (strip_lem ds (ch ∷ chs))
      (find_lem ds chs) e
  where
    by_found :
        (o : Option (List ℕ)) (found : Option (List ℕ × List ℕ))
        → ((rest : List ℕ) → o ≡ some rest → ds ++ rest ≡ ch ∷ chs)
        → ((token rest : List ℕ) → found ≡ some (token, rest) → token ++ (ds ++ rest) ≡ chs)
        → first_found o (before ch found) ≡ some (token, rest)
        → token ++ (ds ++ rest) ≡ ch ∷ chs
    by_found none none h k e = cc
    by_found none (some (t, r)) h k e = let now = k t r refl in ground (arith, now)
    by_found (some r) found h k e = let now = h r refl in ground (arith, now)

-- Whether a text begins with a delimiter, and whether it has one somewhere.
abbrev begins : List ℕ → List ℕ → Bool
begins [] text = true
begins (d ∷ ds) [] = false
begins (d ∷ ds) (ch ∷ text) = d == ch && begins ds text

abbrev pub contains : List ℕ → List ℕ → Bool
contains ds [] = false
contains ds (ch ∷ text) = begins ds (ch ∷ text) || contains ds text

strip-none : (ds text more : List ℕ) → strip ds (text ++ more) ≡ none → begins ds text ≡ false
unfolding strip
strip-none [] text more e = absurd cc
strip-none (d ∷ ds) [] more e = refl
strip-none (d ∷ ds) (ch ∷ text) more e = elim (Bool-cases (d == ch)) [
  | inl same ↦
      let later : strip ds (text ++ more) ≡ none = ground arith in
      rw same (strip-none ds text more later)
  | inr other ↦ rw other refl
]

-- There is none before the first one that is found.
found_free :
    (ds input token rest : List ℕ)
    → find_delimiter ds input ≡ some (token, rest)
    → contains ds token ≡ false
unfolding find_delimiter
found_free ds [] token rest e = by_strip (strip ds []) e
  where
    by_strip :
        (o : Option (List ℕ)) → first_found o none ≡ some (token, rest) → contains ds token ≡ false
    by_strip none e = cc
    by_strip (some r) e = let nothing : [] ≡ token = cc in rw (sym nothing) refl
found_free ds (ch ∷ chs) token rest e =
    by_found (strip ds (ch ∷ chs)) (find_delimiter ds chs) (find_lem ds chs) (found_free ds chs)
      refl e
  where
    by_found :
        (o : Option (List ℕ)) (found : Option (List ℕ × List ℕ))
        → ((token rest : List ℕ) → found ≡ some (token, rest) → token ++ (ds ++ rest) ≡ chs)
        → ((token rest : List ℕ) → found ≡ some (token, rest) → contains ds token ≡ false)
        → strip ds (ch ∷ chs) ≡ o
        → first_found o (before ch found) ≡ some (token, rest)
        → contains ds token ≡ false
    by_found none none whole free s e = cc
    by_found none (some (t, r)) whole free s e =
        let same : ch ∷ t ≡ token = cc in
        let here =
          strip-none ds (ch ∷ t) (ds ++ r) (ap (λ x. strip ds (ch ∷ x)) (whole t r refl) ∙ s) in
        rw (sym same, here) (free t r refl)
    by_found (some k) found whole free s e = let nothing : [] ≡ token = cc in rw (sym nothing) refl

-- None is found where there is none.
none_free : (ds input : List ℕ) → find_delimiter ds input ≡ none → contains ds input ≡ false
unfolding find_delimiter
none_free ds [] e = refl
none_free ds (ch ∷ chs) e =
    by_found (strip ds (ch ∷ chs)) (find_delimiter ds chs) (none_free ds chs) refl e
  where
    by_found :
        (o : Option (List ℕ)) (found : Option (List ℕ × List ℕ))
        → (found ≡ none → contains ds chs ≡ false)
        → strip ds (ch ∷ chs) ≡ o
        → first_found o (before ch found) ≡ none
        → contains ds (ch ∷ chs) ≡ false
    by_found none none free s e =
        let here = strip-none ds (ch ∷ chs) [] (ap (λ x. strip ds x) (append-nil (ch ∷ chs)) ∙ s) in
        rw here (free refl)
    by_found none (some (t, r)) free s e = cc
    by_found (some k) found free s e = cc

abbrev IsNonempty : List (List ℕ) → Type 0
IsNonempty tokens = 0 < length tokens

join-prepend :
    (token separator : List ℕ) (tokens : List (List ℕ))
    → IsNonempty tokens
    → join_string (token ∷ tokens) separator ≡ token ++ (separator ++ join_string tokens separator)
unfolding join_string
join-prepend token separator [] h = absurd (omega arith)
join-prepend token separator (next ∷ tokens) h = refl

-- What is made of the tokens, one after another.
abbrev pub gather : (List ℕ → List (List ℕ)) → List (List ℕ) → List (List ℕ)
gather keep [] = []
gather keep (token ∷ tokens) = keep token ++ gather keep tokens

gather_all :
    (tokens : List (List ℕ))
    → gather (append_split_token keep_whitespace split_want_all) tokens ≡ tokens
unfolding append_split_token
gather_all [] = refl
gather_all (token ∷ tokens) = ap (λ ts. token ∷ ts) (gather_all tokens)

-- The tokens of the loop, whatever is made of them.
record Rejoins (ds input : List ℕ) (loop : (List ℕ → List (List ℕ)) → Option (List (List ℕ)))
    : Type 0 where
  tokens : List (List ℕ)
  given : (keep : List ℕ → List (List ℕ)) → loop keep ≡ some (gather keep tokens)
  nonempty : IsNonempty tokens
  joined : join_string tokens ds ≡ input
  free : All (λ token. contains ds token ≡ false) tokens

loop-Rejoins :
    (fuel d : ℕ) (ds input : List ℕ)
    → length input < fuel
    → Rejoins (d ∷ ds) input (λ keep. split_loop fuel keep (d ∷ ds) input)
unfolding split_loop
loop-Rejoins zero d ds input h = absurd (omega arith)
loop-Rejoins (suc fuel) d ds input h =
    by_find (find_delimiter (d ∷ ds) input) (find_lem (d ∷ ds) input) (found_free (d ∷ ds) input)
      (none_free (d ∷ ds) input) (λ rest short. loop-Rejoins fuel d ds rest short)
  where
    loop : (List ℕ → List (List ℕ)) → List ℕ → Option (List (List ℕ))
    loop keep rest = split_loop fuel keep (d ∷ ds) rest

    by_find :
        (o : Option (List ℕ × List ℕ))
        → ((token rest : List ℕ) → o ≡ some (token, rest) → token ++ (d ∷ ds ++ rest) ≡ input)
        → ((token rest : List ℕ) → o ≡ some (token, rest) → contains (d ∷ ds) token ≡ false)
        → (o ≡ none → contains (d ∷ ds) input ≡ false)
        → ((rest : List ℕ) → length rest < fuel → Rejoins (d ∷ ds) rest (λ keep. loop keep rest))
        → Rejoins (d ∷ ds) input (λ keep. after_find (loop keep) keep input o)
    by_find none found before_it nowhere more = record {
      tokens = input ∷ [];
      given = λ keep. ap some (sym (append-nil (keep input)));
      nonempty = omega arith;
      joined = unfold join_string in refl;
      free = (nowhere refl, tt);
    }
    by_find (some (token, rest)) found before_it nowhere more =
        let whole = found token rest refl in
        let short : length rest < fuel = omega (
          arith,
          h,
          ap length whole,
          length-append token (d ∷ ds ++ rest),
          length-append ds rest,
        ) in
        let r = more rest short in
        record {
          tokens = token ∷ r.tokens;
          given = λ keep. ap (prepend (keep token)) (r.given keep);
          nonempty = omega arith;
          joined =
              join-prepend token (d ∷ ds) r.tokens r.nonempty
              ∙ ap (λ l. token ++ (d ∷ ds ++ l)) r.joined
              ∙ whole;
          free = (before_it token rest refl, r.free);
        }

-- SplitString with a delimiter that is not empty returns for every input. Where it keeps whitespace and
-- empty tokens, no token has the delimiter in it, and JoinString with the delimiter joins them to the
-- input; in each of its modes, it gives what the mode makes of each of these tokens, one after another.
pub join-split :
    (input : List ℕ) (d : ℕ) (ds : List ℕ) (whitespace : WhitespaceHandling)
    (result_type : SplitResult)
    → (tokens : List (List ℕ)) × (split_string input (d ∷ ds) keep_whitespace split_want_all
        ≡ some tokens)
      × All (λ token. contains (d ∷ ds) token ≡ false) tokens
      × (join_string tokens (d ∷ ds) ≡ input)
      × (split_string input (d ∷ ds) whitespace result_type
          ≡ some (gather (append_split_token whitespace result_type) tokens))
unfolding split_string
join-split input d ds whitespace result_type =
    let r = loop-Rejoins (length input + 1) d ds input (omega arith) in
    (
      r.tokens,
      r.given (append_split_token keep_whitespace split_want_all) ∙ ap some (gather_all r.tokens),
      r.free,
      r.joined,
      r.given (append_split_token whitespace result_type),
    )
