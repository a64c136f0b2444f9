-- ===== src/Strings/Split.antt =====
-- `SplitString` and `JoinString` (src/neixx/strings/split_string.cpp). A string is the list of its
-- code units, so that the overloads for both kinds of string are one.
pub mod JoinSplit
mod Tests
use libnei.Common.{
  ℕ, zero, suc, ◌+◌, Bool, true, false, not, ◌&&◌, ◌||◌, List, [], ◌∷◌, ◌++◌, Option, none, some,
  ◌==◌, if◌then◌else◌, length,
}

pub data WhitespaceHandling : Type 0 where
  keep_whitespace trim_whitespace : WhitespaceHandling

pub data SplitResult : Type 0 where
  split_want_all split_want_nonempty : SplitResult

abbrev pub is_ascii_whitespace : ℕ → Bool
is_ascii_whitespace ch =
    ch == 0x20 || ch == 0x09 || ch == 0x0a || ch == 0x0d || ch == 0x0c || ch == 0x0b

unfoldable pub trim_front : List ℕ → List ℕ
trim_front [] = []
trim_front (ch ∷ chs) =
    let rest = trim_front chs in if is_ascii_whitespace ch then rest else ch ∷ chs

-- The second loop of `TrimWhitespaceView`: whitespace with no other character behind it goes.
unfoldable pub trim_back : List ℕ → List ℕ
trim_back [] = []
trim_back (ch ∷ chs) =
    let rest = trim_back chs in
    elim rest [ [] ↦ if is_ascii_whitespace ch then [] else ch ∷ [] | d ∷ ds ↦ ch ∷ d ∷ ds ]

unfoldable pub trim_whitespace_view : List ℕ → List ℕ
unfolding trim_front trim_back
trim_whitespace_view input = trim_back (trim_front input)

abbrev pub is_nil : List ℕ → Bool
is_nil [] = true
is_nil (ch ∷ chs) = false

-- What a token adds to the result.
abbrev pub wanted : SplitResult → List ℕ → List (List ℕ)
wanted split_want_all token = token ∷ []
wanted split_want_nonempty token = if is_nil token then [] else token ∷ []

unfoldable pub append_split_token : WhitespaceHandling → SplitResult → List ℕ → List (List ℕ)
unfolding trim_whitespace_view
append_split_token keep_whitespace result_type token = wanted result_type token
append_split_token trim_whitespace result_type token =
    wanted result_type (trim_whitespace_view token)

-- What follows a prefix.
unfoldable pub strip : List ℕ → List ℕ → Option (List ℕ)
strip [] input = some input
strip (d ∷ ds) [] = none
strip (d ∷ ds) (ch ∷ chs) = let rest = strip ds chs in if d == ch then rest else none

abbrev pub before : ℕ → Option (List ℕ × List ℕ) → Option (List ℕ × List ℕ)
before ch none = none
before ch (some (token, rest)) = some (ch ∷ token, rest)

abbrev pub first_found : Option (List ℕ) → Option (List ℕ × List ℕ) → Option (List ℕ × List ℕ)
first_found none later = later
first_found (some rest) later = some ([], rest)

-- `find`: what is before the first delimiter, and what is behind it.
unfoldable pub find_delimiter : List ℕ → List ℕ → Option (List ℕ × List ℕ)
unfolding strip
find_delimiter delimiter [] = first_found (strip delimiter []) none
find_delimiter delimiter (ch ∷ chs) =
    first_found (strip delimiter (ch ∷ chs)) (before ch (find_delimiter delimiter chs))

abbrev pub prepend : List (List ℕ) → Option (List (List ℕ)) → Option (List (List ℕ))
prepend tokens none = none
prepend tokens (some more) = some (tokens ++ more)

-- What follows a search: `loop` is the rest of the loop, `keep` makes the result of a token.
abbrev pub after_find :
    (List ℕ → Option (List (List ℕ)))
    → (List ℕ → List (List ℕ))
    → List ℕ
    → Option (List ℕ × List ℕ)
    → Option (List (List ℕ))
after_find loop keep input none = some (keep input)
after_find loop keep input (some (token, rest)) = prepend (keep token) (loop rest)

-- The loop on fuel, on the input from `begin` on.
unfoldable pub split_loop : ℕ → (List ℕ → List (List ℕ)) → List ℕ → List ℕ → Option (List (List ℕ))
unfolding find_delimiter
split_loop zero keep delimiter input = none
split_loop (suc fuel) keep delimiter input =
    after_find (split_loop fuel keep delimiter) keep input (find_delimiter delimiter input)

-- `SplitStringT`. `none` is no value of the source: the loop would have run out of fuel.
unfoldable pub split_string :
    List ℕ → List ℕ → WhitespaceHandling → SplitResult → Option (List (List ℕ))
unfolding append_split_token split_loop
split_string input [] whitespace result_type =
    some (append_split_token whitespace result_type input)
split_string input (d ∷ ds) whitespace result_type =
    split_loop (length input + 1) (append_split_token whitespace result_type) (d ∷ ds) input

-- `JoinStringT`
unfoldable pub join_string : List (List ℕ) → List ℕ → List ℕ
join_string [] separator = []
join_string (part ∷ []) separator = part
join_string (part ∷ next ∷ parts) separator =
    part ++ (separator ++ join_string (next ∷ parts) separator)
