-- ===== src/Strings/Split/Tests.antt =====
-- Runs of the string functions on concrete texts, and the theorem at a concrete input.
use libnei.Common.{ℕ, ◌≡◌, refl, false, List, [], ◌∷◌, some, All}
use libnei.Strings.Split.{
  keep_whitespace, trim_whitespace, split_want_all, split_want_nonempty, append_split_token,
  split_string, join_string,
}
use libnei.Strings.Split.JoinSplit.{contains, gather, join-split}

-- " a,,b"
abbrev listed : List ℕ
listed = 0x20 ∷ 0x61 ∷ 0x2c ∷ 0x2c ∷ 0x62 ∷ []

abbrev comma : List ℕ
comma = 0x2c ∷ []

all_tokens :
    split_string listed comma keep_whitespace split_want_all
    ≡ some ((0x20 ∷ 0x61 ∷ []) ∷ [] ∷ (0x62 ∷ []) ∷ [])
unfolding split_string
all_tokens = refl

trimmed_tokens :
    split_string listed comma trim_whitespace split_want_nonempty
    ≡ some ((0x61 ∷ []) ∷ (0x62 ∷ []) ∷ [])
unfolding split_string
trimmed_tokens = refl

join-split_example :
    (tokens : List (List ℕ)) × (split_string listed comma keep_whitespace split_want_all
      ≡ some tokens)
    × All (λ token. contains comma token ≡ false) tokens
    × (join_string tokens comma ≡ listed)
    × (split_string listed comma trim_whitespace split_want_nonempty
        ≡ some (gather (append_split_token trim_whitespace split_want_nonempty) tokens))
join-split_example = join-split listed 0x2c [] trim_whitespace split_want_nonempty
