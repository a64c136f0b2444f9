-- ===== src/Common/Texts.antt =====
-- Texts as the lists of their bytes, which all components share.
use Prim.Native.Nat.{ℕ}
use Prim.Native.Char.{code}
use Prim.Native.String.{String}
use mathlib.Core.Bool.{Bool, true, false, ◌&&◌}
use mathlib.Core.List.{List, [], ◌∷◌}
use libnei.Common.Tests.{◌==◌}

abbrev pub Text : Type 0
Text = List ℕ

-- The bytes of an ASCII literal.
abbrev pub codes : String → Text
codes String.[] = []
codes (String.◌∷◌ c s) = code c ∷ codes s

-- `operator==` of std::string.
unfoldable pub text_equal : Text → Text → Bool
text_equal [] [] = true
text_equal [] (b ∷ bs) = false
text_equal (a ∷ as_) [] = false
text_equal (a ∷ as_) (b ∷ bs) = a == b && text_equal as_ bs
