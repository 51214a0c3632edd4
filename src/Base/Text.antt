-- ===== src/Base/Text.antt =====
-- Searching a text as the code points of its characters.
use Prim.Native.Nat.{ℕ, ◌+◌}
use Prim.Native.Char.{code}
use Prim.Native.String.{String}
use mathlib.Core.Bool.{Bool, true, false, ◌&&◌, ◌||◌}
use mathlib.Core.List.{List, [], ◌∷◌, map}
use codex_threadhub.Base.Tests.{leb, ◌==◌, if◌then◌else◌}
use codex_threadhub.Base.Lists.{any}

abbrev pub codes : String → List ℕ
codes String.[] = []
codes (String.◌∷◌ c s) = code c ∷ codes s

-- Upper and lower case of the ASCII letters are one under the flag `i` of a regular expression.
unfoldable pub lower : ℕ → ℕ
lower c = if leb 65 c && leb c 90 then c + 32 else c

unfoldable pub starts : List ℕ → List ℕ → Bool
starts [] text = true
starts (p ∷ ps) [] = false
starts (p ∷ ps) (c ∷ cs) = p == c && starts ps cs

unfoldable pub occurs : List ℕ → List ℕ → Bool
unfolding starts
occurs pattern [] = starts pattern []
occurs pattern (c ∷ cs) = starts pattern (c ∷ cs) || occurs pattern cs

-- One of the words occurs in the text, whatever its case.
unfoldable pub mentions : List String → String → Bool
unfolding occurs lower
mentions words text = let chars = map lower (codes text) in any (λ w. occurs (codes w) chars) words
