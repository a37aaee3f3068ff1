-- ===== src/Base/Texts.antt =====
-- Texts by the text_codes of their characters.
use Prim.Native.Char.{code}
use Prim.Native.String.{String}
use mathlib.Core.List.{List, [], ◌∷◌}
use Prim.Native.Nat.{ℕ}

-- `String` has its own `[]` and `∷`.
abbrev pub text_codes : String → List ℕ
text_codes String.[] = []
text_codes (String.◌∷◌ c s) = code c ∷ text_codes s
