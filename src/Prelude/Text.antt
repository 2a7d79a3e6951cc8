-- ===== src/Prelude/Text.antt =====
-- Texts as lists of code units, where the program walks them.
use Prim.Native.Nat.{ℕ}
use Prim.Native.Char.{code}
use Prim.Native.String.{String}
use mathlib.Core.List.{List, [], ◌∷◌}

-- the code units of an ASCII literal
abbrev pub codes : String → List ℕ
codes String.[] = []
codes (String.◌∷◌ first rest) = code first ∷ codes rest
