-- ===== src/Text/Literal.antt =====
-- The code points of a string literal of the source.
use Prim.Native.Char.{code}
use Prim.Native.String.{String}
use yellowdb.Prelude.{ℕ, List, [], ◌∷◌}

abbrev pub codes : String → List ℕ
codes String.[] = []
codes (String.◌∷◌ c s) = code c ∷ codes s
