-- ===== src/Text/Literal.antt =====
-- String literals of the C++ as bytes; all of them are ASCII.
use Prim.Native.Char.{code}
use Prim.Native.String.{String}
use occa_transpiler.Base.{[], ◌∷◌}
use occa_transpiler.Ast.{Bytes}

abbrev pub codes : String → Bytes
codes String.[] = []
codes (String.◌∷◌ c s) = code c ∷ codes s
