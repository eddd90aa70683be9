-- ===== src/Base/Text.antt =====
-- The bytes of a string constant of the program; all of them are ASCII.
use Prim.Native.Char.{code}
use Prim.Native.String.{String}
use mathlib.Core.List.{[], ◌∷◌}
use zephyr_chain.Base.Lists.{Bytes}

unfoldable pub codes : String → Bytes
codes String.[] = []
codes (String.◌∷◌ c s) = code c ∷ codes s
