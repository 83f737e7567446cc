-- ===== src/Prelude/Text.antt =====
-- The bytes of a constant text of the program, all of which are ASCII.
use Prim.Native.Char.{code}
use Prim.Native.String.{String}
use mathlib.Core.List.{[], ◌∷◌}
use kafka_minion.Prelude.Lists.{Bytes}

abbrev pub bytes_of : String → Bytes
bytes_of String.[] = []
bytes_of (String.◌∷◌ c s) = code c ∷ bytes_of s
