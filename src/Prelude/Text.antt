-- ===== src/Prelude/Text.antt =====
-- Text literals as byte strings. Every literal of the model is ASCII, where code points are bytes.
use Prim.Native.Char.{code}
use Prim.Native.String.{String}
use agent_cortex.Prelude.Tests.{Bytes}
use mathlib.Core.List.{[], ◌∷◌}

abbrev pub codes : String → Bytes
codes String.[] = []
codes (String.◌∷◌ c s) = code c ∷ codes s
