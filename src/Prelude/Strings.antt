-- ===== src/Prelude/Strings.antt =====
-- Byte strings as written.
use Prim.Native.String.{String}
use Prim.Native.Char.{code}
use mathlib.Core.List.{[], ◌∷◌}
use k8s_1m.Prelude.Order.{Bytes}

-- `b"..."`, of ASCII characters.
abbrev pub bytes : String → Bytes
bytes String.[] = []
bytes (String.◌∷◌ c s) = code c ∷ bytes s
