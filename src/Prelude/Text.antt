-- ===== src/Prelude/Text.antt =====
-- Go strings as lists of bytes, and the texts that the source writes out.
use Prim.Native.Char.{code}
use Prim.Native.String.{String}
use mathlib.Core.List.{[], ◌∷◌}
use go_l2tp_debian.Prelude.Bytes.{Bytes}

-- the bytes of an ASCII text
abbrev pub text : String → Bytes
text String.[] = []
text (String.◌∷◌ c s) = code c ∷ text s
