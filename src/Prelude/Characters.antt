-- ===== src/Prelude/Characters.antt =====
-- A text as the list of its characters, in a form that computes in every file.
use Prim.Native.Char.{Char}
use Prim.Native.String.{String, [] as empty, ◌∷◌ as ◌then◌}
use mathlib.Core.List.{List, [], ◌∷◌}

abbrev pub characters : String → List Char
characters empty = []
characters (c then text) = c ∷ characters text
