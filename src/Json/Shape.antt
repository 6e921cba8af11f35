-- ===== src/Json/Shape.antt =====
-- Shapes of values: what is an object, a text, a number, or an array of such, where a member may be
-- missing or must be there.
use fledge_south_tase.Common.{Option, none, some, All}
use fledge_south_tase.Json.{Json, bool, int, str, arr, obj, elements}

abbrev pub IsObject : Json → Type 0
IsObject (obj ms) = Unit {0}
IsObject _ = ⊥

abbrev pub IsText : Json → Type 0
IsText (str s) = Unit {0}
IsText _ = ⊥

abbrev pub IsInt : Json → Type 0
IsInt (int z) = Unit {0}
IsInt _ = ⊥

abbrev pub IsFlag : Json → Type 0
IsFlag (bool b) = Unit {0}
IsFlag _ = ⊥

abbrev pub IsAny : Json → Type 0
IsAny v = Unit {0}

abbrev pub IsArrayOf : (Json → Type 0) → Json → Type 0
IsArrayOf P (arr xs) = All P (elements xs)
IsArrayOf P _ = ⊥

-- A member that may be missing.
abbrev pub Fits : (Json → Type 0) → Option Json → Type 0
Fits P none = Unit {0}
Fits P (some v) = P v

-- A member that must be there.
abbrev pub Has : (Json → Type 0) → Option Json → Type 0
Has P none = ⊥
Has P (some v) = P v

-- The elements, where a value is an array.
abbrev pub EachOf : (Json → Type 0) → Option Json → Type 0
EachOf P (some (arr xs)) = All P (elements xs)
EachOf P _ = Unit {0}
