-- ===== src/Json.antt =====
-- The values of a parsed document, as rapidjson documents them, and its accessors. An accessor
-- whose precondition fails (RAPIDJSON_ASSERT: a member of what is no object, `[]` on a missing
-- member, `GetInt` on what is no int) is a `fault`. The parser itself is a parameter.
pub mod Ensures
pub mod Shape
pub mod NoFault
use fledge_south_tase.Common.{
  ℕ, String, Bool, true, false, List, [], ◌∷◌, Option, none, some, ◌≡◌, refl, if◌then◌else◌,
}
use fledge_south_tase.Common.Texts.{◌==◌}
use fledge_south_tase.Common.Maps.{lookup}
use fledge_south_tase.Common.Int.{ℤ}

mutual
  -- `int` is a number for which IsInt () holds, `number` any other number.
  pub data Json : Type 0 where
    null : Json
    bool : Bool → Json
    int : ℤ → Json
    number : Json
    str : String → Json
    arr : Items → Json
    obj : Members → Json

  pub data Items : Type 0 where
    nil : Items
    cons : Json → Items → Items

  pub data Members : Type 0 where
    end : Members
    member : String → Json → Members → Members

-- rapidjson::Type
pub data Kind : Type 0 where
  null_type false_type true_type object_type array_type string_type number_type : Kind

abbrev pub get_type : Json → Kind
get_type null = Kind.null_type
get_type (bool false) = Kind.false_type
get_type (bool true) = Kind.true_type
get_type (int z) = Kind.number_type
get_type number = Kind.number_type
get_type (str s) = Kind.string_type
get_type (arr xs) = Kind.array_type
get_type (obj ms) = Kind.object_type

abbrev pub elements : Items → List Json
elements nil = []
elements (cons x xs) = x ∷ elements xs

abbrev pub members : Members → List (String × Json)
members end = []
members (member k v ms) = (k, v) ∷ members ms

-- What a piece of the configuration code ends in: a value, a ConfigurationException, or the
-- failed precondition of an accessor.
pub data Result {ℓ} (A : Type ℓ) : Type ℓ where
  ok : A → Result A
  thrown : String → Result A
  fault : Result A

-- Shut, so that a proof follows a `do` block by the rule for binds (Json/Ensures) or opens it.
infixl 5 ◌>>=◌
unfoldable pub ◌>>=◌ {ℓ κ} : {A : Type ℓ} {B : Type κ} → Result A → (A → Result B) → Result B
ok value >>= next = next value
thrown message >>= next = thrown message
fault >>= next = fault

-- Where two pieces succeed together, each of them does.
pub bind-ok {ℓ κ} :
    {A : Type ℓ} {B : Type κ} (piece : Result A) (next : A → Result B) {end_value : B}
    → (piece >>= next) ≡ ok end_value
    → (value : A) × (piece ≡ ok value) × (next value ≡ ok end_value)
unfolding ◌>>=◌
bind-ok (ok value) next success = (value, refl, success)
bind-ok (thrown message) next success = cc
bind-ok fault next success = cc

-- The first member of a name.
abbrev pub find_member : String → Json → Option Json
find_member k (obj ms) = lookup k (members ms)
find_member k _ = none

abbrev pub is_object : Json → Bool
is_object (obj ms) = true
is_object _ = false

abbrev pub is_string : Json → Bool
is_string (str s) = true
is_string _ = false

abbrev pub is_array : Json → Bool
is_array (arr xs) = true
is_array _ = false

-- v.HasMember (k) and v[k] in one: the callers read a member only after the test, and
-- HasMember itself asserts that `v` is an object.
abbrev pub get_member : String → Json → Result (Option Json)
get_member k (obj ms) = ok (lookup k (members ms))
get_member k _ = fault

abbrev pub present : Option Json → Result Json
present (some v) = ok v
present none = fault

-- v[k], which asserts that the member is there
abbrev pub at_member : String → Json → Result Json
at_member k v = do present (← get_member k v)

abbrev pub get_string : Json → Result String
get_string (str s) = ok s
get_string _ = fault

abbrev pub get_int : Json → Result ℤ
get_int (int z) = ok z
get_int _ = fault

abbrev pub get_bool : Json → Result Bool
get_bool (bool b) = ok b
get_bool _ = fault

abbrev pub get_array : Json → Result (List Json)
get_array (arr xs) = ok (elements xs)
get_array _ = fault
