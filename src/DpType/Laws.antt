-- ===== src/DpType/Laws.antt =====
-- The names of the data point types, and what a name says of quality and time.
use fledge_south_tase.Common.{
  String, ◌≡◌, refl, inl, inr, ◌↔◌, ◌≢◌, Option, none, some, arith, Option-cases, All, subst,
}
use fledge_south_tase.Common.Texts.{has_char}
use fledge_south_tase.Common.Maps.{lookup, All-lookup}
use fledge_south_tase.DpType.{
  DpType, real, get_dp_type_from_string, dp_type_to_str, dp_type_map, has_quality, has_timestamp,
  dp_type_unknown,
}

-- What is printed for a type is read back as it.
abbrev ReadsAs : DpType → Option String → Type 0
ReadsAs t none = Unit
ReadsAs t (some s) = get_dp_type_from_string s ≡ t

dp_type_to_str-ReadsAs : (t : DpType) → ReadsAs t (dp_type_to_str t)
unfolding dp_type_to_str get_dp_type_from_string lookup
dp_type_to_str-ReadsAs real = refl
dp_type_to_str-ReadsAs dp_type_unknown = tt
dp_type_to_str-ReadsAs _ = refl

-- Each entry of the map carries the name that is printed for its type.
dp_type_map-printed : All (λ e. dp_type_to_str e.1 ≡ some e.0) dp_type_map
unfolding dp_type_to_str
dp_type_map-printed = ground arith

-- A name is printed for a known type exactly when the name is read as that type: the two maps are
-- inverse to each other, and no other text is read as a known type.
pub dp_type_to_str_iff :
    (t : DpType) (s : String)
    → t ≢ dp_type_unknown
    → (dp_type_to_str t ≡ some s) ↔ (get_dp_type_from_string s ≡ t)
unfolding get_dp_type_from_string
dp_type_to_str_iff t s h = (
  λ e. subst (ReadsAs t) e (dp_type_to_str-ReadsAs t),
  λ e. elim (Option-cases (lookup s dp_type_map)) [
    | inl missing ↦ absurd (h (ground arith))
    | inr (u, found) ↦
        All-lookup (λ k v. dp_type_to_str v ≡ some k) s dp_type_map dp_type_map-printed
          (ground arith)
  ],
)

abbrev Says : DpType → Option String → Type 0
Says t none = Unit
Says t (some s) = (has_quality t ≡ has_char b'Q' s) × (has_timestamp t ≡ has_char b'T' s)

dp_type_to_str-Says : (t : DpType) → Says t (dp_type_to_str t)
unfolding dp_type_to_str has_char has_quality has_timestamp
dp_type_to_str-Says real = (refl, refl)
dp_type_to_str-Says dp_type_unknown = tt
dp_type_to_str-Says _ = (refl, refl)

-- The name of a known type says what is sent with it: a quality exactly when the name holds a Q,
-- and a time exactly when it holds a T.
pub has_quality-has_timestamp :
    (t : DpType) (s : String)
    → dp_type_to_str t ≡ some s
    → (has_quality t ≡ has_char b'Q' s) × (has_timestamp t ≡ has_char b'T' s)
has_quality-has_timestamp t s e = subst (Says t) e (dp_type_to_str-Says t)
