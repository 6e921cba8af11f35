-- ===== src/Config/TypeCheck/Nested.antt =====
-- What traverseAndCheckTypes (src/tase2_client_config.cpp) leaves unchecked: it looks a leaf up by
-- its whole path, and the table holds names alone.
use fledge_south_tase.Common.{
  ℕ, suc, String, Bool, true, false, ◌||◌, none, ◌≡◌, refl, ◌∙◌, inl, inr, arith, All, Option-cases,
}
use fledge_south_tase.Common.Texts.{◌⧺◌, is_empty, has_char, has_char-append, to_string}
use fledge_south_tase.Common.Maps.{lookup, All-lookup}
use fledge_south_tase.Json.{
  Json, null, bool, int, number, str, arr, obj, Items, nil, cons, Members, end, member, members,
}
use fledge_south_tase.Config.TypeCheck.{
  is_correct_type, expected_type_map, member_path, index_path, traverse_and_check_types,
}
use fledge_south_tase.Config.TypeCheck.Reference.{
  check, check_members, check_items, traverse_and_check_types-check,
}

abbrev is_deep : String → Bool
is_deep p = has_char b'.' p || has_char b'[' p

-- No name of the table holds a dot or a bracket.
expected_type_map-flat : All (λ e. is_deep e.0 ≡ false) expected_type_map
unfolding has_char
expected_type_map-flat = ground arith

lookup_deep : (p : String) → is_deep p ≡ true → lookup p expected_type_map ≡ none
lookup_deep p deep = elim (Option-cases (lookup p expected_type_map)) [
  | inl missing ↦ missing
  | inr (k, found) ↦
      let flat : is_deep p ≡ false =
        All-lookup (λ s _. is_deep s ≡ false) p expected_type_map expected_type_map-flat found in
      cc
]

leaf_deep : (p : String) (v : Json) → is_deep p ≡ true → is_correct_type p v ≡ true
unfolding is_correct_type
leaf_deep p v deep = rw (lookup_deep p deep)

or_true : (a b c d : Bool) → (a || (b || c)) ≡ true → ((a || d) || (b || c)) ≡ true
or_true a b c d h = ground arith

-- A path grows to a deep one.
member_path-deep : (p k : String) → is_empty p ≡ false → is_deep (member_path p k) ≡ true
unfolding has_char
member_path-deep p k full =
    rw (full, has_char-append b'.' p ("." ⧺ k), has_char-append b'.' "." k) (ground arith)

index_path-deep : (p : String) (i : ℕ) → is_deep (index_path p i) ≡ true
unfolding has_char
index_path-deep p i =
    rw
      (
        has_char-append b'[' p ("[" ⧺ (to_string i ⧺ "]")),
        has_char-append b'[' "[" (to_string i ⧺ "]"),
      )
      (ground arith)

is_deep-full : (p : String) → is_deep p ≡ true → is_empty p ≡ false
unfolding has_char
is_deep-full String.[] h = cc
is_deep-full (String.◌∷◌ c s) h = refl

mutual
  unfolding check

  check_deep : (v : Json) (p : String) → is_deep p ≡ true → check p v ≡ true
  check_deep (obj ms) p deep = check_members_full ms p (is_deep-full p deep)
  check_deep (arr xs) p deep = check_items-true xs p 0
  check_deep null p deep = leaf_deep p null deep
  check_deep (bool b) p deep = leaf_deep p (bool b) deep
  check_deep (int z) p deep = leaf_deep p (int z) deep
  check_deep number p deep = leaf_deep p number deep
  check_deep (str s) p deep = leaf_deep p (str s) deep

  check_members_full : (ms : Members) (p : String) → is_empty p ≡ false → check_members p ms ≡ true
  check_members_full end p full = refl
  check_members_full (member k v ms) p full =
      rw (check_deep v (member_path p k) (member_path-deep p k full), check_members_full ms p full)

  check_items-true : (xs : Items) (p : String) (i : ℕ) → check_items p i xs ≡ true
  check_items-true nil p i = refl
  check_items-true (cons v xs) p i =
      rw (check_deep v (index_path p i) (index_path-deep p i), check_items-true xs p (suc i))

abbrev pub is_container : Json → Bool
is_container (obj ms) = true
is_container (arr xs) = true
is_container _ = false

check_container :
    (k : String) (v : Json) → is_empty k ≡ false → is_container v ≡ true → check k v ≡ true
unfolding check
check_container k (obj ms) full c = check_members_full ms k full
check_container k (arr xs) full c = check_items-true xs k 0
check_container k v full c = cc

check_members_containers :
    (ms : Members)
    → All (λ e. (is_empty e.0 ≡ false) × (is_container e.1 ≡ true)) (members ms)
    → check_members "" ms ≡ true
unfolding check
check_members_containers end h = refl
check_members_containers (member k v ms) ((full, c), h) =
    rw (check_container k v full c, check_members_containers ms h)

-- A document whose top-level members have names and are objects or arrays passes the check,
-- whatever the types of the values inside: no parameter below the top level is checked.
pub traverse_and_check_types_nested :
    (ms : Members)
    → All (λ e. (is_empty e.0 ≡ false) × (is_container e.1 ≡ true)) (members ms)
    → traverse_and_check_types (obj ms) ≡ true
unfolding check
traverse_and_check_types_nested ms h =
    traverse_and_check_types-check (obj ms) ∙ check_members_containers ms h
