-- ===== src/Config/TypeCheck.antt =====
-- isCorrectType and traverseAndCheckTypes (src/tase2_client_config.cpp): the type check that runs
-- over a parsed protocol configuration before it is imported.
pub mod Reference
pub mod Nested
use fledge_south_tase.Common.{
  ℕ, zero, suc, ◌+◌, String, Bool, true, false, List, [], ◌∷◌, Option, none, some, if◌then◌else◌,
}
use fledge_south_tase.Common.Texts.{◌⧺◌, to_string, is_empty}
use fledge_south_tase.Common.Maps.{lookup}
use fledge_south_tase.Json.{
  Json, null, bool, int, number, str, arr, obj, Items, nil, cons, Members, end, member, Kind,
  get_type,
}

abbrev pub same_kind : Kind → Kind → Bool
same_kind Kind.null_type Kind.null_type = true
same_kind Kind.false_type Kind.false_type = true
same_kind Kind.true_type Kind.true_type = true
same_kind Kind.object_type Kind.object_type = true
same_kind Kind.array_type Kind.array_type = true
same_kind Kind.string_type Kind.string_type = true
same_kind Kind.number_type Kind.number_type = true
same_kind _ _ = false

-- `expectedTypeMap`
abbrev pub expected_type_map : List (String × Kind)
expected_type_map =
    ("protocol_stack", Kind.object_type)
    ∷ ("transport_layer", Kind.object_type)
    ∷ ("application_layer", Kind.object_type)
    ∷ ("datasets", Kind.array_type)
    ∷ ("connections", Kind.array_type)
    ∷ ("ip_addr", Kind.string_type)
    ∷ ("port", Kind.number_type)
    ∷ ("tls", Kind.true_type)
    ∷ ("dataset_ref", Kind.string_type)
    ∷ ("entries", Kind.array_type)
    ∷ ("polling_interval", Kind.number_type)
    ∷ ("dataset_transfer_sets", Kind.array_type)
    ∷ ("name", Kind.string_type)
    ∷ ("dsConditions", Kind.array_type)
    ∷ ("interval", Kind.number_type)
    ∷ ("tle", Kind.number_type)
    ∷ ("bufTm", Kind.number_type)
    ∷ ("integrityCheck", Kind.number_type)
    ∷ ("critical", Kind.true_type)
    ∷ ("rbe", Kind.true_type)
    ∷ ("allChangesReported", Kind.true_type)
    ∷ ("osi", Kind.object_type)
    ∷ ("local_ap_title", Kind.string_type)
    ∷ ("local_ae_qualifier", Kind.number_type)
    ∷ ("remote_ap_title", Kind.string_type)
    ∷ ("remote_ae_qualifier", Kind.number_type)
    ∷ ("local_psel", Kind.string_type)
    ∷ ("local_ssel", Kind.string_type)
    ∷ ("local_tsel", Kind.string_type)
    ∷ ("remote_psel", Kind.string_type)
    ∷ ("remote_ssel", Kind.string_type)
    ∷ ("remote_tsel", Kind.string_type)
    ∷ []

-- A value of either Boolean is held to kTrueType.
abbrev pub has_kind : Kind → Json → Bool
has_kind k (bool b) = same_kind k Kind.true_type
has_kind k v = same_kind k (get_type v)

abbrev pub fits_expected : Option Kind → Json → Bool
fits_expected none v = true
fits_expected (some k) v = has_kind k v

unfoldable pub is_correct_type : String → Json → Bool
is_correct_type parameter v = fits_expected (lookup parameter expected_type_map) v

-- The path of a member and of an array's element.
abbrev pub member_path : String → String → String
member_path parent name = if is_empty parent then name else parent ⧺ ("." ⧺ name)

abbrev pub index_path : String → ℕ → String
index_path parent i = parent ⧺ ("[" ⧺ (to_string i ⧺ "]"))

abbrev pub Stack : Type 0
Stack = List (String × Json)

-- The two loops that push; the head of the list is the back of the vector.
unfoldable pub push_members : String → Members → Stack → Stack
push_members parent end stack = stack
push_members parent (member name v ms) stack =
    push_members parent ms ((member_path parent name, v) ∷ stack)

unfoldable pub push_items : String → ℕ → Items → Stack → Stack
push_items parent i nil stack = stack
push_items parent i (cons v xs) stack =
    push_items parent (suc i) xs ((index_path parent i, v) ∷ stack)

-- One round, for the entry that was popped.
unfoldable pub visit : String → Json → Stack → Bool → Stack × Bool
visit parent (obj ms) stack result = (push_members parent ms stack, result)
visit parent (arr xs) stack result = (push_items parent 0 xs stack, result)
visit parent v stack result = (stack, if is_correct_type parent v then result else false)

-- The loop with fuel; `none` means that the fuel ran out.
unfoldable pub traverse : ℕ → Stack → Bool → Option Bool
traverse fuel [] result = some result
traverse zero (entry ∷ stack) result = none
traverse (suc fuel) ((parent, v) ∷ stack) result =
    let (stack', result') = visit parent v stack result in traverse fuel stack' result'

-- The number of values in a tree: every value is popped once.
unfoldable mutual
  pub size : Json → ℕ
  size (obj ms) = suc (size_members ms)
  size (arr xs) = suc (size_items xs)
  size null = 1
  size (bool b) = 1
  size (int z) = 1
  size number = 1
  size (str s) = 1

  pub size_members : Members → ℕ
  size_members end = 0
  size_members (member k v ms) = size v + size_members ms

  pub size_items : Items → ℕ
  size_items nil = 0
  size_items (cons v xs) = size v + size_items xs

abbrev or_false : Option Bool → Bool
or_false none = false
or_false (some b) = b

-- The size of the document is fuel enough (`traverse-check`).
unfoldable pub traverse_and_check_types : Json → Bool
unfolding size
traverse_and_check_types v = or_false (traverse (size v) (("", v) ∷ []) true)
