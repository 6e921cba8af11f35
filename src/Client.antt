-- ===== src/Client.antt =====
-- TASE2Client (src/tase2_client.cpp): the values that are read or reported become data objects,
-- which are ingested under a label, and the commands that are sent over the active connection.
-- The point values of libtase2 and the floats are parameters (`PointLibrary`), and so are the
-- library's calls on the active connection (`Device`).
pub mod Clock
pub mod Handling
pub mod Values
pub mod Commands
pub mod Monitor
pub mod Flags
use fledge_south_tase.Common.{
  ℕ, suc, ◌+◌, String, Bool, true, false, not, List, [], ◌∷◌, ◌++◌, Option, none, some, nat_eq,
  bit_or, get_elem?, if◌then◌else◌,
}
use fledge_south_tase.Common.Texts.{find_char, take_text, drop_text, join}
use fledge_south_tase.Common.Int.{ℤ}
use fledge_south_tase.DpType.{
  DpType, real, realq, realqtime, realqtimeext, state, stateq, stateqtime, stateqtimeext, discrete,
  discreteq, discreteqtime, discreteqtimeext, statesup, statesupq, statesupqtime, statesupqtimeext,
  command, setpointreal, setpointdiscrete, dp_type_unknown, has_quality, has_timestamp,
  dp_type_to_str,
}
use fledge_south_tase.Config.{Config, DataExchangeDefinition}
use fledge_south_tase.Config.Datasets.{get_exchange_definition_by_ref}

-- Tase2_PointValue and its accessors, the floats, and the flags of libtase2.
pub record PointLibrary : Type 1 where
  pub Real : Type 0
  pub PointValue : Type 0
  pub get_discrete : PointValue → ℤ
  pub get_state_supplemental : PointValue → ℤ
  pub get_state : PointValue → ℤ
  pub get_real : PointValue → Real
  pub get_flags : PointValue → ℕ
  pub create_discrete : ℤ → PointValue
  pub create_real : Real → PointValue
  pub validity_valid : ℕ
  pub validity_held : ℕ
  pub validity_suspect : ℕ
  pub validity_notvalid : ℕ
  pub source_telemetered : ℕ
  pub source_entered : ℕ
  pub source_calculated : ℕ
  pub source_estimated : ℕ
  pub normal_value : ℕ

-- What a function comes to: a value, the dereference of a null pointer, or an exception that
-- nothing catches (std::out_of_range of `at`).
pub data Outcome {ℓ} (A : Type ℓ) : Type ℓ where
  done : A → Outcome A
  null_dereference : Outcome A
  out_of_range : Outcome A

infixl 5 ◌>>=◌
abbrev pub ◌>>=◌ {ℓ κ} : {A : Type ℓ} {B : Type κ} → Outcome A → (A → Outcome B) → Outcome B
done a >>= f = f a
null_dereference >>= f = null_dereference
out_of_range >>= f = out_of_range

-- What is done with a definition, and what it comes to where there is none.
abbrev pub when_defined {ℓ} :
    {A : Type ℓ}
    → Option DataExchangeDefinition
    → A
    → (DataExchangeDefinition → Outcome A)
    → Outcome A
when_defined none a k = done a
when_defined (some def) a k = k def

-- `DpTypeMap.at`, which throws where there is no name
abbrev pub at_name {ℓ} : {A : Type ℓ} → Option String → (String → A) → Outcome A
at_name none k = out_of_range
at_name (some s) k = done (k s)

-- `flags | mask` as a condition
abbrev pub either_set : ℕ → ℕ → Bool
either_set flags mask = not (nat_eq (bit_or flags mask) 0)

-- splitExchangeRef; npos + 1 is 0.
abbrev pub split_at : String → Option ℕ → String × String
split_at ref none = (ref, ref)
split_at ref (some p) = (take_text p ref, drop_text (suc p) ref)

unfoldable pub split_exchange_ref : String → String × String
split_exchange_ref ref = split_at ref (find_char b':' ref)

module _ (lib : PointLibrary) where
  open lib use {Real, PointValue}

  unfoldable pub validity_to_string : ℕ → String
  validity_to_string flags =
      if either_set flags lib.validity_valid
      then "valid"
      else if either_set flags lib.validity_held
      then "held"
      else if either_set flags lib.validity_suspect
      then "suspect"
      else if either_set flags lib.validity_notvalid
      then "invalid"
      else ""

  unfoldable pub current_source_to_string : ℕ → String
  current_source_to_string flags =
      if either_set flags lib.source_telemetered
      then "telemetered"
      else if either_set flags lib.source_entered
      then "entered"
      else if either_set flags lib.source_calculated
      then "calculated"
      else if either_set flags lib.source_estimated
      then "estimated"
      else ""

  unfoldable pub normal_value_to_string : ℕ → String
  normal_value_to_string flags = if either_set flags lib.normal_value then "normal" else "abnormal"

  -- A DatapointValue, and a data object: the fields of the Datapoint "data_object", in order.
  pub data Field : Type 0 where
    text : String → Field
    integer : ℤ → Field
    double : Real → Field
    long : ℕ → Field

  abbrev pub DataObject : Type 0
  DataObject = List (String × Field)

  -- The switch of m_createDataObject.
  unfoldable pub value_fields : PointValue → DpType → DataObject
  value_fields v command = ("do_value", integer (lib.get_discrete v)) ∷ []
  value_fields v setpointdiscrete = ("do_value", integer (lib.get_discrete v)) ∷ []
  value_fields v discrete = ("do_value", integer (lib.get_discrete v)) ∷ []
  value_fields v discreteq = ("do_value", integer (lib.get_discrete v)) ∷ []
  value_fields v discreteqtime = ("do_value", integer (lib.get_discrete v)) ∷ []
  value_fields v discreteqtimeext = ("do_value", integer (lib.get_discrete v)) ∷ []
  value_fields v statesup = ("do_value", integer (lib.get_state_supplemental v)) ∷ []
  value_fields v statesupq = ("do_value", integer (lib.get_state_supplemental v)) ∷ []
  value_fields v statesupqtime = ("do_value", integer (lib.get_state_supplemental v)) ∷ []
  value_fields v statesupqtimeext = ("do_value", integer (lib.get_state_supplemental v)) ∷ []
  value_fields v state = ("do_value", integer (lib.get_state v)) ∷ []
  value_fields v stateq = ("do_value", integer (lib.get_state v)) ∷ []
  value_fields v stateqtime = ("do_value", integer (lib.get_state v)) ∷ []
  value_fields v stateqtimeext = ("do_value", integer (lib.get_state v)) ∷ []
  value_fields v setpointreal = ("do_value", double (lib.get_real v)) ∷ []
  value_fields v real = ("do_value", double (lib.get_real v)) ∷ []
  value_fields v realq = ("do_value", double (lib.get_real v)) ∷ []
  value_fields v realqtime = ("do_value", double (lib.get_real v)) ∷ []
  value_fields v realqtimeext = ("do_value", double (lib.get_real v)) ∷ []
  value_fields v dp_type_unknown = []

  unfoldable pub quality_fields : ℕ → DataObject
  quality_fields flags =
      ("do_validity", text (validity_to_string flags))
      ∷ ("do_cs", text (current_source_to_string flags))
      ∷ ("do_quality_normal_value", text (normal_value_to_string flags))
      ∷ []

  abbrev pub time_fields : ℕ → DataObject
  time_fields ts = ("do_ts", long ts) ∷ ("do_ts_validity", text "valid") ∷ []

  abbrev name_fields : String → String → String → DataObject
  name_fields type domain name =
      ("do_type", text type) ∷ ("do_domain", text domain) ∷ ("do_name", text name) ∷ []

  -- m_createDataObject; a type with no name throws.
  unfoldable pub create_data_object : PointValue → String → String → ℕ → DpType → Outcome DataObject
  create_data_object v domain name ts type = at_name (dp_type_to_str type) λ s.
      name_fields s domain name
      ++ (value_fields v type
          ++ ((if has_quality type then quality_fields (lib.get_flags v) else [])
              ++ (if has_timestamp type then time_fields ts else [])))

  -- The library's calls on the active connection's client.
  pub record Device : Type 0 where
    pub read_point_value : String → String → Option PointValue
    pub select_device : String → String → Bool
    pub send_command_value : String → String → ℤ → Bool
    pub send_real_set_point : String → String → Real → Bool
    pub send_discrete_set_point : String → String → ℤ → Bool
