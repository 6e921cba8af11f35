-- ===== src/Config/Exchange/Invariant.antt =====
-- What the import of the exchange configuration builds (src/tase2_client_config.cpp).
use fledge_south_tase.Common.{
  String, Bool, true, false, List, [], ◌∷◌, Option, none, some, ◌≡◌, refl, arith, if◌then◌else◌,
  All, inl, inr, ◌⊎◌, Bool-cases,
}
use fledge_south_tase.Common.Texts.{eq_refl, find_char, has_char, find_char-none}
use fledge_south_tase.Common.Maps.{lookup, assign, lookup-assign, All-assign}
use fledge_south_tase.DpType.{DpType, below_command, get_dp_type_from_string}
use fledge_south_tase.Json.{Json, str, arr, obj, find_member, elements}
use fledge_south_tase.Config.{Config, DataExchangeDefinition, Externals, new_config}
use fledge_south_tase.Config.Steps.{Step, return, Keeps, Keeps-seq, Keeps-reading}
use fledge_south_tase.Config.Datasets.Polled.{is_some}
use fledge_south_tase.Config.Exchange.{
  add_definition, is_unknown, has_colon, import_known, text_member, array_member, object_member,
  import_protocol, import_protocols, import_datapoint, import_datapoints, import_exchange_document,
  import_exchange_config,
}

abbrev pub Definitions : Type 0
Definitions = List (String × DataExchangeDefinition)

abbrev pub is_defined : Definitions → String → Bool
is_defined refs k = is_some (lookup k refs)

-- An entry of the map by reference.
abbrev pub IsDefinition : String → DataExchangeDefinition → Type 0
IsDefinition k d = (d.ref ≡ k) × (is_unknown d.type ≡ false) × (has_char b':' k ≡ true)

-- An entry of the polled data points.
abbrev pub IsPolled : Definitions → String → DataExchangeDefinition → Type 0
IsPolled refs k d =
    (d.ref ≡ k)
    × (below_command d.type ≡ true)
    × (is_defined refs k ≡ true)
    × (is_unknown d.type ≡ false)

-- Every definition stands under its own reference, which has a colon, with a known type, and under
-- its own label; every polled point is of a known type below COMMAND and its reference is defined.
pub record IsConsistent (c : Config) : Type 0 where
  pub refs : All (λ e. IsDefinition e.0 e.1) c.exchange_definitions_ref
  pub labels : All (λ e. e.1.label ≡ e.0) c.exchange_definitions
  pub polled : All (λ e. IsPolled c.exchange_definitions_ref e.0 e.1) c.polled_datapoints

pub new_config-IsConsistent : IsConsistent new_config
new_config-IsConsistent = record { refs = tt; labels = tt; polled = tt }

is_defined-assign :
    (k j : String) (d : DataExchangeDefinition) (refs : Definitions)
    → is_defined refs j ≡ true
    → is_defined (assign k d refs) j ≡ true
is_defined-assign k j d refs h = ground (arith, lookup-assign k j d refs)

is_defined-assign_self :
    (k : String) (d : DataExchangeDefinition) (refs : Definitions)
    → is_defined (assign k d refs) k ≡ true
is_defined-assign_self k d refs = ground (arith, lookup-assign k k d refs, eq_refl k)

IsPolled-assign :
    (k : String) (d : DataExchangeDefinition) (refs polled : Definitions)
    → All (λ e. IsPolled refs e.0 e.1) polled
    → All (λ e. IsPolled (assign k d refs) e.0 e.1) polled
IsPolled-assign k d refs [] h = tt
IsPolled-assign k d refs ((j, w) ∷ m) ((a, b, c, u), h) =
    ((a, b, is_defined-assign k j d refs c, u), IsPolled-assign k d refs m h)

add_definition-IsConsistent :
    (label ref : String) (type : DpType) (c : Config)
    → is_unknown type ≡ false
    → has_char b':' ref ≡ true
    → IsConsistent c
    → IsConsistent (add_definition label ref type c)
unfolding add_definition
add_definition-IsConsistent label ref type c known colon h =
    let d : DataExchangeDefinition = record { ref = ref; type = type; label = label } in
    record {
      refs = All-assign IsDefinition ref d _ h.refs (refl, known, colon);
      labels = All-assign (λ k e. e.label ≡ k) label d _ h.labels refl;
      polled = kept (Bool-cases (below_command type));
    }
  where
    d : DataExchangeDefinition
    d = record { ref = ref; type = type; label = label }

    old : All (λ e. IsPolled (assign ref d c.exchange_definitions_ref) e.0 e.1) c.polled_datapoints
    old = IsPolled-assign ref d _ _ h.polled

    kept :
        (below_command type ≡ true) ⊎ (below_command type ≡ false)
        → All
            (λ e. IsPolled (assign ref d c.exchange_definitions_ref) e.0 e.1)
            (if below_command type then assign ref d c.polled_datapoints else c.polled_datapoints)
    kept (inl e) = rw e (
        All-assign (IsPolled (assign ref d c.exchange_definitions_ref)) ref d _ old
          (refl, e, is_defined-assign_self ref d c.exchange_definitions_ref, known))
    kept (inr e) = rw e old

import_known-IsConsistent :
    (label ref type_id : String) (c : Config)
    → IsConsistent c
    → IsConsistent (import_known label ref type_id c)
unfolding import_known
import_known-IsConsistent label ref type_id c h =
    elim (Bool-cases (is_unknown (get_dp_type_from_string type_id))) [
      | inl e ↦ rw e h
      | inr e ↦ elim (Bool-cases (has_char b':' ref)) [
        | inl colon ↦ known e colon
        | inr plain ↦ rw (e, find_char-none b':' ref plain) h
      ]
    ]
  where
    known :
        is_unknown (get_dp_type_from_string type_id) ≡ false
        → has_char b':' ref ≡ true
        → IsConsistent (
            if is_unknown (get_dp_type_from_string type_id)
            then c
            else if has_colon (find_char b':' ref)
            then add_definition label ref (get_dp_type_from_string type_id) c
            else c)
    known e colon = elim (Bool-cases (has_colon (find_char b':' ref))) [
      | inl found ↦ rw (e, found) (add_definition-IsConsistent label ref _ c e colon h)
      | inr missing ↦ rw (e, missing) h
    ]

-- A predicate that the storing of one entry keeps, and that reads no flag, is kept by all of it.
module _ {ℓ} (P : Config → Type ℓ)
    (known : (label ref type_id : String) (c : Config) → P c → P (import_known label ref type_id c))
    (flag : (b : Bool) (c : Config) → P c → P (record c { exchange_config_complete = b })) where
  Keeps-return : Keeps P return
  Keeps-return = record { keep = λ c h. h }

  Keeps-text_member :
      (o : Option Json) {k : String → Step}
      → ((s : String) → Keeps P (k s))
      → Keeps P (text_member o k)
  Keeps-text_member (some (str s)) h = h s
  Keeps-text_member o h = Keeps-return

  Keeps-array_member :
      (o : Option Json) {k : List Json → Step}
      → ((s : List Json) → Keeps P (k s))
      → Keeps P (array_member o k)
  Keeps-array_member (some (arr xs)) h = h (elements xs)
  Keeps-array_member o h = Keeps-return

  Keeps-object_member :
      (o : Option Json) {k : Json → Step}
      → ((s : Json) → Keeps P (k s))
      → Keeps P (object_member o k)
  Keeps-object_member (some (obj ms)) h = h (obj ms)
  Keeps-object_member o h = Keeps-return

  import_protocol-Keeps : (label : String) (p : Json) → Keeps P (import_protocol label p)
  unfolding import_protocol
  import_protocol-Keeps label p = Keeps-reading _ λ n. Keeps-text_member n λ name.
      Keeps-reading _ λ r. Keeps-text_member r λ ref.
        Keeps-reading _
          λ t. Keeps-text_member t λ type_id. record { keep = known label ref type_id }

  import_protocols-Keeps : (label : String) (ps : List Json) → Keeps P (import_protocols label ps)
  unfolding import_protocols
  import_protocols-Keeps label [] = record { keep = λ c h. h }
  import_protocols-Keeps label (p ∷ ps) =
      Keeps-seq (import_protocol-Keeps label p) (import_protocols-Keeps label ps)

  import_datapoints-Keeps : (vs : List Json) → Keeps P (import_datapoints vs)
  unfolding import_datapoints import_datapoint
  import_datapoints-Keeps [] = record { keep = λ c h. h }
  import_datapoints-Keeps (v ∷ vs) =
      Keeps-seq
        (Keeps-text_member (find_member "label" v) λ label.
          Keeps-array_member (find_member "protocols" v) λ ps. import_protocols-Keeps label ps)
        (import_datapoints-Keeps vs)

  import_exchange_document-Keeps : (o : Option Json) → Keeps P (import_exchange_document o)
  import_exchange_document-Keeps none = Keeps-return
  import_exchange_document-Keeps (some v) =
      Keeps-object_member (find_member "exchanged_data" v)
        λ part. Keeps-array_member (find_member "datapoints" part) λ vs. import_datapoints-Keeps vs

  pub import_exchange_config-Keeps :
      (x : Externals) (text : String) → Keeps P (import_exchange_config x text)
  unfolding import_exchange_config
  import_exchange_config-Keeps x text =
      Keeps-seq (record { keep = flag false }) (import_exchange_document-Keeps (x.parse text))

-- The import of any exchange configuration, well formed or not, keeps the maps consistent, however
-- it ends: every definition stands under its own reference, which has a colon, with a known type,
-- every label leads to a definition with that label, and every polled point is of a
-- known type below COMMAND and its reference is defined.
pub import_exchange_config-IsConsistent :
    (x : Externals) (text : String) (c : Config)
    → IsConsistent c
    → IsConsistent (import_exchange_config x text c).0
import_exchange_config-IsConsistent x text c h =
    (import_exchange_config-Keeps IsConsistent import_known-IsConsistent
        (λ b c h. record { refs = h.refs; labels = h.labels; polled = h.polled }) x text).keep
      c h
