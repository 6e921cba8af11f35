-- ===== src/Config/Exchange.antt =====
-- importExchangeConfig (src/tase2_client_config.cpp): the data points of "exchanged_data".
pub mod Invariant
use fledge_south_tase.Common.{
  ℕ, String, Bool, true, false, List, [], ◌∷◌, Option, none, some, if◌then◌else◌,
}
use fledge_south_tase.Common.Texts.{find_char}
use fledge_south_tase.Common.Maps.{assign}
use fledge_south_tase.Common.Int.{ℤ}
use fledge_south_tase.DpType.{DpType, dp_type_unknown, below_command, get_dp_type_from_string}
use fledge_south_tase.Json.{
  Json, str, arr, obj, Result, ok, thrown, fault, ◌>>=◌, find_member, get_member, elements,
  is_object,
}
use fledge_south_tase.Config.{Config, DataExchangeDefinition, Externals}
use fledge_south_tase.Config.Steps.{Flow, go, returned, Step, resume, reading, return, store, ◌⨾◌}

-- What is stored for a protocol entry whose type is known and whose reference has a colon.
unfoldable pub add_definition : String → String → DpType → Config → Config
add_definition label ref type c =
    let def : DataExchangeDefinition = record { ref = ref; type = type; label = label } in
    record c {
      exchange_definitions = assign label def c.exchange_definitions;
      exchange_definitions_ref = assign ref def c.exchange_definitions_ref;
      polled_datapoints =
          if below_command type then assign ref def c.polled_datapoints else c.polled_datapoints;
    }

abbrev pub is_unknown : DpType → Bool
is_unknown dp_type_unknown = true
is_unknown _ = false

abbrev pub has_colon : Option ℕ → Bool
has_colon none = false
has_colon (some p) = true

unfoldable pub import_known : String → String → String → Config → Config
import_known label ref type_id c =
    let type = get_dp_type_from_string type_id in
    if is_unknown type
    then c
    else if has_colon (find_char b':' ref)
    then add_definition label ref type c
    else c

-- A member that is missing or no text ends the function.
abbrev pub text_member : Option Json → (String → Step) → Step
text_member (some (str s)) k = k s
text_member _ k = return

-- One protocol entry. Its "name" is read, and not looked at.
unfoldable pub import_protocol : String → Json → Step
import_protocol label protocol = reading (get_member "name" protocol) λ n.
    text_member n λ protocol_name. reading (get_member "ref" protocol) λ r.
      text_member r λ protocol_ref.
        reading (get_member "typeid" protocol)
          λ t. text_member t λ type_id. store (import_known label protocol_ref type_id)

unfoldable pub import_protocols : String → List Json → Step
import_protocols label [] = store (λ c. c)
import_protocols label (p ∷ ps) = import_protocol label p ⨾ import_protocols label ps

abbrev pub array_member : Option Json → (List Json → Step) → Step
array_member (some (arr xs)) k = k (elements xs)
array_member _ k = return

unfoldable pub import_datapoint : Json → Step
import_datapoint v =
    text_member (find_member "label" v)
      λ label. array_member (find_member "protocols" v) λ ps. import_protocols label ps

unfoldable pub import_datapoints : List Json → Step
import_datapoints [] = store (λ c. c)
import_datapoints (v ∷ vs) = import_datapoint v ⨾ import_datapoints vs

abbrev pub object_member : Option Json → (Json → Step) → Step
object_member (some (obj ms)) k = k (obj ms)
object_member _ k = return

abbrev pub import_exchange_document : Option Json → Step
import_exchange_document none = return
import_exchange_document (some document) =
    object_member (find_member "exchanged_data" document)
      λ data_part. array_member (find_member "datapoints" data_part) import_datapoints

unfoldable pub import_exchange_config : Externals → String → Step
import_exchange_config x exchange_config =
    store (λ c. record c { exchange_config_complete = false })
    ⨾ import_exchange_document (x.parse exchange_config)
