-- ===== src/Config/Datasets.antt =====
-- The loop over "datasets" in importProtocolConfig, and getExchangeDefinitionByRef
-- (src/tase2_client_config.cpp).
pub mod Polled
use fledge_south_tase.Common.{String, Bool, true, false, List, [], ◌∷◌, ◌++◌, Option, none, some}
use fledge_south_tase.Common.Texts.{join}
use fledge_south_tase.Common.Maps.{lookup, insert, erase}
use fledge_south_tase.Json.{
  Json, bool, str, arr, Result, ok, thrown, fault, ◌>>=◌, find_member, get_string, elements,
}
use fledge_south_tase.Config.{Config, Dataset, DataExchangeDefinition}

unfoldable pub get_exchange_definition_by_ref : Config → String → Option DataExchangeDefinition
get_exchange_definition_by_ref c ref = lookup ref c.exchange_definitions_ref

-- A data point that a dataset holds is not polled any more.
abbrev pub unpoll : Config → String → Option DataExchangeDefinition → Config
unpoll c ref none = c
unpoll c ref (some def) = record c { polled_datapoints = erase ref c.polled_datapoints }

-- The loop over "entries"; what is no text is passed over.
unfoldable pub import_entries : String → List Json → Config → Config
import_entries domain [] c = c
import_entries domain (str name ∷ vs) c =
    let ref = join domain ":" name in
    import_entries domain vs (unpoll c ref (get_exchange_definition_by_ref c ref))
import_entries domain (_ ∷ vs) c = import_entries domain vs c

-- The names that the same loop stores in the dataset.
abbrev pub entry_names : List Json → List String
entry_names [] = []
entry_names (str name ∷ vs) = name ∷ entry_names vs
entry_names (_ ∷ vs) = entry_names vs

-- An "entries" that is no array counts as empty.
abbrev pub entries_of : Option Json → List Json
entries_of (some (arr xs)) = elements xs
entries_of _ = []

abbrev pub domain_of : Option Json → Result String
domain_of none = ok "vcc"
domain_of (some v) = get_string v

-- A "dynamic" that is no Boolean counts as false.
abbrev pub dynamic_of : Option Json → Bool
dynamic_of (some (bool b)) = b
dynamic_of _ = false

unfoldable pub add_dataset : Json → String → String → Config → Config
add_dataset v domain dataset_ref c =
    let vs = entries_of (find_member "entries" v) in
    let c' = import_entries domain vs c in
    record c' {
      datasets =
          insert dataset_ref
            (record {
              domain = domain;
              dataset_ref = dataset_ref;
              entries = entry_names vs;
              dynamic = dynamic_of (find_member "dynamic" v);
            })
            c'.datasets;
    }

-- One round. A value that is no object, or has no text "dataset_ref", is passed over.
abbrev pub import_named : Json → Option Json → Config → Result Config
import_named v (some (str dataset_ref)) c = do
  domain ← domain_of (find_member "domain" v)
  ok (add_dataset v domain dataset_ref c)
import_named v _ c = ok c

unfoldable pub import_dataset : Json → Config → Result Config
import_dataset v c = import_named v (find_member "dataset_ref" v) c
