-- ===== src/Config/TransferSets.antt =====
-- The loop over "dataset_transfer_sets" in importProtocolConfig (src/tase2_client_config.cpp).
use fledge_south_tase.Common.{ℕ, bit_or, String, false, List, [], ◌∷◌, Option, none, some}
use fledge_south_tase.Common.Int.{pos}
use fledge_south_tase.Common.Maps.{lookup, insert}
use fledge_south_tase.Json.{
  Json, str, obj, Result, ok, ◌>>=◌, find_member, get_string, get_int, get_bool, get_array,
}
use fledge_south_tase.Config.{Config, DatasetTransferSet, Externals}

abbrev pub or_else {ℓ} : {A : Type ℓ} → (Json → Result A) → A → Option Json → Result A
or_else get old none = ok old
or_else get old (some v) = get v

-- The table `dsConditions`.
abbrev pub ds_conditions_map : Externals → List (String × ℕ)
ds_conditions_map x =
    ("interval", x.ds_condition_interval)
    ∷ ("integrity", x.ds_condition_integrity)
    ∷ ("change", x.ds_condition_change)
    ∷ ("operator_request", x.ds_condition_operator_requested)
    ∷ ("external_event", x.ds_condition_external_event)
    ∷ []

abbrev pub add_flag : ℕ → Option ℕ → ℕ
add_flag flags none = flags
add_flag flags (some flag) = bit_or flags flag

-- The loop over "dsConditions"; an unknown name and what is no text are passed over.
unfoldable pub import_conditions : Externals → ℕ → List Json → ℕ
import_conditions x flags [] = flags
import_conditions x flags (str name ∷ vs) =
    import_conditions x (add_flag flags (lookup name (ds_conditions_map x))) vs
import_conditions x flags (_ ∷ vs) = import_conditions x flags vs

abbrev pub conditions_of : Externals → Option Json → Result ℕ
conditions_of x none = ok 0
conditions_of x (some v) = do vs ← get_array v; ok (import_conditions x 0 vs)

-- The fields behind "name".
unfoldable pub read_dsts : Externals → Json → String → String → Result DatasetTransferSet
read_dsts x v domain name = do
  dataset_ref ← or_else get_string "" (find_member "dataset_ref" v)
  conditions ← conditions_of x (find_member "dsConditions" v)
  interval ← or_else get_int (pos 0) (find_member "interval" v)
  tle ← or_else get_int (pos 0) (find_member "tle" v)
  integrity_check ← or_else get_int (pos 0) (find_member "integrityCheck" v)
  critical ← or_else get_bool false (find_member "critical" v)
  rbe ← or_else get_bool false (find_member "rbe" v)
  buffer_time ← or_else get_int (pos 0) (find_member "bufTm" v)
  start_time ← or_else get_int (pos 0) (find_member "startTime" v)
  all_changes_reported ← or_else get_bool false (find_member "allChangesReported" v)
  ok (record {
    domain = domain;
    dsts_ref = name;
    dataset_ref = dataset_ref;
    ds_conditions = conditions;
    start_time = start_time;
    interval = interval;
    tle = tle;
    buffer_time = buffer_time;
    integrity_check = integrity_check;
    critical = critical;
    rbe = rbe;
    all_changes_reported = all_changes_reported;
  })

abbrev pub add_dsts : DatasetTransferSet → Config → Config
add_dsts d c = record c { ds_transfer_sets = insert d.dsts_ref d c.ds_transfer_sets }

-- A transfer set with no "name" is passed over.
abbrev pub import_named_dsts : Externals → Json → String → Option Json → Config → Result Config
import_named_dsts x v domain none c = ok c
import_named_dsts x v domain (some n) c = do
  name ← get_string n
  d ← read_dsts x v domain name
  ok (add_dsts d c)

-- One round; a value that is no object is passed over.
unfoldable pub import_dsts : Externals → Json → Config → Result Config
import_dsts x (obj ms) c = do
  domain ← or_else get_string "" (find_member "domain" (obj ms))
  import_named_dsts x (obj ms) domain (find_member "name" (obj ms)) c
import_dsts x v c = ok c
