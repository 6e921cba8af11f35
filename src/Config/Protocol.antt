-- ===== src/Config/Protocol.antt =====
-- importProtocolConfig (src/tase2_client_config.cpp): the order of its parts and its returns.
pub mod Keeping
pub mod Outcome
pub mod Complete
use fledge_south_tase.Common.{String, Bool, true, false, Option, none, some, if◌then◌else◌}
use fledge_south_tase.Common.Int.{ℤ, pos, is_negative, to_u64}
use fledge_south_tase.Json.{
  Json, int, obj, Result, ok, thrown, fault, find_member, get_member, get_int, get_array, is_object,
}
use fledge_south_tase.Config.{Config, Externals}
use fledge_south_tase.Config.TypeCheck.{traverse_and_check_types}
use fledge_south_tase.Config.Steps.{Flow, go, returned, Step, reading, return, store, ◌⨾◌, for_each}
use fledge_south_tase.Config.Connections.{import_connection}
use fledge_south_tase.Config.Datasets.{import_dataset}
use fledge_south_tase.Config.TransferSets.{import_dsts}
use fledge_south_tase.Config.Exchange.{object_member}

-- A member that is missing ends the function.
abbrev pub needed : Option Json → (Json → Step) → Step
needed none k = return
needed (some v) k = k v

-- A member that is missing is passed over.
abbrev pub optional : Option Json → (Json → Step) → Step
optional none k = store (λ c. c)
optional (some v) k = k v

-- "connections" and "backupTimeout"; the timeout is converted to a uint64_t.
unfoldable pub import_transport_layer : Externals → Json → Step
import_transport_layer x transport_layer =
    (reading (get_member "connections" transport_layer) λ m.
      needed m
        λ connections. reading (get_array connections) λ vs. for_each (import_connection x) vs)
    ⨾ reading (get_member "backupTimeout" transport_layer) λ m.
      optional m
        λ v. reading (get_int v) λ z. store (λ c. record c { backup_connection_timeout = to_u64 z })

abbrev pub set_polling_interval : ℤ → Step
set_polling_interval z =
    if is_negative z then return else store (λ c. record c { polling_interval = z })

unfoldable pub import_application_layer : Externals → Json → Step
import_application_layer x application_layer =
    (reading (get_member "polling_interval" application_layer)
      λ m. optional m λ v. reading (get_int v) λ z. set_polling_interval z)
    ⨾ (reading (get_member "datasets" application_layer)
        λ m. optional m λ v. reading (get_array v) λ vs. for_each import_dataset vs)
    ⨾ reading (get_member "dataset_transfer_sets" application_layer)
        λ m. optional m λ v. reading (get_array v) λ vs. for_each (import_dsts x) vs

unfoldable pub import_protocol_stack : Externals → Json → Step
import_protocol_stack x protocol_stack =
    needed (find_member "transport_layer" protocol_stack) λ transport_layer.
      import_transport_layer x transport_layer
      ⨾ needed (find_member "application_layer" protocol_stack) λ application_layer.
        import_application_layer x application_layer
        ⨾ store (λ c. record c { protocol_config_complete = true })

abbrev pub import_protocol_document : Externals → Option Json → Step
import_protocol_document x none = return
import_protocol_document x (some document) =
    if is_object document
    then (if traverse_and_check_types document
        then object_member (find_member "protocol_stack" document) (import_protocol_stack x)
        else return)
    else return

unfoldable pub import_protocol_config : Externals → String → Step
import_protocol_config x protocol_config =
    store (λ c. record c { protocol_config_complete = false })
    ⨾ import_protocol_document x (x.parse protocol_config)
