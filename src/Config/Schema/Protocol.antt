-- ===== src/Config/Schema/Protocol.antt =====
-- A protocol configuration of the right shape fails no accessor (src/tase2_client_config.cpp).
use fledge_south_tase.Common.{String, Bool, true, false, Option, none, some, if◌then◌else◌}
use fledge_south_tase.Common.Int.{ℤ, is_negative}
use fledge_south_tase.Json.{Json, obj, Result, find_member, get_int, get_array}
use fledge_south_tase.Json.Shape.{IsInt, IsArrayOf, Fits}
use fledge_south_tase.Json.NoFault.{NoFault}
use fledge_south_tase.Config.{Config, Externals}
use fledge_south_tase.Config.Steps.{Step, ◌⨾◌, reading, for_each, store, return}
use fledge_south_tase.Config.TypeCheck.{traverse_and_check_types}
use fledge_south_tase.Config.Connections.{import_connection}
use fledge_south_tase.Config.Datasets.{import_dataset}
use fledge_south_tase.Config.TransferSets.{import_dsts}
use fledge_south_tase.Config.Exchange.{object_member}
use fledge_south_tase.Config.Protocol.{
  needed, optional, set_polling_interval, import_transport_layer, import_application_layer,
  import_protocol_stack, import_protocol_document, import_protocol_config,
}
use fledge_south_tase.Config.Schema.{
  IsConnection, IsTransportLayer, IsDatasetEntry, IsDstsEntry, IsApplicationLayer, IsStack,
  IsProtocolDocument,
}
use fledge_south_tase.Config.Schema.Connections.{import_connection-NoFault}
use fledge_south_tase.Config.Schema.Layers.{import_dataset-NoFault, import_dsts-NoFault}
use fledge_south_tase.Config.Schema.Steps.{
  Safe, Safe-return, Safe-store, Safe-seq, Safe-member, Safe-int, Safe-array, Safe-for_each,
  Safe-needed, Safe-optional, Safe-object,
}

-- The steps of the import whose types the rules do not show.
abbrev marked : Step
marked = store (λ c. record c { protocol_config_complete = true })

-- An optional member that holds an int, or an array over which a loop runs.
optional_int :
    (o : Option Json) (k : ℤ → Step)
    → Fits IsInt o
    → ((z : ℤ) → Safe (k z))
    → Safe (optional o λ v. reading (get_int v) k)
optional_int o k h safe = Safe-optional IsInt o _ h λ v int. Safe-int v k int safe

optional_loop :
    (P : Json → Type 0) (o : Option Json) (body : Json → Config → Result Config)
    → Fits (IsArrayOf P) o
    → ((v : Json) (c : Config) → P v → NoFault (body v c))
    → Safe (optional o λ v. reading (get_array v) λ vs. for_each body vs)
optional_loop P o body h takes =
    Safe-optional (IsArrayOf P) o _ h
      λ v array. Safe-array P v _ array λ vs each. Safe-for_each P body vs takes each

module _ (x : Externals) where
  transport_layer-Safe : (v : Json) → IsTransportLayer v → Safe (import_transport_layer x v)
  unfolding import_transport_layer
  transport_layer-Safe v (object, connections, timeout) =
      Safe-seq
        (Safe-member "connections" v _ object (
          Safe-needed (IsArrayOf IsConnection) (find_member "connections" v) _ connections
            λ w array. Safe-array IsConnection w _ array λ vs each.
              Safe-for_each IsConnection (import_connection x) vs (import_connection-NoFault x)
                each))
        (Safe-member "backupTimeout" v _ object
          (optional_int (find_member "backupTimeout" v) _ timeout λ z. Safe-store _))

  polling-Safe : (z : ℤ) → Safe (set_polling_interval z)
  polling-Safe z = go (is_negative z)
    where
      go : (b : Bool) → Safe (if b then return else store (λ c. record c { polling_interval = z }))
      go true = Safe-return
      go false = Safe-store _

  application_layer-Safe : (v : Json) → IsApplicationLayer v → Safe (import_application_layer x v)
  unfolding import_application_layer
  application_layer-Safe v (object, interval, datasets, dsts) =
      Safe-seq
        (Safe-member "polling_interval" v _ object (
          optional_int (find_member "polling_interval" v) set_polling_interval interval
            polling-Safe))
        (Safe-seq
          (Safe-member "datasets" v _ object (
            optional_loop IsDatasetEntry (find_member "datasets" v) import_dataset datasets
              import_dataset-NoFault))
          (Safe-member "dataset_transfer_sets" v _ object (
            optional_loop IsDstsEntry (find_member "dataset_transfer_sets" v) (import_dsts x) dsts
              (import_dsts-NoFault x))))

  protocol_stack-Safe : (v : Json) → IsStack v → Safe (import_protocol_stack x v)
  unfolding import_protocol_stack
  protocol_stack-Safe v (transport, application) =
      Safe-needed IsTransportLayer (find_member "transport_layer" v) _ transport λ t fits.
        Safe-seq
          {n = needed (find_member "application_layer" v)
            (λ a. import_application_layer x a ⨾ marked)}
          (transport_layer-Safe t fits)
          (Safe-needed IsApplicationLayer (find_member "application_layer" v) _ application
            λ a fits'. Safe-seq {n = marked} (application_layer-Safe a fits') (Safe-store _))

  protocol_document-Safe :
      (o : Option Json) → Fits IsProtocolDocument o → Safe (import_protocol_document x o)
  protocol_document-Safe none h = Safe-return
  protocol_document-Safe (some (obj ms)) h = checked (traverse_and_check_types (obj ms))
    where
      checked :
          (b : Bool)
          → Safe (
              if b
              then object_member (find_member "protocol_stack" (obj ms)) (import_protocol_stack x)
              else return)
      checked true =
          Safe-object IsStack (find_member "protocol_stack" (obj ms)) _ h protocol_stack-Safe
      checked false = Safe-return
  protocol_document-Safe (some _) h = Safe-return

  pub import_protocol_config-Safe :
      (text : String)
      → Fits IsProtocolDocument (x.parse text)
      → Safe (import_protocol_config x text)
  unfolding import_protocol_config
  import_protocol_config-Safe text h =
      Safe-seq {m = store (λ c. record c { protocol_config_complete = false })} (Safe-store _)
        (protocol_document-Safe (x.parse text) h)
