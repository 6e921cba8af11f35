-- ===== src/Config/Schema.antt =====
-- The shape that the three configuration documents are meant to have, read off the accessors that
-- the imports call with no test (src/tase2_client_config.cpp).
pub mod Osi
pub mod Connections
pub mod Layers
pub mod Steps
pub mod Protocol
pub mod Exchange
use fledge_south_tase.Common.{String, Option, none, some}
use fledge_south_tase.Json.{Json, find_member}
use fledge_south_tase.Json.Shape.{
  IsObject, IsText, IsInt, IsFlag, IsAny, IsArrayOf, Fits, Has, EachOf,
}

-- An address that is given is a text, and a port that is a number goes with it.
abbrev pub IsAddress : Json → Option Json → Type 0
IsAddress v none = Unit {0}
IsAddress v (some ip) = IsText ip × Has IsInt (find_member "port" v)

-- An element of "connections". What "osi" and "tls" hold is tested by the code.
abbrev pub IsConnection : Json → Type 0
IsConnection v = IsObject v × IsAddress v (find_member "ip_addr" v)

abbrev pub IsTransportLayer : Json → Type 0
IsTransportLayer v =
    IsObject v
    × Fits (IsArrayOf IsConnection) (find_member "connections" v)
    × Fits IsInt (find_member "backupTimeout" v)

-- An element of "datasets".
abbrev pub IsDatasetEntry : Json → Type 0
IsDatasetEntry v = Fits IsText (find_member "domain" v)

-- An element of "dataset_transfer_sets".
abbrev pub IsDstsEntry : Json → Type 0
IsDstsEntry v =
    Fits IsText (find_member "domain" v)
    × Fits IsText (find_member "name" v)
    × Fits IsText (find_member "dataset_ref" v)
    × Fits (IsArrayOf IsAny) (find_member "dsConditions" v)
    × Fits IsInt (find_member "interval" v)
    × Fits IsInt (find_member "tle" v)
    × Fits IsInt (find_member "integrityCheck" v)
    × Fits IsFlag (find_member "critical" v)
    × Fits IsFlag (find_member "rbe" v)
    × Fits IsInt (find_member "bufTm" v)
    × Fits IsInt (find_member "startTime" v)
    × Fits IsFlag (find_member "allChangesReported" v)

abbrev pub IsApplicationLayer : Json → Type 0
IsApplicationLayer v =
    IsObject v
    × Fits IsInt (find_member "polling_interval" v)
    × Fits (IsArrayOf IsDatasetEntry) (find_member "datasets" v)
    × Fits (IsArrayOf IsDstsEntry) (find_member "dataset_transfer_sets" v)

abbrev pub IsStack : Json → Type 0
IsStack v =
    Fits IsTransportLayer (find_member "transport_layer" v)
    × Fits IsApplicationLayer (find_member "application_layer" v)

abbrev pub IsProtocolDocument : Json → Type 0
IsProtocolDocument v = Fits IsStack (find_member "protocol_stack" v)

abbrev pub IsPoint : Json → Type 0
IsPoint v = EachOf IsObject (find_member "protocols" v)

abbrev pub IsDataPart : Json → Type 0
IsDataPart v = EachOf IsPoint (find_member "datapoints" v)

abbrev pub IsExchangeDocument : Json → Type 0
IsExchangeDocument v = Fits IsDataPart (find_member "exchanged_data" v)

abbrev pub IsTlsConf : Json → Type 0
IsTlsConf v =
    EachOf IsObject (find_member "ca_certs" v) × EachOf IsObject (find_member "remote_certs" v)

abbrev pub IsTlsDocument : Json → Type 0
IsTlsDocument v = Fits IsTlsConf (find_member "tls_conf" v)
