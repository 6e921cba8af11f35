-- ===== src/Plugin.antt =====
-- TASE2 (src/tase2.cpp, include/tase2.hpp): the object behind the plugin's handle, which owns the
-- configuration and the client.
pub mod Configured
pub mod Shaped
pub mod Operation
pub mod Session
pub mod Entry
pub mod Default
use fledge_south_tase.Common.{
  String, Bool, true, false, List, [], ◌∷◌, Option, none, some, if◌then◌else◌,
}
use fledge_south_tase.Config.{Config, Externals, new_config}
use fledge_south_tase.Config.Steps.{Flow, go, returned, aborted, threw}
use fledge_south_tase.Config.Exchange.{import_exchange_config}
use fledge_south_tase.Config.Protocol.{import_protocol_config}
use fledge_south_tase.Config.Tls.{import_tls_config}
use fledge_south_tase.Client.{PointLibrary, DataObject}
use fledge_south_tase.Client.Handling.{Readings}
use fledge_south_tase.Client.Monitor.{Client, new_client, start_client, stop_client}

-- The members; `ingests` is whether the callback is registered. `abandoned` is no member: it holds
-- the clients that run on with no pointer to them left, since a later start overwrote it.
pub record Tase2 : Type 0 where
  pub asset : String
  pub config : Config
  pub ingests : Bool
  pub client : Option Client
  pub abandoned : List Client

abbrev pub new_tase2 : Tase2
new_tase2 = record {
  asset = "";
  config = new_config;
  ingests = false;
  client = none;
  abandoned = [];
}

-- A call whose own `return` goes on behind it, and whose exception does not.
abbrev pub after_call : Config × Flow → (Config → Config × Flow) → Config × Flow
after_call (c, go) k = k c
after_call (c, returned) k = k c
after_call (c, aborted) k = (c, aborted)
after_call (c, threw e) k = (c, threw e)

-- setJsonConfig: the new configuration, and how the last import that ran ended. The arguments
-- stand in the order of the code.
unfoldable pub set_json_config : Externals → String → String → String → Config × Flow
set_json_config x stack_configuration msg_configuration tls_configuration =
    after_call (import_exchange_config x msg_configuration new_config) λ c.
      after_call (import_protocol_config x stack_configuration c)
        (import_tls_config x tls_configuration)

abbrev pub overwritten : Option Client → List Client → List Client
overwritten none abandoned = abandoned
overwritten (some c) abandoned = c ∷ abandoned

-- A client that was there already is neither stopped nor deleted here.
unfoldable pub start_tase2 : Tase2 → Tase2
start_tase2 t = record t {
  client = some (start_client (new_client t.config));
  abandoned = overwritten t.client t.abandoned;
}

-- The client, if there is one, is stopped and deleted.
abbrev pub stop_tase2 : Tase2 → Tase2
stop_tase2 t = record t { client = none }

abbrev pub register_ingest : Tase2 → Tase2
register_ingest t = record t { ingests = true }

-- What the callback gets.
abbrev pub ingest : (lib : PointLibrary) → Tase2 → String → DataObject lib → Readings lib
ingest lib t asset_name points = if t.ingests then (asset_name, points) ∷ [] else []
