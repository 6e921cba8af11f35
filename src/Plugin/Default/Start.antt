-- ===== src/Plugin/Default/Start.antt =====
-- What the plugin does with its default configuration (src/plugin.cpp, src/tase2.cpp,
-- src/tase2_client_config.cpp, src/tase2_client_connection.cpp).
use fledge_south_tase.Common.{
  String, true, false, List, [], ◌∷◌, ◌++◌, Option, none, some, ◌≡◌, refl, arith,
}
use fledge_south_tase.Common.Int.{pos}
use fledge_south_tase.Common.Texts.{to_string}
use fledge_south_tase.Common.Maps.{lookup}
use fledge_south_tase.Json.{ok, ◌>>=◌}
use fledge_south_tase.Config.{Config, RedGroup, new_red_group, Externals, new_config}
use fledge_south_tase.Config.Steps.{go, returned, ◌⨾◌, reading, for_each}
use fledge_south_tase.Config.Exchange.{
  import_exchange_config, import_datapoints, import_datapoint, import_protocols, import_protocol,
}
use fledge_south_tase.Config.Connections.{import_connection, read_connection, make_group}
use fledge_south_tase.Config.TypeCheck.{
  traverse_and_check_types, traverse, visit, push_members, push_items, is_correct_type, size,
  size_members, size_items,
}
use fledge_south_tase.Config.Protocol.{
  import_protocol_config, import_protocol_stack, import_transport_layer, import_application_layer,
}
use fledge_south_tase.Config.Tls.{
  import_tls_config, import_tls_conf, import_ca_certs, import_remote_certs,
}
use fledge_south_tase.Connection.{Connection, Library}
use fledge_south_tase.Connection.Prepare.{prepare_connection, create_endpoint, is_some}
use fledge_south_tase.Connection.Thread.{start, set_connect, idle_round, dispatch, con_thread_round}
use fledge_south_tase.Connection.Thread.Survival.{is_crash}
use fledge_south_tase.Client.Monitor.{Client, start_client, make_connection, prepare_connections}
use fledge_south_tase.Plugin.{new_tase2, set_json_config, start_tase2}
use fledge_south_tase.Plugin.Entry.{Category, entered, item_exists, left, plugin_init}
use fledge_south_tase.Plugin.Default.{
  HoldsDefaults, default_connection, default_protocol_stack, default_exchanged_data,
  default_tls_conf,
}

-- No data point is defined.
default_exchange :
    (x : Externals) (text : String) (c : Config)
    → x.parse text ≡ some default_exchanged_data
    → import_exchange_config x text c ≡ (record c { exchange_config_complete = false }, returned)
unfolding import_exchange_config ◌⨾◌ import_datapoints import_datapoint import_protocols
    import_protocol reading lookup
default_exchange x text c e = rw e refl

abbrev pub default_group : RedGroup
default_group = record new_red_group { ip_addr = "127.0.0.1"; tcp_port = pos 102 }

-- The connection is read with no OSI parameters.
default_read_connection :
    (x : Externals)
    → x.inet_pton "127.0.0.1" ≡ true
    → read_connection x default_connection ≡ ok (some default_group)
unfolding read_connection make_group ◌>>=◌ lookup
default_read_connection x e = rw e refl

default_type_check : traverse_and_check_types default_protocol_stack ≡ true
unfolding traverse_and_check_types traverse visit push_members push_items is_correct_type size
    size_members size_items lookup to_string
default_type_check = refl

default_stack :
    (x : Externals) (text : String) (c : Config)
    → x.parse text ≡ some default_protocol_stack
    → x.inet_pton "127.0.0.1" ≡ true
    → import_protocol_config x text c ≡ (
      record c {
        connections = c.connections ++ default_group ∷ [];
        polling_interval = pos 10000;
        protocol_config_complete = true;
      },
      go,
    )
unfolding import_protocol_config import_protocol_stack import_transport_layer
    import_application_layer ◌⨾◌ reading lookup for_each import_connection ◌>>=◌
default_stack x text c e valid = rw (e, default_type_check, default_read_connection x valid) refl

default_tls :
    (x : Externals) (text : String) (c : Config)
    → x.parse text ≡ some default_tls_conf
    → import_tls_config x text c ≡ (
      record c {
        private_key = "iec104_server.key";
        own_certificate = "iec104_server.cer";
        ca_certificates = (c.ca_certificates ++ "iec104_ca.cer" ∷ []) ++ "iec104_ca2.cer" ∷ [];
        remote_certificates = c.remote_certificates ++ "iec104_client.cer" ∷ [];
      },
      go,
    )
unfolding import_tls_config import_tls_conf import_ca_certs import_remote_certs ◌⨾◌ reading lookup
default_tls x text c e = rw e refl

-- What the default configuration comes to.
abbrev pub default_config : Config
default_config = record new_config {
  connections = default_group ∷ [];
  polling_interval = pos 10000;
  protocol_config_complete = true;
  private_key = "iec104_server.key";
  own_certificate = "iec104_server.cer";
  ca_certificates = "iec104_ca.cer" ∷ "iec104_ca2.cer" ∷ [];
  remote_certificates = "iec104_client.cer" ∷ [];
}

item_exists-some :
    (config : Category) (name : String) {text : String}
    → config name ≡ some text
    → item_exists config name ≡ true
item_exists-some config name e = rw (item_exists, e) refl

plugin_init-default :
    (x : Externals) (config : Category)
    → HoldsDefaults x config
    → plugin_init x config ≡ entered (record new_tase2 { asset = "tase2"; config = default_config })
unfolding plugin_init set_json_config
plugin_init-default x config h =
    let (stack, holds_stack, parses_stack) = h.stack in
    let (exchanged, holds_exchanged, parses_exchanged) = h.exchanged in
    let (tls, holds_tls, parses_tls) = h.tls in
    rw
      (
        item_exists-some config "protocol_stack" holds_stack,
        item_exists-some config "exchanged_data" holds_exchanged,
        item_exists-some config "tls_conf" holds_tls,
        h.asset,
        holds_stack,
        holds_exchanged,
        holds_tls,
        default_exchange x exchanged new_config parses_exchanged,
        default_stack x stack new_config parses_stack h.address,
        default_tls x tls
            (record new_config {
              connections = default_group ∷ [];
              polling_interval = pos 10000;
              protocol_config_complete = true;
            })
            parses_tls,
      )
      refl

abbrev pub connections_of : Option Client → List Connection
connections_of none = []
connections_of (some c) = c.connections

abbrev pub default_peer : Connection
default_peer = start (make_connection default_group)

default_peer-crash :
    (l : Library) (config : Config)
    → is_crash (con_thread_round l config (set_connect default_peer)) ≡ is_some l.endpoint_handle
unfolding con_thread_round dispatch idle_round prepare_connection create_endpoint
default_peer-crash l config = ground arith

-- The plugin that is started with its default configuration has one connection and knows no data
-- point, since the default exchanged data name no "ref"; and when the monitoring thread has asked
-- that connection to connect, its thread's round dereferences a null pointer exactly if the library
-- creates an endpoint, since the default connection has no "osi" section.
pub plugin_init-crash :
    (x : Externals) (config : Category) (l : Library)
    → HoldsDefaults x config
    → let t = start_tase2 (left (plugin_init x config)) in
      (t.config.exchange_definitions_ref ≡ [])
      × (connections_of t.client ≡ default_peer ∷ [])
      × (is_crash (con_thread_round l t.config (set_connect default_peer))
          ≡ is_some l.endpoint_handle)
unfolding start_tase2 start_client prepare_connections
plugin_init-crash x config l h =
    rw (plugin_init-default x config h) (refl, refl, default_peer-crash l default_config)
