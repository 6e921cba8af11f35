-- ===== src/Examples/Operating.antt =====
-- The theorems on the plugin's operations and entry points, at concrete parameters.
use fledge_south_tase.Common.{
  ℕ, String, true, false, [], ◌∷◌, map, none, some, ◌≡◌, refl, if◌then◌else◌,
}
use fledge_south_tase.Common.Texts.{
  find_char, join, has_char, take_text, text_length, drop_text, ◌==◌,
}
use fledge_south_tase.DpType.{get_dp_type_from_string}
use fledge_south_tase.Common.Maps.{lookup, assign}
use fledge_south_tase.Config.Exchange.{
  import_exchange_config, import_datapoints, import_datapoint, import_protocols, import_protocol,
  import_known, add_definition,
}
use fledge_south_tase.Config.Steps.{◌⨾◌, reading}
use fledge_south_tase.Config.Protocol.{import_protocol_config}
use fledge_south_tase.Config.Tls.{import_tls_config}
use fledge_south_tase.Common.Int.{pos}
use fledge_south_tase.Common.Numbers.{stol, atoi}
use fledge_south_tase.Config.{Config, Externals}
use fledge_south_tase.Connection.Thread.Survival.{is_crash}
use fledge_south_tase.Connection.Thread.{set_connect, con_thread_round}
use fledge_south_tase.Client.Commands.{send_command, send_set_point_real}
use fledge_south_tase.Plugin.{Tase2, set_json_config, start_tase2}
use fledge_south_tase.Config.Schema.Steps.{EndsWell}
use fledge_south_tase.Plugin.Shaped.{set_json_config-EndsWell}
use fledge_south_tase.Plugin.Configured.{IsSound, set_json_config-IsSound}
use fledge_south_tase.Plugin.Operation.{Session, replied, unquote, operation}
use fledge_south_tase.Plugin.Operation.Dispatch.{operation-request}
use fledge_south_tase.Plugin.Entry.{left, Category, plugin_init, plugin_reconfigure}
use fledge_south_tase.Plugin.Entry.Lifecycle.{
  init, later, starts, reconfigures, IsAlive, Reach-IsAlive,
}
use fledge_south_tase.Plugin.Default.{
  default_protocol_stack, default_exchanged_data, default_tls_conf,
}
use fledge_south_tase.Plugin.Default.Start.{connections_of, default_peer, plugin_init-crash}
use fledge_south_tase.Plugin.Session.{
  handle_all_values-set_json_config, send_command-set_json_config,
  ds_transfer_set_value_handler-set_json_config,
}
use fledge_south_tase.Client.{done}
use fledge_south_tase.Client.Handling.{handle_all_values, ds_transfer_set_value_handler}
use fledge_south_tase.Client.Values.{pair, objects, object}
use fledge_south_tase.DpType.{dp_type_to_str}
use fledge_south_tase.Config.Datasets.{get_exchange_definition_by_ref}
use fledge_south_tase.Client.Commands.{connection_send_command}
use fledge_south_tase.Examples.{answering, definition_c, externals, points, peer, sample_config}

set_json_config-EndsWell_example : EndsWell (set_json_config externals "stack" "exchange" "tls").1
unfolding lookup
set_json_config-EndsWell_example =
    set_json_config-EndsWell externals "stack" "exchange" "tls"
      ((tt, ((tt, (tt, tt)), tt), tt), (tt, tt, tt, tt)) ((tt, tt), ((tt, tt), ((tt, tt), tt)))
      ((tt, tt), (tt, (tt, tt)))

set_json_config-IsSound_example :
    IsSound externals (set_json_config externals "stack" "exchange" "tls").0
set_json_config-IsSound_example = set_json_config-IsSound externals "stack" "exchange" "tls"

abbrev session : Session points
session = record { config = sample_config; active = some peer; now = 1000 }

abbrev no_float : String → ℕ
no_float s = 0

-- A set point, its type in quotes.
operation-request_example :
    operation points no_float
      (some session)
      "TASE2Command"
      (pos 7)
      ("\"SetPointReal\"" ∷ "" ∷ "icc1" ∷ "c" ∷ "1" ∷ "0" ∷ "1000" ∷ [])
    ≡ replied (send_set_point_real points sample_config (some peer) 1000 "icc1" "c" 0 false)
unfolding atoi stol unquote get_dp_type_from_string lookup take_text text_length drop_text
operation-request_example =
    operation-request points no_float session (pos 7) "\"SetPointReal\"" "" "icc1" "c" "1" "0"
      "1000" [] (pos 1) (pos 0) (pos 1000) refl refl refl refl

-- The items that the plugin's default configuration names.
abbrev items : Category
items name =
    if name == "asset"
    then some "tase2"
    else if name == "protocol_stack"
    then some "stack"
    else if name == "exchanged_data"
    then some "exchange"
    else if name == "tls_conf"
    then some "tls"
    else none

-- What the three texts make.
abbrev made : Config
made = (set_json_config externals "stack" "exchange" "tls").0

handle_all_values-set_json_config_example :
    handle_all_values points made (some peer) (λ i. i)
    ≡ done (
        pair
          (map (λ e. e.1.label) made.polled_datapoints)
          (objects points peer (λ i. i) 0 made.polled_datapoints))
handle_all_values-set_json_config_example =
    handle_all_values-set_json_config points externals "stack" "exchange" "tls" peer (λ i. i)

-- What the exchanged data alone make: the other two texts do not parse.
abbrev exchanged : Config
exchanged = (set_json_config externals "" "exchange" "").0

-- The command point is defined there.
exchanged_defines_c :
    get_exchange_definition_by_ref exchanged (join "icc1" ":" "c") ≡ some definition_c
unfolding set_json_config get_exchange_definition_by_ref lookup assign import_exchange_config ◌⨾◌
    import_datapoints import_datapoint import_protocols import_protocol reading import_known
    add_definition get_dp_type_from_string find_char import_protocol_config import_tls_config
exchanged_defines_c = refl

send_command-set_json_config_example :
    (s : String) × (dp_type_to_str definition_c.type ≡ some s)
    × (send_command points exchanged (some peer) 1000 "icc1" "c" (pos 1) true
        ≡ done (true, ("L3", object points (7, 0) ("icc1", "c") 1000 definition_c.type s) ∷ []))
unfolding has_char connection_send_command
send_command-set_json_config_example =
    send_command-set_json_config points externals "" "exchange" "" peer 1000 "icc1" "c" (pos 1) true
      definition_c refl exchanged_defines_c

ds_transfer_set_value_handler-set_json_config_example :
    (s : String) × (dp_type_to_str definition_c.type ≡ some s)
    × (ds_transfer_set_value_handler points exchanged none 1000 "icc1" "c" (9, 0)
        ≡ done (("L3", object points (9, 0) ("icc1", "c") 1000 definition_c.type s) ∷ []))
unfolding has_char
ds_transfer_set_value_handler-set_json_config_example =
    ds_transfer_set_value_handler-set_json_config points externals "" "exchange" "" none 1000 "icc1"
      "c" (9, 0) definition_c refl exchanged_defines_c

-- A plugin that is started, reconfigured, which starts it, and started again.
abbrev bare : Category
bare name = if name == "asset" then some "tase2" else none

abbrev reconfigured : Tase2
reconfigured =
    left (plugin_reconfigure externals items (start_tase2 (left (plugin_init externals bare))))

Reach-IsAlive_example : IsAlive externals 1 (start_tase2 reconfigured)
unfolding plugin_reconfigure plugin_init start_tase2
Reach-IsAlive_example =
    Reach-IsAlive externals (later (later (later (init bare) starts) (reconfigures items)) starts)

-- A parser that reads the defaults.
abbrev default_externals : Externals
default_externals = record externals {
  parse = λ s.
      if s == "exchange"
      then some default_exchanged_data
      else if s == "stack"
      then some default_protocol_stack
      else if s == "tls"
      then some default_tls_conf
      else none;
}

plugin_init-crash_example :
    let t = start_tase2 (left (plugin_init default_externals items)) in
    (t.config.exchange_definitions_ref ≡ [])
    × (connections_of t.client ≡ default_peer ∷ [])
    × (is_crash (con_thread_round answering t.config (set_connect default_peer)) ≡ true)
plugin_init-crash_example = plugin_init-crash default_externals items answering (record {
  asset = refl;
  stack = ("stack", refl, refl);
  exchanged = ("exchange", refl, refl);
  tls = ("tls", refl, refl);
  address = refl;
})
