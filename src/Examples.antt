-- ===== src/Examples.antt =====
-- Concrete configurations, connections, points and documents, and the theorems at them.
mod Importing
mod Connecting
mod Polling
mod Operating
mod Launching
use fledge_south_tase.Common.{
  ℕ, String, Bool, true, false, List, [], ◌∷◌, Option, none, some, if◌then◌else◌,
}
use fledge_south_tase.Common.Texts.{◌==◌}
use fledge_south_tase.Common.Int.{ℤ, pos}
use fledge_south_tase.Json.{Json, str, int, bool, obj, arr, Items, nil, cons, Members, end, member}
use fledge_south_tase.DpType.{real, stateqtimeext, command}
use fledge_south_tase.Config.{
  Config, Externals, DataExchangeDefinition, OsiParameters, Selector, new_config,
  new_osi_parameters,
}
use fledge_south_tase.Connection.{Connection, Library, connected, new_connection}
use fledge_south_tase.Connection.Thread.{Round, running, crashed}
use fledge_south_tase.Client.{PointLibrary, Device}

abbrev entry : String → String → String → Json
entry label ref type = obj (
    member "label" (str label) (
      member "protocols"
        (arr (
          cons
            (obj (
              member "name" (str "tase2")
                (member "ref" (str ref) (member "typeid" (str type) end))))
            nil))
        end))

abbrev pub exchange_document : Json
exchange_document = obj (
    member "exchanged_data"
      (obj (
        member "datapoints"
          (arr (
            cons (entry "L1" "icc1:a" "Real") (
              cons (entry "L2" "icc1:b" "StateQTimeExt")
                (cons (entry "L3" "icc1:c" "Command") nil))))
          end))
      end)

abbrev pub osi_section : Json
osi_section = obj (
    member "local_ap_title" (str "1,1,999")
      (member "remote_psel" (str "0x00,0x01") (member "local_tsel" (str "0 1") end)))

abbrev pub one_connection : Json
one_connection = obj (
    member "ip_addr" (str "127.0.0.1")
      (member "port" (int (pos 102)) (member "osi" osi_section end)))

abbrev pub stack_document : Json
stack_document = obj (
    member "protocol_stack"
      (obj (
        member "transport_layer" (obj (member "connections" (arr (cons one_connection nil)) end))
          (member "application_layer" (obj (member "polling_interval" (int (pos 1000)) end)) end)))
      end)

abbrev pub certificate : String → Json
certificate file = obj (member "cert_file" (str file) end)

abbrev pub tls_section : Json
tls_section = obj (
    member "private_key" (str "own.key") (
      member "own_cert" (str "own.cer") (
        member "ca_certs" (arr (cons (certificate "root.cer") nil)) (
          member "remote_certs" (arr (cons (certificate "a.cer") (cons (certificate "b.cer") nil)))
            end))))

-- A parser that knows three texts.
abbrev pub externals : Externals
externals = record {
  inet_pton = λ s. s == "127.0.0.1";
  parse = λ s.
      if s == "exchange"
      then some exchange_document
      else if s == "stack"
      then some stack_document
      else if s == "tls"
      then some (obj (member "tls_conf" tls_section end))
      else none;
  ds_condition_interval = 1;
  ds_condition_integrity = 2;
  ds_condition_change = 4;
  ds_condition_operator_requested = 8;
  ds_condition_external_event = 16;
}

abbrev pub definition_a : DataExchangeDefinition
definition_a = record { ref = "icc1:a"; type = real; label = "L1" }

abbrev pub definition_b : DataExchangeDefinition
definition_b = record { ref = "icc1:b"; type = stateqtimeext; label = "L2" }

abbrev pub definition_c : DataExchangeDefinition
definition_c = record { ref = "icc1:c"; type = command; label = "L3" }

abbrev pub sample_config : Config
sample_config = record new_config {
  polled_datapoints = ("icc1:a", definition_a) ∷ ("icc1:b", definition_b) ∷ [];
  exchange_definitions = ("L1", definition_a) ∷ ("L2", definition_b) ∷ ("L3", definition_c) ∷ [];
  exchange_definitions_ref =
      ("icc1:a", definition_a) ∷ ("icc1:b", definition_b) ∷ ("icc1:c", definition_c) ∷ [];
  polling_interval = pos 1000;
}

-- A value and its flags.
abbrev pub points : PointLibrary
points = record {
  Real = ℕ;
  PointValue = ℕ × ℕ;
  get_discrete = λ v. pos v.0;
  get_state_supplemental = λ v. pos v.0;
  get_state = λ v. pos v.0;
  get_real = λ v. v.0;
  get_flags = λ v. v.1;
  create_discrete = λ z. (7, 0);
  create_real = λ r. (r, 0);
  validity_valid = 0;
  validity_held = 4;
  validity_suspect = 8;
  validity_notvalid = 12;
  source_telemetered = 0;
  source_entered = 16;
  source_calculated = 32;
  source_estimated = 48;
  normal_value = 64;
}

-- A peer that answers for every point but "a".
abbrev pub peer : Device points
peer = record {
  read_point_value = λ domain name. if name == "a" then none else some (5, 0);
  select_device = λ domain name. true;
  send_command_value = λ domain name value. true;
  send_real_set_point = λ domain name value. true;
  send_discrete_set_point = λ domain name value. false;
}

-- A peer that answers for every point.
abbrev pub full_peer : Device points
full_peer = record peer { read_point_value = λ domain name. some (5, 0) }

abbrev pub answering : Library
answering = record {
  now = 100;
  data_dir = "/data";
  can_read = λ file. true;
  tls_config_handle = 1;
  own_key_loads = λ file. true;
  own_certificate_loads = λ file. true;
  allowed_certificate_loads = λ file. true;
  ca_certificate_loads = λ file. true;
  endpoint_handle = some 2;
  client_handle = some 3;
  error_is_ok = true;
  endpoint_connected = true;
  data_set_created = λ domain name. true;
  transfer_set_handle = λ i. some i;
  data_set_handle = λ domain name. some 4;
  values_written = λ dsts. true;
}

abbrev pub silent : Library
silent = record answering { endpoint_handle = none; endpoint_connected = false }

abbrev pub fresh : Connection
fresh = new_connection "127.0.0.1" (pos 102) false (some new_osi_parameters)

abbrev pub online : Connection
online = record fresh {
  endpoint = some 2;
  tase2client = some 3;
  dsts = 5 ∷ 6 ∷ [];
  state = connected;
  is_connected = true;
  connect = true;
  started = true;
}

abbrev pub state_of : Round → Connection
state_of (running c) = c
state_of (crashed c) = c
