-- ===== src/Plugin/Default.antt =====
-- The plugin's default configuration (src/plugin.cpp), as the documents that its items hold: the
-- texts are QUOTE ({...}) in the source, and the category and the parser are parameters.
pub mod Start
use fledge_south_tase.Common.{String, Bool, true, false, List, [], ◌∷◌, Option, none, some, ◌≡◌}
use fledge_south_tase.Common.Int.{ℤ, pos}
use fledge_south_tase.Json.{Json, str, int, bool, obj, arr, Items, nil, cons, Members, end, member}
use fledge_south_tase.Config.{Config, Externals, RedGroup, new_config}
use fledge_south_tase.Plugin.Entry.{Category}

abbrev pub default_connection : Json
default_connection = obj (
    member "ip_addr" (str "127.0.0.1")
      (member "port" (int (pos 102)) (member "tls" (bool false) end)))

-- The "protocol_stack" item. Its connection has no "osi" member.
abbrev pub default_protocol_stack : Json
default_protocol_stack = obj (
    member "protocol_stack"
      (obj (
        member "name" (str "tase2client") (
          member "version" (str "0.0.1") (
            member "transport_layer"
              (obj (
                member "ied_name" (str "IED1")
                  (member "connections" (arr (cons default_connection nil)) end)))
              (member "application_layer" (obj (member "polling_interval" (int (pos 10000)) end))
                end)))))
      end)

-- The "exchanged_data" item. Its protocol entry has "objref" and "cdc", no "ref" and no "typeid".
abbrev pub default_exchanged_data : Json
default_exchanged_data = obj (
    member "exchanged_data"
      (obj (
        member "datapoints"
          (arr (
            cons
              (obj (
                member "label" (str "TS1") (
                  member "pivot_id" (str "TS1") (
                    member "protocols"
                      (arr (
                        cons
                          (obj (
                            member "name" (str "tase2") (
                              member "objref" (str "DER_Scheduler_Control/ActPow_GGIO1.AnOut1")
                                (member "cdc" (str "ApcTyp") end))))
                          nil))
                      end))))
              nil))
          end))
      end)

abbrev pub cert_file : String → Json
cert_file name = obj (member "cert_file" (str name) end)

-- The "tls_conf" item.
abbrev pub default_tls_conf : Json
default_tls_conf = obj (
    member "tls_conf"
      (obj (
        member "private_key" (str "iec104_server.key") (
          member "own_cert" (str "iec104_server.cer") (
            member "ca_certs"
              (arr (cons (cert_file "iec104_ca.cer") (cons (cert_file "iec104_ca2.cer") nil)))
              (member "remote_certs" (arr (cons (cert_file "iec104_client.cer") nil)) end)))))
      end)

-- A category whose items hold the defaults, as the parser reads them.
pub record HoldsDefaults (x : Externals) (config : Category) : Type 0 where
  pub asset : config "asset" ≡ some "tase2"
  pub stack :
      (text : String) × (config "protocol_stack" ≡ some text)
      × (x.parse text ≡ some default_protocol_stack)
  pub exchanged :
      (text : String) × (config "exchanged_data" ≡ some text)
      × (x.parse text ≡ some default_exchanged_data)
  pub tls :
      (text : String) × (config "tls_conf" ≡ some text) × (x.parse text ≡ some default_tls_conf)
  pub address : x.inet_pton "127.0.0.1" ≡ true
