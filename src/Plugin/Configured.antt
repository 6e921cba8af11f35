-- ===== src/Plugin/Configured.antt =====
-- What setJsonConfig leaves (src/tase2.cpp).
use fledge_south_tase.Common.{String, List, [], ◌∷◌, Option, none, some, ◌≡◌, refl, arith}
use fledge_south_tase.Json.{Json, arr, obj, find_member, get_member, elements}
use fledge_south_tase.Config.{Config, Externals, new_config}
use fledge_south_tase.Config.Steps.{
  Flow, go, returned, aborted, threw, Step, Keeps, Keeps-seq, Keeps-reading,
}
use fledge_south_tase.Config.Connections.Accepted.{HasValidConnections}
use fledge_south_tase.Config.Exchange.{
  object_member, import_known, add_definition, import_exchange_config,
}
use fledge_south_tase.Config.Exchange.Invariant.{
  IsConsistent, new_config-IsConsistent, import_exchange_config-IsConsistent,
  import_exchange_config-Keeps,
}
use fledge_south_tase.Config.Protocol.{import_protocol_config}
use fledge_south_tase.Config.Protocol.Outcome.{
  import_protocol_config-HasValidConnections, import_protocol_config-IsConsistent,
}
use fledge_south_tase.Config.Tls.{
  import_ca_certs, import_remote_certs, if_array, import_tls_conf, import_tls_document,
  import_tls_config,
}
use fledge_south_tase.Plugin.{after_call, set_json_config}

-- A predicate that reads neither keys nor certificates is kept by the import of the TLS settings.
module _ {ℓ} (P : Config → Type ℓ)
    (ca : (certs : List String) (c : Config) → P c → P (record c { ca_certificates = certs }))
    (remote : (certs : List String) (c : Config)
      → P c
      → P (record c { remote_certificates = certs }))
    (own : (key certificate : String) (c : Config)
      → P c
      → P (record c { private_key = key; own_certificate = certificate })) where
  import_ca_certs-Keeps : (vs : List Json) → Keeps P (import_ca_certs vs)
  unfolding import_ca_certs
  import_ca_certs-Keeps [] = record { keep = λ c h. h }
  import_ca_certs-Keeps (v ∷ vs) =
      Keeps-seq (Keeps-reading (get_member "cert_file" v) λ f. record { keep = λ c h. ca _ c h })
        (import_ca_certs-Keeps vs)

  import_remote_certs-Keeps : (vs : List Json) → Keeps P (import_remote_certs vs)
  unfolding import_remote_certs
  import_remote_certs-Keeps [] = record { keep = λ c h. h }
  import_remote_certs-Keeps (v ∷ vs) =
      Keeps-seq
        (Keeps-reading (get_member "cert_file" v) λ f. record { keep = λ c h. remote _ c h })
        (import_remote_certs-Keeps vs)

  if_array-Keeps :
      (o : Option Json) {k : List Json → Step}
      → ((vs : List Json) → Keeps P (k vs))
      → Keeps P (if_array o k)
  if_array-Keeps (some (arr xs)) h = h (elements xs)
  if_array-Keeps o h = record { keep = λ c h. h }

  import_tls_conf-Keeps : (v : Json) → Keeps P (import_tls_conf v)
  unfolding import_tls_conf
  import_tls_conf-Keeps v =
      Keeps-seq (record { keep = λ c h. own _ _ c h })
        (Keeps-seq (if_array-Keeps (find_member "ca_certs" v) import_ca_certs-Keeps)
          (if_array-Keeps (find_member "remote_certs" v) import_remote_certs-Keeps))

  tls_object-Keeps : (o : Option Json) → Keeps P (object_member o import_tls_conf)
  tls_object-Keeps (some (obj ms)) = import_tls_conf-Keeps (obj ms)
  tls_object-Keeps o = record { keep = λ c h. h }

  import_tls_config-Keeps : (x : Externals) (text : String) → Keeps P (import_tls_config x text)
  unfolding import_tls_config
  import_tls_config-Keeps x text = document (x.parse text)
    where
      document : (o : Option Json) → Keeps P (import_tls_document o)
      document none = record { keep = λ c h. h }
      document (some v) = tls_object-Keeps (find_member "tls_conf" v)

after_call-keep {ℓ} :
    (P : Config → Type ℓ) (r : Config × Flow) (k : Config → Config × Flow)
    → P r.0
    → ((c : Config) → P c → P (k c).0)
    → P (after_call r k).0
after_call-keep P (c, go) k h f = f c h
after_call-keep P (c, returned) k h f = f c h
after_call-keep P (c, aborted) k h f = h
after_call-keep P (c, threw e) k h f = h

-- What the plugin may rely on after setJsonConfig.
pub record IsSound (x : Externals) (c : Config) : Type 0 where
  pub connections : HasValidConnections x c
  pub definitions : IsConsistent c

import_known-HasValidConnections :
    (x : Externals) (label ref type_id : String) (c : Config)
    → HasValidConnections x c
    → HasValidConnections x (import_known label ref type_id c)
unfolding import_known add_definition
import_known-HasValidConnections x label ref type_id c h = ground arith

exchange-HasValidConnections :
    (x : Externals) (text : String) → Keeps (HasValidConnections x) (import_exchange_config x text)
exchange-HasValidConnections x text =
    import_exchange_config-Keeps (HasValidConnections x) (import_known-HasValidConnections x)
      (λ b c h. h) x text

-- What both parts of it read.
IsSound-same :
    {x : Externals} {c d : Config}
    → IsSound x c
    → d.connections ≡ c.connections
    → d.exchange_definitions_ref ≡ c.exchange_definitions_ref
    → d.exchange_definitions ≡ c.exchange_definitions
    → d.polled_datapoints ≡ c.polled_datapoints
    → IsSound x d
IsSound-same {x} h e r l p = record {
  connections = rw e h.connections;
  definitions = record {
    refs = rw r h.definitions.refs;
    labels = rw l h.definitions.labels;
    polled = rw (r, p) h.definitions.polled;
  };
}

-- Whatever the three texts are, and also where an import returns early or throws, setJsonConfig
-- leaves a configuration in which every connection is valid (an address that inet_pton takes, a
-- port from 1 to 65635, well formed OSI titles and selectors) and in which the definitions are
-- consistent: each one stands under its reference and its label, and every polled point is
-- defined and of a type below COMMAND.
pub set_json_config-IsSound :
    (x : Externals) (stack_configuration msg_configuration tls_configuration : String)
    → IsSound x (set_json_config x stack_configuration msg_configuration tls_configuration).0
unfolding set_json_config
set_json_config-IsSound x stack msg tls =
    after_call-keep (IsSound x) (import_exchange_config x msg new_config) _ exchanged λ c h.
      after_call-keep (IsSound x) (import_protocol_config x stack c) _
        (record {
          connections = import_protocol_config-HasValidConnections x stack c h.connections;
          definitions = import_protocol_config-IsConsistent x stack c h.definitions;
        })
        (import_tls_config-Keeps (IsSound x) (λ s c h. IsSound-same h refl refl refl refl)
          (λ s c h. IsSound-same h refl refl refl refl)
          (λ s t c h. IsSound-same h refl refl refl refl) x tls).keep
  where
    exchanged : IsSound x (import_exchange_config x msg new_config).0
    exchanged = record {
      connections = (exchange-HasValidConnections x msg).keep new_config tt;
      definitions = import_exchange_config-IsConsistent x msg new_config new_config-IsConsistent;
    }
