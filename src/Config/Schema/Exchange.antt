-- ===== src/Config/Schema/Exchange.antt =====
-- Exchanged data and TLS settings of the right shape fail no accessor
-- (src/tase2_client_config.cpp).
use fledge_south_tase.Common.{String, false, List, [], ◌∷◌, Option, none, some, All}
use fledge_south_tase.Json.{Json, str, find_member}
use fledge_south_tase.Json.Shape.{IsObject, Fits}
use fledge_south_tase.Config.{Externals}
use fledge_south_tase.Config.Steps.{Step, store}
use fledge_south_tase.Config.Exchange.{
  text_member, import_protocol, import_protocols, import_datapoint, import_datapoints,
  import_exchange_document, import_exchange_config,
}
use fledge_south_tase.Config.Tls.{
  import_ca_certs, import_remote_certs, import_tls_conf, import_tls_document, import_tls_config,
}
use fledge_south_tase.Config.Schema.{
  IsPoint, IsDataPart, IsExchangeDocument, IsTlsConf, IsTlsDocument,
}
use fledge_south_tase.Config.Schema.Steps.{
  Safe, Safe-return, Safe-store, Safe-seq, Safe-member, Safe-object, Safe-array_member,
  Safe-if_array,
}

Safe-text_member :
    (o : Option Json) (k : String → Step) → ((s : String) → Safe (k s)) → Safe (text_member o k)
Safe-text_member (some (str s)) k h = h s
Safe-text_member _ k h = Safe-return

protocol-Safe : (label : String) (v : Json) → IsObject v → Safe (import_protocol label v)
unfolding import_protocol
protocol-Safe label v object = Safe-member "name" v _ object (
    Safe-text_member (find_member "name" v) _ λ _. Safe-member "ref" v _ object (
      Safe-text_member (find_member "ref" v) _ λ ref.
        Safe-member "typeid" v _ object
          (Safe-text_member (find_member "typeid" v) _ λ type_id. Safe-store _)))

protocols-Safe :
    (label : String) (vs : List Json) → All IsObject vs → Safe (import_protocols label vs)
unfolding import_protocols
protocols-Safe label [] h = Safe-store _
protocols-Safe label (v ∷ vs) (object, h) =
    Safe-seq (protocol-Safe label v object) (protocols-Safe label vs h)

datapoint-Safe : (v : Json) → IsPoint v → Safe (import_datapoint v)
unfolding import_datapoint
datapoint-Safe v h =
    Safe-text_member (find_member "label" v) _
      λ label. Safe-array_member IsObject (find_member "protocols" v) _ h (protocols-Safe label)

datapoints-Safe : (vs : List Json) → All IsPoint vs → Safe (import_datapoints vs)
unfolding import_datapoints
datapoints-Safe [] h = Safe-store _
datapoints-Safe (v ∷ vs) (p, h) = Safe-seq (datapoint-Safe v p) (datapoints-Safe vs h)

exchange_document-Safe :
    (o : Option Json) → Fits IsExchangeDocument o → Safe (import_exchange_document o)
exchange_document-Safe none h = Safe-return
exchange_document-Safe (some v) h =
    Safe-object IsDataPart (find_member "exchanged_data" v) _ h
      λ part fits. Safe-array_member IsPoint (find_member "datapoints" part) _ fits datapoints-Safe

pub import_exchange_config-Safe :
    (x : Externals) (text : String)
    → Fits IsExchangeDocument (x.parse text)
    → Safe (import_exchange_config x text)
unfolding import_exchange_config
import_exchange_config-Safe x text h =
    Safe-seq {m = store (λ c. record c { exchange_config_complete = false })} (Safe-store _)
      (exchange_document-Safe (x.parse text) h)

ca_certs-Safe : (vs : List Json) → All IsObject vs → Safe (import_ca_certs vs)
unfolding import_ca_certs
ca_certs-Safe [] h = Safe-store _
ca_certs-Safe (v ∷ vs) (object, h) =
    Safe-seq (Safe-member "cert_file" v _ object (Safe-store _)) (ca_certs-Safe vs h)

remote_certs-Safe : (vs : List Json) → All IsObject vs → Safe (import_remote_certs vs)
unfolding import_remote_certs
remote_certs-Safe [] h = Safe-store _
remote_certs-Safe (v ∷ vs) (object, h) =
    Safe-seq (Safe-member "cert_file" v _ object (Safe-store _)) (remote_certs-Safe vs h)

tls_conf-Safe : (v : Json) → IsTlsConf v → Safe (import_tls_conf v)
unfolding import_tls_conf
tls_conf-Safe v (ca, remote) = Safe-seq (Safe-store _) (
    Safe-seq (Safe-if_array IsObject (find_member "ca_certs" v) _ ca ca_certs-Safe)
      (Safe-if_array IsObject (find_member "remote_certs" v) _ remote remote_certs-Safe))

tls_document-Safe : (o : Option Json) → Fits IsTlsDocument o → Safe (import_tls_document o)
tls_document-Safe none h = Safe-return
tls_document-Safe (some v) h = Safe-object IsTlsConf (find_member "tls_conf" v) _ h tls_conf-Safe

pub import_tls_config-Safe :
    (x : Externals) (text : String)
    → Fits IsTlsDocument (x.parse text)
    → Safe (import_tls_config x text)
unfolding import_tls_config
import_tls_config-Safe x text h = tls_document-Safe (x.parse text) h
