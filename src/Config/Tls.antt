-- ===== src/Config/Tls.antt =====
-- importTlsConfig (src/tase2_client_config.cpp): keys and certificates.
pub mod Certificates
use fledge_south_tase.Common.{String, List, [], ◌∷◌, ◌++◌, Option, none, some}
use fledge_south_tase.Json.{
  Json, str, arr, obj, Result, ok, thrown, fault, find_member, get_member, elements,
}
use fledge_south_tase.Config.{Config, Externals}
use fledge_south_tase.Config.Steps.{Flow, go, Step, reading, return, store, ◌⨾◌}
use fledge_south_tase.Config.Exchange.{object_member}

abbrev pub text_or : String → Option Json → String
text_or old (some (str s)) = s
text_or old _ = old

abbrev pub add_text : List String → Option Json → List String
add_text certs (some (str s)) = certs ++ s ∷ []
add_text certs _ = certs

-- The two loops over certificates; an element that is no object is a fault.
unfoldable pub import_ca_certs : List Json → Step
import_ca_certs [] = store (λ c. c)
import_ca_certs (v ∷ vs) =
    (reading (get_member "cert_file" v)
      λ f. store (λ c. record c { ca_certificates = add_text c.ca_certificates f }))
    ⨾ import_ca_certs vs

unfoldable pub import_remote_certs : List Json → Step
import_remote_certs [] = store (λ c. c)
import_remote_certs (v ∷ vs) =
    (reading (get_member "cert_file" v)
      λ f. store (λ c. record c { remote_certificates = add_text c.remote_certificates f }))
    ⨾ import_remote_certs vs

abbrev pub if_array : Option Json → (List Json → Step) → Step
if_array (some (arr xs)) k = k (elements xs)
if_array _ k = store (λ c. c)

unfoldable pub import_tls_conf : Json → Step
import_tls_conf tls_conf =
    store (λ c. record c {
      private_key = text_or c.private_key (find_member "private_key" tls_conf);
      own_certificate = text_or c.own_certificate (find_member "own_cert" tls_conf);
    })
    ⨾ if_array (find_member "ca_certs" tls_conf) import_ca_certs
    ⨾ if_array (find_member "remote_certs" tls_conf) import_remote_certs

abbrev pub import_tls_document : Option Json → Step
import_tls_document none = return
import_tls_document (some document) =
    object_member (find_member "tls_conf" document) import_tls_conf

unfoldable pub import_tls_config : Externals → String → Step
import_tls_config x tls_config = import_tls_document (x.parse tls_config)
