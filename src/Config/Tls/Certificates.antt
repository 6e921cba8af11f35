-- ===== src/Config/Tls/Certificates.antt =====
-- What importTlsConfig stores (src/tase2_client_config.cpp).
use fledge_south_tase.Common.{
  String, List, [], ◌∷◌, ◌++◌, Option, some, ◌≡◌, refl, sym, ◌∙◌, true, All,
}
use mathlib.Core.List.{append-nil, append_assoc}
use fledge_south_tase.Json.{Json, str, arr, obj, find_member, get_member, elements, is_object}
use fledge_south_tase.Config.{Config}
use fledge_south_tase.Config.Steps.{go, Step, reading, ◌⨾◌}
use fledge_south_tase.Config.Tls.{
  text_or, add_text, if_array, import_ca_certs, import_remote_certs, import_tls_conf,
}

-- The files that a list of certificate objects names; other elements count for nothing.
abbrev pub cert_files : List Json → List String
cert_files [] = []
cert_files (v ∷ vs) = add_text [] (find_member "cert_file" v) ++ cert_files vs

abbrev pub AreObjects : List Json → Type 0
AreObjects vs = All (λ v. is_object v ≡ true) vs

add_text-append :
    (certs : List String) (o : Option Json) → add_text certs o ≡ certs ++ add_text [] o
add_text-append certs (some (str s)) = refl
add_text-append certs o = sym (append-nil certs)

reading_object :
    (k : String) (v : Json) (f : Option Json → Step)
    → is_object v ≡ true
    → reading (get_member k v) f ≡ f (find_member k v)
unfolding reading
reading_object k (obj ms) f h = refl
reading_object k v f h = cc

import_ca_certs-cert_files :
    (vs : List Json) (c : Config)
    → AreObjects vs
    → import_ca_certs vs c ≡ (record c { ca_certificates = c.ca_certificates ++ cert_files vs }, go)
unfolding import_ca_certs ◌⨾◌
import_ca_certs-cert_files [] c h = rw append-nil
import_ca_certs-cert_files (v ∷ vs) c (o, h) = rw (reading_object "cert_file" v _ o) (
    import_ca_certs-cert_files vs
      (record c { ca_certificates = add_text c.ca_certificates (find_member "cert_file" v) }) h
    ∙ rw (add_text-append c.ca_certificates (find_member "cert_file" v), append_assoc))

import_remote_certs-cert_files :
    (vs : List Json) (c : Config)
    → AreObjects vs
    → import_remote_certs vs c
      ≡ (record c { remote_certificates = c.remote_certificates ++ cert_files vs }, go)
unfolding import_remote_certs ◌⨾◌
import_remote_certs-cert_files [] c h = rw append-nil
import_remote_certs-cert_files (v ∷ vs) c (o, h) = rw (reading_object "cert_file" v _ o) (
    import_remote_certs-cert_files vs
      (record c {
        remote_certificates = add_text c.remote_certificates (find_member "cert_file" v);
      })
      h
    ∙ rw (add_text-append c.remote_certificates (find_member "cert_file" v), append_assoc))

-- The elements of a member that is an array, and none of one that is not.
abbrev pub array_of : Option Json → List Json
array_of (some (arr xs)) = elements xs
array_of _ = []

if_array-ca :
    (o : Option Json) (c : Config)
    → AreObjects (array_of o)
    → if_array o import_ca_certs c
      ≡ (record c { ca_certificates = c.ca_certificates ++ cert_files (array_of o) }, go)
if_array-ca (some (arr xs)) c h = import_ca_certs-cert_files (elements xs) c h
if_array-ca o c h = rw append-nil

if_array-remote :
    (o : Option Json) (c : Config)
    → AreObjects (array_of o)
    → if_array o import_remote_certs c
      ≡ (record c { remote_certificates = c.remote_certificates ++ cert_files (array_of o) }, go)
if_array-remote (some (arr xs)) c h = import_remote_certs-cert_files (elements xs) c h
if_array-remote o c h = rw append-nil

-- A "tls_conf" whose certificate lists hold objects only is imported to its end: the key and the
-- own certificate are replaced where they are texts and stay otherwise, the files that the two
-- lists name are appended in their order, and no other part of the configuration changes.
pub import_tls_conf-cert_files :
    (tls_conf : Json) (c : Config)
    → AreObjects (array_of (find_member "ca_certs" tls_conf))
    → AreObjects (array_of (find_member "remote_certs" tls_conf))
    → import_tls_conf tls_conf c ≡ (
      record c {
        private_key = text_or c.private_key (find_member "private_key" tls_conf);
        own_certificate = text_or c.own_certificate (find_member "own_cert" tls_conf);
        ca_certificates =
            c.ca_certificates ++ cert_files (array_of (find_member "ca_certs" tls_conf));
        remote_certificates =
            c.remote_certificates ++ cert_files (array_of (find_member "remote_certs" tls_conf));
      },
      go,
    )
unfolding import_tls_conf ◌⨾◌
import_tls_conf-cert_files v c ca remote = rw (
  if_array-ca (find_member "ca_certs" v) _ ca,
  if_array-remote (find_member "remote_certs" v) _ remote,
)
