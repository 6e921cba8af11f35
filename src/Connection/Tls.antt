-- ===== src/Connection/Tls.antt =====
-- The TLS part of TASE2ClientConnection::prepareConnection (src/tase2_client_connection.cpp): which
-- files are loaded, and whether the configuration is good enough to create an endpoint.
pub mod Pem
use fledge_south_tase.Common.{
  ℕ, suc, ◌+◌, ◌-◌, ◌%◌, ◌^◌, String, code, Bool, true, false, ◌&&◌, ◌||◌, List, [], ◌∷◌, ◌++◌,
  Option, none, some, nat_eq, if◌then◌else◌,
}
use fledge_south_tase.Common.Texts.{text_length, ◌⧺◌, is_empty}
use fledge_south_tase.Config.{Config}
use fledge_south_tase.Connection.{
  Call, tls_set_own_key, tls_set_own_certificate, tls_add_allowed_certificate,
  tls_add_ca_certificate, tls_allow_only_known, tls_chain_validation, Library,
}

-- Whether ".pem" stands at the front.
unfoldable pub starts_pem : String → Bool
starts_pem (String.◌∷◌ a (String.◌∷◌ b (String.◌∷◌ c (String.◌∷◌ d s)))) =
    nat_eq (code a) b'.' && (nat_eq (code b) b'p' && (nat_eq (code c) b'e' && nat_eq (code d) b'm'))
starts_pem s = false

-- rfind (".pem"), the last place where it stands
unfoldable pub rfind_pem : String → Option ℕ
unfolding starts_pem
rfind_pem String.[] = none
rfind_pem (String.◌∷◌ c s) = elim (rfind_pem s) [
  | some p ↦ some (suc p)
  | none ↦ if starts_pem (String.◌∷◌ c s) then some 0 else none
]

abbrev pub npos : ℕ
npos = 2 ^ 64 - 1

abbrev pub or_npos : Option ℕ → ℕ
or_npos none = npos
or_npos (some p) = p

-- `name.rfind (".pem") == name.size () - 4`, in size_t, which wraps
unfoldable pub is_pem : String → Bool
is_pem name = nat_eq (or_npos (rfind_pem name)) ((text_length name + 2 ^ 64 - 4) % 2 ^ 64)

unfoldable pub certificate_file : Library → String → String
certificate_file l name =
    if is_pem name
    then l.data_dir ⧺ ("/etc/certs/pem/" ⧺ name)
    else l.data_dir ⧺ ("/etc/certs/" ⧺ name)

-- Loading one file: the call if the file can be read, and whether it was loaded.
abbrev pub load : Library → (String → Call) → (String → Bool) → String → List Call × Bool
load l call loads file = if l.can_read file then (call file ∷ [], loads file) else ([], false)

-- The own key and certificate, both of which are needed.
unfoldable pub load_own : Library → Config → List Call × Bool
load_own l config =
    if is_empty config.own_certificate || is_empty config.private_key
    then ([], false)
    else let (key_calls, key_ok) =
        load l tls_set_own_key l.own_key_loads
          (l.data_dir ⧺ ("/etc/certs/" ⧺ config.private_key)) in
      let (cert_calls, cert_ok) =
        load l tls_set_own_certificate l.own_certificate_loads
          (certificate_file l config.own_certificate) in
      (key_calls ++ cert_calls, key_ok && cert_ok)

-- Remote and CA certificates: one that cannot be loaded is passed over.
unfoldable pub load_all : Library → (String → Call) → List String → List Call
load_all l call [] = []
load_all l call (name ∷ names) =
    (load l call (λ s. true) (certificate_file l name)).0 ++ load_all l call names

abbrev pub load_remote : Library → List String → List Call
load_remote l [] = tls_allow_only_known false ∷ []
load_remote l (name ∷ names) =
    tls_allow_only_known true ∷ load_all l tls_add_allowed_certificate (name ∷ names)

abbrev pub load_ca : Library → List String → List Call
load_ca l [] = tls_chain_validation false ∷ []
load_ca l (name ∷ names) =
    tls_chain_validation true ∷ load_all l tls_add_ca_certificate (name ∷ names)

-- The calls that fill the TLS configuration, and `tlsConfigOk`.
unfoldable pub configure_tls : Library → Config → List Call × Bool
configure_tls l config =
    let (own, ok) = load_own l config in
    (own ++ (load_remote l config.remote_certificates ++ load_ca l config.ca_certificates), ok)
