-- ===== src/Connection/Prepare.antt =====
-- prepareConnection and m_setOsiConnectionParameters (src/tase2_client_connection.cpp).
pub mod Laws
use fledge_south_tase.Common.{
  ℕ, String, Bool, true, false, List, [], ◌∷◌, ◌++◌, Option, none, some, if◌then◌else◌,
}
use fledge_south_tase.Common.Texts.{is_empty}
use fledge_south_tase.Config.{Config, OsiParameters}
use fledge_south_tase.Connection.{
  Connection, Call, Library, record_calls, record_call, tls_set_renegotiation_time, tls_destroy,
  endpoint_create, set_remote_ip_address, set_remote_tcp_port, set_local_tcp_port,
  set_remote_ap_title, set_local_ap_title, set_remote_addresses, set_local_addresses, client_create,
}
use fledge_south_tase.Connection.Tls.{configure_tls}

-- The T selectors stand the other way round than the P and S selectors, as in the code.
unfoldable pub osi_calls : OsiParameters → List Call
osi_calls p =
    (if is_empty p.remote_ap_title
      then []
      else set_remote_ap_title p.remote_ap_title p.remote_ae_qualifier ∷ [])
    ++ (if is_empty p.local_ap_title
        then []
        else set_local_ap_title p.local_ap_title p.local_ae_qualifier ∷ [])
    ++ (set_remote_addresses p.remote_pselector p.remote_sselector p.local_tselector
        ∷ set_local_addresses p.local_pselector p.local_sselector p.remote_tselector
        ∷ [])

-- The endpoint with TLS. On a failed configuration no endpoint is created.
abbrev pub tls_endpoint : Library → Config → Connection → Connection
tls_endpoint l config c =
    let (calls, ok) = configure_tls l config in
    let filled = record_calls c calls in
    if ok
    then (let asked = record_calls filled (
          tls_set_renegotiation_time 60000
          ∷ endpoint_create (some l.tls_config_handle) c.passive
          ∷ []) in
        elim l.endpoint_handle [
          | some e ↦ record asked { endpoint = some e; tls_config = some l.tls_config_handle }
          | none ↦ record (record_call asked (tls_destroy l.tls_config_handle)) { endpoint = none }
        ])
    else filled

abbrev pub plain_endpoint : Library → Connection → Connection
plain_endpoint l c = record (record_call c (endpoint_create none c.passive)) {
  endpoint = l.endpoint_handle;
}

unfoldable pub create_endpoint : Library → Config → Connection → Connection
create_endpoint l config c = if c.use_tls then tls_endpoint l config c else plain_endpoint l c

abbrev pub address_calls : Connection → List Call
address_calls c =
    if c.passive
    then set_local_tcp_port c.tcp_port ∷ []
    else set_remote_ip_address c.server_ip ∷ set_remote_tcp_port c.tcp_port ∷ []

-- What prepareConnection comes to: the connection with its answer, or the dereference of a null
-- pointer, which the code does when it has an endpoint and no OSI parameters.
pub data Prepared : Type 0 where
  prepared : Connection → Bool → Prepared
  null_dereference : Connection → Prepared

abbrev pub is_some : Option ℕ → Bool
is_some none = false
is_some (some h) = true

-- The end of the function, for an endpoint. m_setOsiConnectionParameters dereferences
-- m_osiParameters with no test.
abbrev pub with_osi : Library → Connection → ℕ → Option OsiParameters → Prepared
with_osi l c e none = null_dereference (record_calls c (address_calls c))
with_osi l c e (some p) =
    prepared
      (record (record_calls c (address_calls c ++ (osi_calls p ++ client_create e ∷ []))) {
        tase2client = l.client_handle;
      })
      (is_some l.client_handle)

abbrev pub finish : Library → Connection → Option ℕ → Prepared
finish l c none = prepared c false
finish l c (some e) = with_osi l c e c.osi_parameters

unfoldable pub prepare_connection : Library → Config → Connection → Prepared
unfolding create_endpoint
prepare_connection l config c = let c' = create_endpoint l config c in finish l c' c'.endpoint
