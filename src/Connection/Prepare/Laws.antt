-- ===== src/Connection/Prepare/Laws.antt =====
-- When a connection can be prepared (src/tase2_client_connection.cpp).
use fledge_south_tase.Common.{
  String, Bool, true, false, ◌&&◌, ◌||◌, not, List, [], ◌∷◌, ◌++◌, ◌⊎◌, inl, inr, refl,
  if◌then◌else◌, none, some, ◌≡◌, arith,
}
use fledge_south_tase.Config.{Config, OsiParameters}
use fledge_south_tase.Connection.{
  Connection, Call, Library, record_calls, tls_set_own_key, tls_set_own_certificate,
}
use fledge_south_tase.Connection.Tls.{configure_tls, load_own, certificate_file}
use fledge_south_tase.Common.Texts.{is_empty, ◌⧺◌}
use fledge_south_tase.Connection.Prepare.{
  Prepared, prepared, null_dereference, prepare_connection, create_endpoint, is_some,
}

abbrev pub is_null_dereference : Prepared → Bool
is_null_dereference (null_dereference c) = true
is_null_dereference (prepared c ok) = false

-- A connection with no OSI parameters and no TLS: as soon as the library creates an endpoint,
-- prepareConnection dereferences the null pointer to the parameters; with no endpoint it answers
-- false. It never succeeds.
pub prepare_connection_without_osi :
    (l : Library) (config : Config) (c : Connection)
    → c.osi_parameters ≡ none
    → c.use_tls ≡ false
    → is_null_dereference (prepare_connection l config c) ≡ is_some l.endpoint_handle
unfolding prepare_connection create_endpoint
prepare_connection_without_osi l config c osi plain = ground arith

abbrev pub is_success : Prepared → Bool
is_success (null_dereference c) = false
is_success (prepared c ok) = ok

-- With OSI parameters and no TLS, prepareConnection dereferences no null pointer, and answers true
-- exactly if the library creates an endpoint and a client.
pub prepare_connection_with_osi :
    (l : Library) (config : Config) (c : Connection) (p : OsiParameters)
    → c.osi_parameters ≡ some p
    → c.use_tls ≡ false
    → (is_null_dereference (prepare_connection l config c) ≡ false)
      × (is_success (prepare_connection l config c)
          ≡ (is_some l.endpoint_handle && is_some l.client_handle))
unfolding prepare_connection create_endpoint
prepare_connection_with_osi l config c p osi plain = ground arith

-- The own key and certificate are named, their files can be read, and the library loads both.
abbrev pub own_loads : Library → Config → Bool
own_loads l config =
    let key = l.data_dir ⧺ ("/etc/certs/" ⧺ config.private_key) in
    let cert = certificate_file l config.own_certificate in
    (not (is_empty config.own_certificate) && not (is_empty config.private_key))
    && ((l.can_read key && l.own_key_loads key)
        && (l.can_read cert && l.own_certificate_loads cert))

configure_tls-own_loads :
    (l : Library) (config : Config) → (configure_tls l config).1 ≡ own_loads l config
unfolding configure_tls load_own
configure_tls-own_loads l config =
    go (is_empty config.own_certificate) (is_empty config.private_key) (l.can_read key)
      (l.can_read cert)
  where
    key : String
    key = l.data_dir ⧺ ("/etc/certs/" ⧺ config.private_key)

    cert : String
    cert = certificate_file l config.own_certificate

    go :
        (b b' k c : Bool)
        → (if◌then◌else◌ {A = List Call × Bool}
            (b || b')
            ([], false)
            (
              (if◌then◌else◌ {A = List Call × Bool} k
                    (tls_set_own_key key ∷ [], l.own_key_loads key)
                    ([], false)).0
                  ++ (if◌then◌else◌ {A = List Call × Bool} c
                      (tls_set_own_certificate cert ∷ [], l.own_certificate_loads cert)
                      ([], false)).0,
              (if◌then◌else◌ {A = List Call × Bool} k
                    (tls_set_own_key key ∷ [], l.own_key_loads key)
                    ([], false)).1
                  && (if◌then◌else◌ {A = List Call × Bool} c
                      (tls_set_own_certificate cert ∷ [], l.own_certificate_loads cert)
                      ([], false)).1,
            )).1
          ≡ ((not b && not b')
              && ((k && l.own_key_loads key) && (c && l.own_certificate_loads cert)))
    go true b' k c = refl
    go false true k c = refl
    go false false true true = refl
    go false false true false = refl
    go false false false true = refl
    go false false false false = refl

tls_outcome :
    (l : Library) (config : Config) (c : Connection) (p : OsiParameters) (ok : Bool)
    → c.use_tls ≡ true
    → c.endpoint ≡ none
    → c.osi_parameters ≡ some p
    → (configure_tls l config).1 ≡ ok
    → (is_success (prepare_connection l config c)
        ≡ (ok && (is_some l.endpoint_handle && is_some l.client_handle)))
      × (ok ≡ true
          ⊎ (prepare_connection l config c
              ≡ prepared (record_calls c (configure_tls l config).0) false))
unfolding prepare_connection create_endpoint
tls_outcome l config c p true tls free osi good = (ground arith, inl refl)
tls_outcome l config c p false tls free osi bad = (ground arith, inr (ground arith))

-- With TLS and OSI parameters, a connection that holds no endpoint is prepared exactly if its own
-- key and certificate are named, can be read and are loaded, and the library creates an endpoint and
-- a client; the remote and CA certificates have no influence. If the own ones do not load, no
-- endpoint is asked for: the calls are those that fill the TLS configuration, and the connection
-- stays as it was otherwise, with no reference to that configuration.
pub prepare_connection_tls :
    (l : Library) (config : Config) (c : Connection) (p : OsiParameters)
    → c.use_tls ≡ true
    → c.endpoint ≡ none
    → c.osi_parameters ≡ some p
    → (is_success (prepare_connection l config c)
        ≡ (own_loads l config && (is_some l.endpoint_handle && is_some l.client_handle)))
      × (own_loads l config ≡ true
          ⊎ (prepare_connection l config c
              ≡ prepared (record_calls c (configure_tls l config).0) false))
prepare_connection_tls l config c p tls free osi =
    tls_outcome l config c p (own_loads l config) tls free osi (configure_tls-own_loads l config)
