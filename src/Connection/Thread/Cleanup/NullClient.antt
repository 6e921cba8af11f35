-- ===== src/Connection/Thread/Cleanup/NullClient.antt =====
-- What becomes of an endpoint whose client could not be made (src/tase2_client_connection.cpp).
use fledge_south_tase.Common.{
  ℕ, false, List, [], ◌∷◌, ◌++◌, map, Option, none, some, ◌≡◌, refl, ap, ◌∙◌,
}
use fledge_south_tase.Config.{Config, OsiParameters}
use fledge_south_tase.Connection.{
  Connection, Call, Library, idle, fatal_error, dsts_destroy, data_set_destroy, client_destroy,
}
use fledge_south_tase.Connection.Prepare.{prepare_connection, create_endpoint}
use fledge_south_tase.Connection.Thread.{
  clean_up, disconnect, idle_round, destroy_client, destroy_tls,
}
use fledge_south_tase.Connection.Thread.Progress.{RunsTo}

-- The clients that Tase2_Client_destroy is called with, in order.
abbrev pub destroyed_clients : List Call → List (Option ℕ)
destroyed_clients [] = []
destroyed_clients (client_destroy h ∷ calls) = h ∷ destroyed_clients calls
destroyed_clients (_ ∷ calls) = destroyed_clients calls

destroyed_clients-append :
    (xs ys : List Call)
    → destroyed_clients (xs ++ ys) ≡ destroyed_clients xs ++ destroyed_clients ys
destroyed_clients-append [] ys = refl
destroyed_clients-append (client_destroy h ∷ xs) ys = ap (◌∷◌ h) (destroyed_clients-append xs ys)
destroyed_clients-append (x ∷ xs) ys = destroyed_clients-append xs ys

destroyed_clients-dsts : (hs : List ℕ) → destroyed_clients (map dsts_destroy hs) ≡ []
destroyed_clients-dsts [] = refl
destroyed_clients-dsts (h ∷ hs) = destroyed_clients-dsts hs

destroyed_clients-data_sets : (hs : List ℕ) → destroyed_clients (map data_set_destroy hs) ≡ []
destroyed_clients-data_sets [] = refl
destroyed_clients-data_sets (h ∷ hs) = destroyed_clients-data_sets hs

-- With an endpoint, cleanUp destroys the client, whatever it is.
clean_up-destroyed_clients :
    (c : Connection) (e : ℕ)
    → c.endpoint ≡ some e
    → destroyed_clients (clean_up c).calls ≡ destroyed_clients c.calls ++ c.tase2client ∷ []
unfolding clean_up
clean_up-destroyed_clients c e held =
    destroyed_clients-append c.calls _
    ∙ ap (λ hs. destroyed_clients c.calls ++ hs)
        (destroyed_clients-append (map dsts_destroy c.dsts) _
          ∙ rw (destroyed_clients-dsts c.dsts) (
              destroyed_clients-append (map data_set_destroy c.datasets) _
              ∙ rw (destroyed_clients-data_sets c.datasets) (rest c.endpoint c.tls_config held)))
  where
    rest :
        (o t : Option ℕ)
        → o ≡ some e
        → destroyed_clients (destroy_client o c.tase2client ++ destroy_tls t) ≡ c.tase2client ∷ []
    rest none t held = cc
    rest (some k) none held = refl
    rest (some k) (some t) held = refl

disconnect-destroyed_clients :
    (c : Connection) (e : ℕ)
    → c.endpoint ≡ some e
    → destroyed_clients (disconnect c).calls ≡ destroyed_clients c.calls ++ c.tase2client ∷ []
unfolding disconnect
disconnect-destroyed_clients c e held =
    clean_up-destroyed_clients
      (record c { is_connecting = false; is_connected = false; connect = false; state = idle }) e
      held

-- The endpoint was made, and its client was not.
abbrev pub IsHalfMade : ℕ → Connection → Type 0
IsHalfMade e d =
    (d.state ≡ fatal_error)
    × (d.endpoint ≡ some e)
    × (d.tase2client ≡ none)
    × (destroyed_clients (disconnect d).calls ≡ destroyed_clients d.calls ++ none ∷ [])

half_made :
    (e : ℕ) (d : Connection)
    → d.state ≡ fatal_error
    → d.endpoint ≡ some e
    → d.tase2client ≡ none
    → IsHalfMade e d
half_made e d s held gone = (
  s,
  held,
  gone,
  disconnect-destroyed_clients d e held ∙ ap (λ o. destroyed_clients d.calls ++ o ∷ []) gone,
)

-- With OSI parameters and no TLS, a connection that rests, and for which the library creates an
-- endpoint and no client, goes over to the state for a fatal error and keeps the endpoint; and when
-- the monitoring thread then disconnects it, cleanUp hands the null client to Tase2_Client_destroy,
-- since it tests another pointer.
pub idle_round-IsHalfMade :
    (l : Library) (config : Config) (c : Connection) (p : OsiParameters) (e : ℕ)
    → c.osi_parameters ≡ some p
    → c.use_tls ≡ false
    → l.endpoint_handle ≡ some e
    → l.client_handle ≡ none
    → RunsTo (IsHalfMade e) (idle_round l config c)
unfolding idle_round prepare_connection create_endpoint
idle_round-IsHalfMade l config c p e osi plain made failed =
    rw (plain, made, osi, failed) (half_made e _ refl made refl)
