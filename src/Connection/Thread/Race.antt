-- ===== src/Connection/Thread/Race.antt =====
-- A connection that is disconnected in the middle of a round: Disconnect takes no lock, so it can
-- come between prepareConnection and the block in which the thread goes over to connecting
-- (src/tase2_client_connection.cpp).
use fledge_south_tase.Common.{subst, ℕ, Bool, sym, ap, ◌∙◌, true, Option, none, some, ◌≡◌, refl}
use fledge_south_tase.Config.{Config, OsiParameters}
use fledge_south_tase.Connection.{Connection, Library}
use fledge_south_tase.Connection.Prepare.{
  is_some, prepared, prepare_connection, create_endpoint, finish, with_osi,
}
use fledge_south_tase.Connection.Thread.{
  begun, connect_client, crashed, kept_client, running, clean_up, disconnect, without_endpoint,
  start_connecting,
}
use fledge_south_tase.Connection.Thread.Serving.{HoldsBoth, HoldsIf, finish-HoldsIf}

same_prepared : {c d : Connection} {b b' : Bool} → prepared c b ≡ prepared d b' → c ≡ d
same_prepared h = cc

-- A connection that was prepared has an endpoint, so cleaning up destroys its client.
with_osi-kept_client :
    (l : Library) (c d : Connection) (e : ℕ) (p : Option OsiParameters)
    → c.endpoint ≡ some e
    → with_osi l c e p ≡ prepared d true
    → kept_client d.endpoint d.tase2client ≡ none
with_osi-kept_client l c d e none has h = cc
with_osi-kept_client l c d e (some p) has h =
    ap (λ c. kept_client c.endpoint c.tase2client) (sym (same_prepared h)) ∙ rw has refl

finish-kept_client :
    (l : Library) (c d : Connection) (o : Option ℕ)
    → c.endpoint ≡ o
    → finish l c o ≡ prepared d true
    → kept_client d.endpoint d.tase2client ≡ none
finish-kept_client l c d none has h = cc
finish-kept_client l c d (some e) has h = with_osi-kept_client l c d e c.osi_parameters has h

prepare_connection-kept_client :
    (l : Library) (config : Config) (c d : Connection)
    → prepare_connection l config c ≡ prepared d true
    → kept_client d.endpoint d.tase2client ≡ none
unfolding prepare_connection
prepare_connection-kept_client l config c d h =
    finish-kept_client l (create_endpoint l config c) d _ refl h

-- Where prepareConnection has succeeded, the rest of its round connects the client. If Disconnect
-- comes in between, the rest of the same round hands null pointers to libtase2 instead: it sets the
-- OSI parameters of an endpoint and connects a client that are both null by then.
pub start_connecting-disconnect :
    (config : Config) (l : Library) (c d : Connection)
    → prepare_connection l config (without_endpoint c) ≡ prepared d true
    → (start_connecting l (prepared d true) ≡ running (begun l d))
      × (start_connecting l (prepared (disconnect d) true) ≡ crashed (disconnect d))
      × ((disconnect d).endpoint ≡ none)
      × ((disconnect d).tase2client ≡ none)
unfolding disconnect clean_up prepare_connection
start_connecting-disconnect config l c d ok = (
  connects l d d.endpoint d.tase2client both.endpoint both.client,
  refl,
  refl,
  prepare_connection-kept_client l config (without_endpoint c) d ok,
)
  where
    both : HoldsBoth d
    both =
        subst HoldsIf ok (finish-HoldsIf l (create_endpoint l config (without_endpoint c)) _ refl)

    connects :
        (l : Library) (d : Connection) (e h : Option ℕ)
        → is_some e ≡ true
        → is_some h ≡ true
        → connect_client l d e h ≡ running (begun l d)
    connects l d none h p q = cc
    connects l d (some e) none p q = cc
    connects l d (some e) (some h) p q = refl
