-- ===== src/Connection/Thread/Survival.antt =====
-- Which connections' threads never connect with null pointers (src/tase2_client_connection.cpp).
use fledge_south_tase.Common.{
  ℕ, Bool, true, false, Option, none, some, ltb, leb, ◌≡◌, refl, ap, ◌∙◌, arith, if◌then◌else◌,
}
use fledge_south_tase.Config.{Config, OsiParameters}
use fledge_south_tase.Connection.{
  Connection, Library, ConState, idle, connecting, connected, closed, wait_for_reconnect,
  fatal_error,
}
use fledge_south_tase.Connection.Prepare.{
  is_some, Prepared, prepared, null_dereference, prepare_connection, create_endpoint, finish,
  with_osi,
}
use fledge_south_tase.Connection.Thread.{
  connect_client, Round, running, crashed, clean_up, disconnect, without_endpoint, start_connecting,
  idle_round, connecting_round, connected_round, reconnect_round, execute_periodic_tasks, dispatch,
  con_thread_round,
}
use fledge_south_tase.Connection.Thread.Handles.Alike.{configured-IsAlike}
use fledge_south_tase.Connection.Thread.Serving.{HoldsIf, finish-HoldsIf}
use fledge_south_tase.Connection.Thread.Failover.{create_endpoint-SameFlags}
use fledge_south_tase.Connection.Thread.Progress.{RunsTo}

abbrev pub is_crash : Round → Bool
is_crash (running c) = false
is_crash (crashed c) = true

abbrev is_set : Option OsiParameters → Bool
is_set none = false
is_set (some p) = true

-- The pointer to the OSI parameters is not null.
abbrev pub HasOsi : Connection → Type 0
HasOsi c = is_set c.osi_parameters ≡ true

abbrev IsPrepared : Prepared → Type 0
IsPrepared (prepared c ok) = HasOsi c
IsPrepared (null_dereference c) = ⊥

with_osi-IsPrepared :
    (l : Library) (c : Connection) (e : ℕ) (o : Option OsiParameters)
    → c.osi_parameters ≡ o
    → is_set o ≡ true
    → IsPrepared (with_osi l c e o)
with_osi-IsPrepared l c e none same h = cc
with_osi-IsPrepared l c e (some p) same h = ap is_set same

finish-IsPrepared :
    (l : Library) (c : Connection) (o : Option ℕ) → HasOsi c → IsPrepared (finish l c o)
finish-IsPrepared l c none h = h
finish-IsPrepared l c (some e) h = with_osi-IsPrepared l c e c.osi_parameters refl h

-- Neither handle is null, so the connect goes through.
connect_client-HasOsi :
    (l : Library) (c : Connection) (e h : Option ℕ)
    → HasOsi c
    → is_some e ≡ true
    → is_some h ≡ true
    → RunsTo HasOsi (connect_client l c e h)
connect_client-HasOsi l c none h osi p q = cc
connect_client-HasOsi l c (some e) none osi p q = cc
connect_client-HasOsi l c (some e) (some h) osi p q = osi

start_connecting-HasOsi :
    (l : Library) (p : Prepared) → IsPrepared p → HoldsIf p → RunsTo HasOsi (start_connecting l p)
start_connecting-HasOsi l (prepared c true) h both =
    connect_client-HasOsi l c c.endpoint c.tase2client h both.endpoint both.client
start_connecting-HasOsi l (prepared c false) h both = h
start_connecting-HasOsi l (null_dereference c) h both = h

idle_round-HasOsi :
    (l : Library) (config : Config) (c : Connection)
    → HasOsi c
    → RunsTo HasOsi (idle_round l config c)
unfolding idle_round prepare_connection
idle_round-HasOsi l config c h =
    start_connecting-HasOsi l _
      (finish-IsPrepared l (create_endpoint l config (without_endpoint c)) _
        (ap is_set (create_endpoint-SameFlags l config (without_endpoint c)).2 ∙ h))
      (finish-HoldsIf l (create_endpoint l config (without_endpoint c)) _ refl)

connecting_round-HasOsi :
    (l : Library) (config : Config) (c : Connection)
    → HasOsi c
    → HasOsi (connecting_round l config c)
unfolding connecting_round disconnect clean_up
connecting_round-HasOsi l config c h =
    go l.endpoint_connected (ltb c.delay_expiration_time l.now) _
      (ap is_set (configured-IsAlike l config.datasets config.ds_transfer_sets c).osi ∙ h)
  where
    go :
        (b late : Bool) (d : Connection)
        → HasOsi d
        → HasOsi (if b then d else if late then disconnect c else c)
    go true late d e = e
    go false true d e = h
    go false false d e = h

connected_round-HasOsi :
    (l : Library) (config : Config) (c : Connection)
    → HasOsi c
    → HasOsi (connected_round l config c)
unfolding connected_round clean_up execute_periodic_tasks
connected_round-HasOsi l config c h = ground arith

reconnect_round-HasOsi : (l : Library) (c : Connection) → HasOsi c → HasOsi (reconnect_round l c)
unfolding reconnect_round
reconnect_round-HasOsi l c h = go (leb c.delay_expiration_time l.now)
  where
    go : (b : Bool) → HasOsi (if b then record c { state = idle } else c)
    go true = h
    go false = h

dispatch-HasOsi :
    (s : ConState) (l : Library) (config : Config) (c : Connection)
    → HasOsi c
    → RunsTo HasOsi (dispatch s l config c)
unfolding dispatch
dispatch-HasOsi idle l config c h = idle_round-HasOsi l config c h
dispatch-HasOsi connecting l config c h = connecting_round-HasOsi l config c h
dispatch-HasOsi connected l config c h = connected_round-HasOsi l config c h
dispatch-HasOsi closed l config c h = h
dispatch-HasOsi wait_for_reconnect l config c h = reconnect_round-HasOsi l c h
dispatch-HasOsi fatal_error l config c h = h

-- A round of a connection with OSI parameters runs to its end, and leaves them.
pub con_thread_round-HasOsi :
    (l : Library) (config : Config) (c : Connection)
    → HasOsi c
    → RunsTo HasOsi (con_thread_round l config c)
unfolding con_thread_round
con_thread_round-HasOsi l config c h = go c.connect
  where
    go : (b : Bool) → RunsTo HasOsi (if b then dispatch c.state l config c else running c)
    go true = dispatch-HasOsi c.state l config c h
    go false = h
