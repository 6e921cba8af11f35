-- ===== src/Connection/Thread/Reachable.antt =====
-- The states that a connection can reach (src/tase2_client_connection.cpp), by rounds of its own
-- thread and by Connect and Disconnect of the monitoring thread between them.
use fledge_south_tase.Common.{
  String, Bool, true, false, Option, ◌≡◌, refl, ap, subst, ◌∙◌, arith, if◌then◌else◌,
}
use fledge_south_tase.Common.Int.{ℤ}
use fledge_south_tase.Config.{Config, OsiParameters}
use fledge_south_tase.Connection.{
  Connection, Library, ConState, idle, connecting, connected, closed, wait_for_reconnect,
  fatal_error, new_connection,
}
use fledge_south_tase.Connection.Prepare.{Prepared, prepared, null_dereference}
use fledge_south_tase.Connection.Thread.{
  begun, connect_client-begun, running-injective, running, clean_up, disconnect, set_connect,
  execute_periodic_tasks, start_connecting, idle_round, connecting_round, connected_round, dispatch,
  con_thread_round, start,
}

module _ (config : Config) where
  -- One step of the connection, by its own thread or by the monitoring thread.
  pub data Step (c d : Connection) : Type 0 where
    rounds : (l : Library) → con_thread_round l config c ≡ running d → Step c d
    connects : d ≡ set_connect c → Step c d
    disconnects : d ≡ disconnect c → Step c d
    starts : d ≡ start c → Step c d

  pub data Reach (c : Connection) : Connection → Type 0 where
    here : Reach c c
    next : {d e : Connection} → Reach c d → Step d e → Reach c e

abbrev pub is_used : ConState → Bool
is_used closed = false
is_used wait_for_reconnect = false
is_used _ = true

-- The state and the flags that the monitoring thread reads.
pub record Agrees (c : Connection) : Type 0 where
  pub used : is_used c.state ≡ true
  pub trying : c.state ≡ connecting → c.is_connecting ≡ true
  pub online : c.state ≡ connected → (c.is_connected ≡ true) × (c.is_connecting ≡ false)

pub new_connection-Agrees :
    (ip : String) (port : ℤ) (tls : Bool) (osi : Option OsiParameters)
    → Agrees (new_connection ip port tls osi)
new_connection-Agrees ip port tls osi = record { used = refl; trying = λ e. cc; online = λ e. cc }

begun-Agrees : (l : Library) (c : Connection) → Agrees (begun l c)
begun-Agrees l c = ground arith

start_connecting-Agrees :
    (l : Library) (p : Prepared) (d : Connection) → start_connecting l p ≡ running d → Agrees d
start_connecting-Agrees l (prepared c true) d e =
    subst Agrees (connect_client-begun l c d c.endpoint c.tase2client e) (begun-Agrees l c)
start_connecting-Agrees l (prepared c false) d e = ground arith
start_connecting-Agrees l (null_dereference c) d e = cc

connecting_round-Agrees :
    (l : Library) (config : Config) (c : Connection)
    → c.state ≡ connecting
    → Agrees c
    → Agrees (connecting_round l config c)
unfolding connecting_round disconnect
connecting_round-Agrees l config c e a = ground arith

connected_round-Agrees :
    (l : Library) (config : Config) (c : Connection)
    → Agrees c
    → Agrees (connected_round l config c)
unfolding connected_round clean_up execute_periodic_tasks
connected_round-Agrees l config c a = ground arith

dispatch-Agrees :
    (s : ConState) (l : Library) (config : Config) (c d : Connection)
    → c.state ≡ s
    → Agrees c
    → dispatch s l config c ≡ running d
    → Agrees d
unfolding dispatch idle_round
dispatch-Agrees idle l config c d e a h = start_connecting-Agrees l _ d h
dispatch-Agrees connecting l config c d e a h =
    subst Agrees (running-injective h) (connecting_round-Agrees l config c e a)
dispatch-Agrees connected l config c d e a h =
    subst Agrees (running-injective h) (connected_round-Agrees l config c a)
dispatch-Agrees closed l config c d e a h = absurd (cc (ap is_used e ∙ refl, a.used))
dispatch-Agrees wait_for_reconnect l config c d e a h = absurd (cc (ap is_used e ∙ refl, a.used))
dispatch-Agrees fatal_error l config c d e a h = subst Agrees (running-injective h) a

con_thread_round-Agrees :
    (l : Library) (config : Config) (c d : Connection)
    → Agrees c
    → con_thread_round l config c ≡ running d
    → Agrees d
unfolding con_thread_round
con_thread_round-Agrees l config c d a h = go c.connect h
  where
    go : (b : Bool) → (if b then dispatch c.state l config c else running c) ≡ running d → Agrees d
    go true e = dispatch-Agrees c.state l config c d refl a e
    go false e = subst Agrees (running-injective e) a

Step-Agrees : (config : Config) {c d : Connection} → Step config c d → Agrees c → Agrees d
unfolding disconnect clean_up
Step-Agrees config {c} {d} (rounds l h) a = con_thread_round-Agrees l config c d a h
Step-Agrees config (connects e) a =
    rw e (record { used = a.used; trying = a.trying; online = a.online })
Step-Agrees config (disconnects e) a =
    rw e (record { used = refl; trying = λ p. cc; online = λ p. cc })
Step-Agrees config {c} (starts e) a = rw e (started c a)
  where
    started : (c : Connection) → Agrees c → Agrees (start c)
    started c a = ground arith

-- Whatever the library answers, and however the monitoring thread intervenes between the rounds,
-- a connection is never in the states for a closed connection and for a pending reconnection,
-- which the code handles; while it connects its flag says so, and once it is connected the two
-- flags say that and nothing else.
pub Reach-Agrees : (config : Config) {c d : Connection} → Agrees c → Reach config c d → Agrees d
Reach-Agrees config a here = a
Reach-Agrees config a (next r s) = Step-Agrees config s (Reach-Agrees config a r)
