-- ===== src/Client/Monitor.antt =====
-- The life of a TASE2Client (src/tase2_client.cpp): start, stop, prepareConnections and the
-- monitoring thread. What a connection's thread makes of the connection while the monitoring
-- thread waits for it is an argument.
pub mod Failover
pub mod Waiting
use fledge_south_tase.Common.{
  ℕ, suc, ◌&&◌, ◌||◌, not, Bool, true, false, List, [], ◌∷◌, map, Option, none, some, get_elem?,
  if◌then◌else◌,
}
use fledge_south_tase.Config.{Config, RedGroup}
use fledge_south_tase.Connection.{Connection, new_connection, disconnected}
use fledge_south_tase.Connection.Thread.{disconnect, set_connect, start, stop}

-- The members that its life changes. `active` is the position of m_active_connection.
pub record Client : Type 0 where
  pub config : Config
  pub connections : List Connection
  pub active : Option ℕ
  pub started : Bool

abbrev pub new_client : Config → Client
new_client config = record { config = config; connections = []; active = none; started = false }

abbrev pub make_connection : RedGroup → Connection
make_connection g =
    new_connection g.ip_addr g.tcp_port g.tls
      (if g.is_osi_parameters_enabled then some g.osi_parameters else none)

unfoldable pub prepare_connections : Config → List Connection
prepare_connections config = map make_connection config.connections

-- start, and what its thread does before the loop.
unfoldable pub start_client : Client → Client
start_client c =
    if c.started
    then c
    else record c { connections = map start (prepare_connections c.config); started = true }

-- stop waits for the thread, which deletes its connections behind the loop.
unfoldable pub stop_client : Client → Client
stop_client c = if c.started then record c { connections = []; started = false } else c

-- The loop over the connections, from the i-th on: the first that is connected before the timeout
-- is the active one, and those before it are disconnected again.
unfoldable pub try_connections :
    (ℕ → Connection → Connection) → ℕ → List Connection → List Connection × Option ℕ
try_connections wait i [] = ([], none)
try_connections wait i (c ∷ cs) =
    let tried = wait i (set_connect c) in
    let (rest, found) = try_connections wait (suc i) cs in
    if tried.is_connected then (tried ∷ cs, some i) else (disconnect tried ∷ rest, found)

abbrev pub is_lost : List Connection → Option ℕ → Bool
is_lost cs none = true
is_lost cs (some i) = elim (get_elem? cs i) [ none ↦ true | some c ↦ disconnected c ]

-- With no connection the loop's body does not run, and the pointer stays.
abbrev pub fail_over : (ℕ → Connection → Connection) → Client → List Connection → Client
fail_over wait c [] = c
fail_over wait c (d ∷ ds) =
    let (tried, found) = try_connections wait 0 (d ∷ ds) in
    record c { connections = tried; active = found }

-- One round of the monitoring thread's loop.
unfoldable pub monitor_round : (ℕ → Connection → Connection) → Client → Client
monitor_round wait c =
    if c.started && is_lost c.connections c.active then fail_over wait c c.connections else c
