-- ===== src/System/Launch.antt =====
-- The system that TASE2Client::start sets going, up to any later moment (src/tase2_client.cpp,
-- src/tase2_client_connection.cpp).
use fledge_south_tase.Common.{
  ℕ, zero, suc, false, List, [], ◌∷◌, map, length, none, some, ◌≡◌, refl,
}
use fledge_south_tase.Common.Int.{pos}
use fledge_south_tase.Config.{Config, RedGroup}
use fledge_south_tase.Connection.{Connection, new_connection, disconnected}
use fledge_south_tase.Connection.Thread.{start}
use fledge_south_tase.Client.Monitor.{
  new_client, start_client, make_connection, prepare_connections,
}
use fledge_south_tase.Client.Monitor.Failover.{IsOff}
use fledge_south_tase.System.{System, watching, Step, Reach}
use fledge_south_tase.System.Exclusion.{HasStarted, only_active_from}
use fledge_south_tase.System.Arbiter.{Change, IsHeldBy, holder, Change-from}

-- The connection at a position. Behind the last one stands one that no thread looks at.
abbrev pub connection_at : List Connection → ℕ → Connection
connection_at [] i = new_connection "" (pos 0) false none
connection_at (c ∷ cs) zero = c
connection_at (c ∷ cs) (suc i) = connection_at cs i

-- What start leaves for the threads: nobody has been asked to connect.
abbrev pub system_of : List Connection → System
system_of cs = record {
  count = length cs;
  connections = connection_at cs;
  active = none;
  monitor = watching;
}

unfoldable pub launch : Config → System
launch config = system_of (start_client (new_client config)).connections

pub started-IsOff :
    (gs : List RedGroup) (i : ℕ) → IsOff (connection_at (map start (map make_connection gs)) i)
started-IsOff [] i = record { asked = refl; connected = refl; connecting = refl; state = refl }
started-IsOff (g ∷ gs) zero = record {
  asked = refl;
  connected = refl;
  connecting = refl;
  state = refl;
}
started-IsOff (g ∷ gs) (suc i) = started-IsOff gs i

launch-HasStarted : (config : Config) → HasStarted (launch config)
unfolding launch start_client prepare_connections
launch-HasStarted config = (refl, refl, started-IsOff config.connections)

-- From the start of a client on, with any configuration, however the rounds of the connections and
-- the monitoring thread interleave and whatever the library and the clock answer: a connection that
-- is connected or connecting is the active one. So there is one at most.
pub launch-only_active :
    (config : Config) {t : System} (i : ℕ)
    → Reach config (launch config) t
    → disconnected (t.connections i) ≡ false
    → t.active ≡ some i
launch-only_active config i = only_active_from config i (launch-HasStarted config)

-- From the start of a client on, in every state that the two kinds of threads reach, at most one
-- connection is asked to connect, the holder of the line to the peer, which is the active one; and
-- every step of theirs is a step of the arbiter (`Change`) or none: the line is granted only when no
-- connection holds it, and a connection that holds it gives it up, so that it is not asked any more,
-- before another one is asked.
pub launch-Change :
    (config : Config) {t u : System}
    → Reach config (launch config) t
    → Step config t u
    → Change (holder t) (holder u)
      × IsHeldBy (holder t) t.connections
      × IsHeldBy (holder u) u.connections
launch-Change config = Change-from config (launch-HasStarted config)
