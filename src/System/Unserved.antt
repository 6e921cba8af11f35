-- ===== src/System/Unserved.antt =====
-- When a command meets a connection that has no client (src/tase2_client.cpp,
-- src/tase2_client_connection.cpp).
use fledge_south_tase.Common.{
  ℕ, List, map, get_elem?, none, some, update_self, ◌≡◌, refl, ap, ◌∙◌, arith,
}
use fledge_south_tase.Config.{Config, RedGroup}
use fledge_south_tase.Connection.{Connection}
use fledge_south_tase.Connection.Thread.{set_connect, start}
use fledge_south_tase.Client.Monitor.{start_client, prepare_connections, make_connection}
use fledge_south_tase.System.{System, ask, Reach, later}
use fledge_south_tase.System.Launch.{started-IsOff, launch}
use fledge_south_tase.System.Progress.{asks, passes_to, started_at}

-- From the start of a client on, the threads can reach, for each connection of the configuration, a
-- state in which it is the active one, the one that the client's commands go to, and in which its
-- thread has made no client yet.
pub launch-without_client :
    (config : Config) (i : ℕ) (g : RedGroup)
    → get_elem? config.connections i ≡ some g
    → (t : System) × Reach config (launch config) t
      × (t.active ≡ some i)
      × ((t.connections i).tase2client ≡ none)
unfolding launch start_client prepare_connections
launch-without_client config i g at =
    let cs : List Connection = map start (map make_connection config.connections) in
    let (small, same) = started_at config.connections i g at in
    let (t, r, h) =
      passes_to config cs (λ j. (started-IsOff config.connections j).connected) i (omega arith) in
    (
      ask i 0 t,
      later r (asks config 0 i t h.monitor (omega (arith, h.count))),
      refl,
      ap (λ c. c.tase2client) (update_self t.connections i (set_connect (t.connections i)))
          ∙ ap (λ c. c.tase2client) (h.others i (omega arith) ∙ same),
    )
