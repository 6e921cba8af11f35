-- ===== src/System/Survival.antt =====
-- Which clients' threads never connect with null pointers (src/tase2_client.cpp,
-- src/tase2_client_connection.cpp).
use fledge_south_tase.Common.{
  ℕ, zero, suc, ◌<◌, Bool, true, false, List, [], ◌∷◌, map, length, update, update-each, ltb, ◌≡◌,
  refl, subst, arith, if◌then◌else◌, All,
}
use fledge_south_tase.Config.{Config, RedGroup}
use fledge_south_tase.Connection.{Connection, Library}
use fledge_south_tase.Connection.Thread.{
  Round, running, crashed, con_thread_round, clean_up, disconnect, set_connect, start,
}
use fledge_south_tase.Connection.Thread.Progress.{RunsTo}
use fledge_south_tase.Connection.Thread.Survival.{is_crash, HasOsi, con_thread_round-HasOsi}
use fledge_south_tase.Client.Monitor.{start_client, prepare_connections, make_connection}
use fledge_south_tase.System.{
  System, Monitor, watching, next, waiting, is_lost, is_over, timeout, ask, drop_connection,
  monitor_step, Step, turn, monitors, Reach, here, later,
}
use fledge_south_tase.System.Launch.{connection_at, launch}

-- Every connection of the client has OSI parameters.
abbrev EachHasOsi : System → Type 0
EachHasOsi s = (j : ℕ) → j < s.count → HasOsi (s.connections j)

changed_at :
    (s : System) (i : ℕ) (c : Connection)
    → EachHasOsi s
    → (i < s.count → HasOsi c)
    → (j : ℕ) → j < s.count
    → HasOsi (update s.connections i c j)
changed_at s i c each h =
    update-each (λ j c. j < s.count → HasOsi c) s.connections i c h (λ j ne. each j)

disconnect-HasOsi : (c : Connection) → HasOsi c → HasOsi (disconnect c)
unfolding disconnect clean_up
disconnect-HasOsi c h = h

monitor_step-EachHasOsi :
    (m : Monitor) (config : Config) (now : ℕ) (s : System)
    → EachHasOsi s
    → EachHasOsi (monitor_step m config now s)
unfolding monitor_step
monitor_step-EachHasOsi watching config now s h = go (is_lost s)
  where
    go : (b : Bool) → EachHasOsi (if b then record s { monitor = next 0 } else s)
    go true = h
    go false = h
monitor_step-EachHasOsi (next i) config now s h = go (ltb i s.count)
  where
    go : (b : Bool) → EachHasOsi (if b then ask i now s else record s { monitor = watching })
    go true = changed_at s i (set_connect (s.connections i)) h (h i)
    go false = h
monitor_step-EachHasOsi (waiting i start) config now s h =
    go (s.connections i).is_connected (is_over (timeout config) start now)
  where
    go :
        (up late : Bool)
        → EachHasOsi (
            if up then record s { monitor = watching } else if late then drop_connection i s else s)
    go true late = h
    go false true =
        changed_at s i (disconnect (s.connections i)) h
          (λ small. disconnect-HasOsi (s.connections i) (h i small))
    go false false = h

Step-EachHasOsi : (config : Config) {s t : System} → Step config s t → EachHasOsi s → EachHasOsi t
Step-EachHasOsi config {s} (turn i l d small ran) h = changed_at s i d h (λ small.
    subst (RunsTo HasOsi) ran (con_thread_round-HasOsi l config (s.connections i) (h i small)))
Step-EachHasOsi config {s} (monitors now) h = monitor_step-EachHasOsi s.monitor config now s h

Reach-EachHasOsi : (config : Config) {s t : System} → EachHasOsi s → Reach config s t → EachHasOsi t
Reach-EachHasOsi config h here = h
Reach-EachHasOsi config h (later r k) = Step-EachHasOsi config k (Reach-EachHasOsi config h r)

started-HasOsi :
    (gs : List RedGroup)
    → All (λ g. g.is_osi_parameters_enabled ≡ true) gs
    → (j : ℕ) → j < length (map start (map make_connection gs))
    → HasOsi (connection_at (map start (map make_connection gs)) j)
started-HasOsi [] h j small = absurd (omega arith)
started-HasOsi (g ∷ gs) (e, h) zero small = rw e refl
started-HasOsi (g ∷ gs) (e, h) (suc j) small = started-HasOsi gs h j (omega arith)

launch-EachHasOsi :
    (config : Config)
    → All (λ g. g.is_osi_parameters_enabled ≡ true) config.connections
    → EachHasOsi (launch config)
unfolding launch start_client prepare_connections
launch-EachHasOsi config h = started-HasOsi config.connections h

no_crash : (r : Round) → RunsTo HasOsi r → is_crash r ≡ false
no_crash (running c) h = refl
no_crash (crashed c) h = absurd h

-- From the start of a client on whose connections all have an OSI section, however the threads
-- interleave and whatever the library and the clock answer, with TLS and without: no round of a
-- connection's thread dereferences a null pointer to the OSI parameters, and none sets the parameters
-- of a null endpoint or connects a null client, since it goes on to that only with the endpoint and
-- the client that prepareConnection has just made. A round is taken as a whole, and what cleanUp does
-- with a client that could not be made is not part of the statement.
pub launch-con_thread_round :
    (config : Config) {t : System} (i : ℕ) (l : Library)
    → All (λ g. g.is_osi_parameters_enabled ≡ true) config.connections
    → Reach config (launch config) t
    → i < t.count
    → is_crash (con_thread_round l config (t.connections i)) ≡ false
launch-con_thread_round config {t} i l h r small =
    no_crash (con_thread_round l config (t.connections i)) (
      con_thread_round-HasOsi l config (t.connections i)
        (Reach-EachHasOsi config (launch-EachHasOsi config h) r i small))
