-- ===== src/System/Projection.antt =====
-- What each connection of a client sees of the threads (src/tase2_client.cpp,
-- src/tase2_client_connection.cpp).
use fledge_south_tase.Common.{
  ℕ, zero, suc, String, Bool, true, false, List, [], ◌∷◌, map, Option, none, some, update,
  update-each, ltb, ◌≡◌, refl, if◌then◌else◌,
}
use fledge_south_tase.Common.Int.{ℤ, pos}
use fledge_south_tase.Config.{Config, RedGroup, OsiParameters}
use fledge_south_tase.Connection.{
  Connection, ConState, idle, connecting, connected, closed, wait_for_reconnect, fatal_error,
  disconnected, new_connection,
}
use fledge_south_tase.Connection.Thread.{start}
use fledge_south_tase.Connection.Thread.Reachable.{
  rounds, connects, disconnects, starts, Agrees, Reach-Agrees, new_connection-Agrees,
}
use fledge_south_tase.Connection.Thread.Reachable as Thread
use fledge_south_tase.Connection.Thread.Handles.{InOrder, events}
use fledge_south_tase.Connection.Thread.Handles.History.{Reach-InOrder}
use fledge_south_tase.Connection.Thread.Serving.{is_serving, HoldsBoth, Reach-HoldsBoth}
use fledge_south_tase.Client.Monitor.{start_client, make_connection, prepare_connections}
use fledge_south_tase.System.{
  System, Monitor, watching, next, waiting, is_lost, is_over, timeout, ask, drop_connection,
  monitor_step, Step, turn, monitors, Reach, here, later,
}
use fledge_south_tase.System.Launch.{connection_at, launch, launch-only_active}

module _ (config : Config) where
  -- Each connection of the second system is reached from the one at its place in the first.
  abbrev Follows : (ℕ → Connection) → (ℕ → Connection) → Type 0
  Follows f h = (j : ℕ) → Thread.Reach config (f j) (h j)

  stays : (f : ℕ → Connection) → Follows f f
  stays f j = Thread.Reach.here

  -- One connection takes a step.
  update-Follows :
      (f : ℕ → Connection) (i : ℕ) (d : Connection)
      → Thread.Step config (f i) d
      → Follows f (update f i d)
  update-Follows f i d s =
      update-each (λ j c. Thread.Reach config (f j) c) f i d (Thread.Reach.next Thread.Reach.here s)
        (λ j ne. Thread.Reach.here)

  monitor_step-Follows :
      (m : Monitor) (now : ℕ) (s : System)
      → Follows s.connections (monitor_step m config now s).connections
  unfolding monitor_step
  monitor_step-Follows watching now s = go (is_lost s)
    where
      go :
          (b : Bool)
          → Follows s.connections (if b then record s { monitor = next 0 } else s).connections
      go true = stays s.connections
      go false = stays s.connections
  monitor_step-Follows (next i) now s = go (ltb i s.count)
    where
      go :
          (b : Bool)
          → Follows s.connections
              (if b then ask i now s else record s { monitor = watching }).connections
      go true = update-Follows s.connections i _ (connects refl)
      go false = stays s.connections
  monitor_step-Follows (waiting i since) now s =
      go (s.connections i).is_connected (is_over (timeout config) since now)
    where
      go :
          (up late : Bool)
          → Follows s.connections
              (if up
                then record s { monitor = watching }
                else if late
                then drop_connection i s
                else s).connections
      go true late = stays s.connections
      go false true = update-Follows s.connections i _ (disconnects refl)
      go false false = stays s.connections

  Step-Follows : {s t : System} → Step config s t → Follows s.connections t.connections
  Step-Follows {s} (turn i l d small ran) = update-Follows s.connections i d (rounds l ran)
  Step-Follows {s} (monitors now) = monitor_step-Follows s.monitor now s

  Reach-trans :
      {c d e : Connection}
      → Thread.Reach config c d
      → Thread.Reach config d e
      → Thread.Reach config c e
  Reach-trans r Thread.Reach.here = r
  Reach-trans r (Thread.Reach.next r' k) = Thread.Reach.next (Reach-trans r r') k

  Reach-Follows : {s t : System} → Reach config s t → Follows s.connections t.connections
  Reach-Follows here j = Thread.Reach.here
  Reach-Follows (later r k) j = Reach-trans (Reach-Follows r j) (Step-Follows k j)

  -- start's connections, each one started or left alone.
  started-Follows :
      (cs : List Connection) → Follows (connection_at cs) (connection_at (map start cs))
  started-Follows [] i = Thread.Reach.here
  started-Follows (c ∷ cs) zero = Thread.Reach.next Thread.Reach.here (starts refl)
  started-Follows (c ∷ cs) (suc i) = started-Follows cs i

  -- From the start of a client on, however the threads interleave, each connection goes only through
  -- states that it reaches from its constructor by the steps of its own: rounds of its thread, and
  -- calls of Connect, Disconnect and Start.
  pub launch-Follows :
      {t : System}
      → Reach config (launch config) t
      → (i : ℕ)
      → Thread.Reach config (connection_at (prepare_connections config) i) (t.connections i)
  unfolding launch start_client prepare_connections
  launch-Follows r i =
      Reach-trans (started-Follows (prepare_connections config) i) (Reach-Follows r i)

-- What holds of every new connection holds of those of a configuration.
prepared_new :
    (P : Connection → Type 0)
    → ((ip : String) (port : ℤ) (tls : Bool) (osi : Option OsiParameters)
        → P (new_connection ip port tls osi))
    → (gs : List RedGroup) (i : ℕ) → P (connection_at (map make_connection gs) i)
prepared_new P h [] i = h "" (pos 0) false none
prepared_new P h (g ∷ gs) zero = h _ _ _ _
prepared_new P h (g ∷ gs) (suc i) = prepared_new P h gs i

-- From the start of a client on, however the threads interleave and whatever the library answers,
-- each connection's calls for endpoints and clients are in order: Tase2_Client_createEx comes right
-- after a Tase2_Endpoint_create, for an endpoint that the connection then holds and while it holds
-- no other; an endpoint that is held is destroyed once, right behind its client, before
-- Tase2_Endpoint_create is called again; and none is destroyed that is not held. A round of a thread
-- is taken as a whole.
pub launch-InOrder :
    (config : Config) {t : System} (i : ℕ)
    → Reach config (launch config) t
    → InOrder (events (t.connections i).calls) (t.connections i).endpoint
unfolding prepare_connections
launch-InOrder config {t} i r =
    prepared_new
      (λ c.
        Thread.Reach config c (t.connections i)
        → InOrder (events (t.connections i).calls) (t.connections i).endpoint)
      (λ ip port tls osi. Reach-InOrder config ip port tls osi) config.connections i
      (launch-Follows config r i)

launch-Serves :
    (config : Config) {t : System} (i : ℕ)
    → Reach config (launch config) t
    → is_serving (t.connections i).state ≡ true
    → HoldsBoth (t.connections i)
unfolding prepare_connections
launch-Serves config {t} i r =
    prepared_new
      (λ c.
        Thread.Reach config c (t.connections i)
        → is_serving (t.connections i).state ≡ true
        → HoldsBoth (t.connections i))
      (λ ip port tls osi. Reach-HoldsBoth config ip port tls osi) config.connections i
      (launch-Follows config r i)

launch-Agrees :
    (config : Config) {t : System} (i : ℕ)
    → Reach config (launch config) t
    → Agrees (t.connections i)
unfolding prepare_connections
launch-Agrees config {t} i r =
    prepared_new (λ c. Thread.Reach config c (t.connections i) → Agrees (t.connections i))
      (λ ip port tls osi. Reach-Agrees config (new_connection-Agrees ip port tls osi))
      config.connections i (launch-Follows config r i)

-- A connection in those states does not count as disconnected.
serving_disconnected :
    (c : Connection) → Agrees c → is_serving c.state ≡ true → disconnected c ≡ false
serving_disconnected c a s = go c.state refl s
  where
    go : (k : ConState) → c.state ≡ k → is_serving k ≡ true → disconnected c ≡ false
    go connecting e s = rw (a.trying e) refl
    go connected e s = let (on, off) = a.online e in rw (off, on) refl
    go idle e s = cc
    go closed e s = cc
    go wait_for_reconnect e s = cc
    go fatal_error e s = cc

-- From the start of a client on, however the threads interleave and whatever the library answers: a
-- connection in one of the two states in which its thread calls functions of the endpoint and of
-- the client, and polls, has both, neither is null, and it is itself the active connection, through
-- which the polled values are read. A round of a thread is taken as a whole.
pub launch-HoldsBoth :
    (config : Config) {t : System} (i : ℕ)
    → Reach config (launch config) t
    → is_serving (t.connections i).state ≡ true
    → HoldsBoth (t.connections i) × (t.active ≡ some i)
launch-HoldsBoth config {t} i r s = (
  launch-Serves config i r s,
  launch-only_active config i r
      (serving_disconnected (t.connections i) (launch-Agrees config i r) s),
)
