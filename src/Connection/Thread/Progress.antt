-- ===== src/Connection/Thread/Progress.antt =====
-- How a connection that is asked to connect comes up, or gives up
-- (src/tase2_client_connection.cpp).
use fledge_south_tase.Common.{
  ℕ, ◌+◌, ◌<◌, Bool, true, false, List, [], ◌∷◌, ◌++◌, some, ltb, lt→ltb, ◌≡◌, refl, ◌∙◌,
  if◌then◌else◌, All,
}
use fledge_south_tase.Config.{Config, OsiParameters}
use fledge_south_tase.Connection.{Connection, Library, ConState, idle, connecting, connected}
use fledge_south_tase.Connection.Prepare.{prepare_connection, create_endpoint}
use fledge_south_tase.Connection.Thread.{
  Round, running, crashed, disconnect, idle_round, connecting_round, dispatch, con_thread_round,
}
use fledge_south_tase.Connection.Thread.Failover.{con_thread, and_then}
use fledge_south_tase.Client.Monitor.Failover.{IsOff, disconnect-IsOff}

-- With its flag set, the thread's round is the state's.
asked_round :
    (l : Library) (config : Config) (c : Connection) (s : ConState)
    → c.connect ≡ true
    → c.state ≡ s
    → con_thread_round l config c ≡ dispatch s l config c
unfolding con_thread_round
asked_round l config c s asked e = rw (asked, e)

-- Without it, the round does nothing.
pub not_asked_round :
    (l : Library) (config : Config) (c : Connection)
    → c.connect ≡ false
    → con_thread_round l config c ≡ running c
unfolding con_thread_round
not_asked_round l config c e = go c.connect e
  where
    go : (b : Bool) → b ≡ false → (if b then dispatch c.state l config c else running c) ≡ running c
    go true e = cc
    go false e = refl

-- The round that prepares the connection.
abbrev pub IsConnecting : Library → Connection → Connection → Type 0
IsConnecting l c d =
    (d.state ≡ connecting) × (d.connect ≡ c.connect) × (d.delay_expiration_time ≡ l.now + 10000)

-- The thread goes on, with a connection of which P holds.
abbrev pub RunsTo : (Connection → Type 0) → Round → Type 0
RunsTo P (running c) = P c
RunsTo P (crashed c) = ⊥

-- The library creates what prepareConnection asks for.
pub record Answers (l : Library) : Type 0 where
  pub endpoint : (e : ℕ) × (l.endpoint_handle ≡ some e)
  pub client : (h : ℕ) × (l.client_handle ≡ some h)
  pub no_error : l.error_is_ok ≡ true

idle_round-IsConnecting :
    (l : Library) (config : Config) (c : Connection) (p : OsiParameters)
    → c.osi_parameters ≡ some p
    → c.use_tls ≡ false
    → Answers l
    → RunsTo (IsConnecting l c) (idle_round l config c)
unfolding idle_round prepare_connection create_endpoint
idle_round-IsConnecting l config c p osi plain a =
    rw (plain, a.endpoint.1, osi, a.client.1, a.no_error, a.endpoint.1) (refl, refl, refl)

connecting_round-connected :
    (l : Library) (config : Config) (c : Connection)
    → l.endpoint_connected ≡ true
    → ((connecting_round l config c).state ≡ connected)
      × ((connecting_round l config c).is_connected ≡ true)
      × ((connecting_round l config c).is_connecting ≡ false)
unfolding connecting_round
connecting_round-connected l config c online = rw online (refl, refl, refl)

-- A connection that is asked to connect, rests, has OSI parameters and no TLS is connected after
-- two rounds of its thread, if the library creates the endpoint and the client in the first of
-- them, with no error, and finds the endpoint connected in the second.
pub con_thread-connected :
    (config : Config) (l l' : Library) (c : Connection) (p : OsiParameters)
    → c.connect ≡ true
    → c.state ≡ idle
    → c.osi_parameters ≡ some p
    → c.use_tls ≡ false
    → Answers l
    → l'.endpoint_connected ≡ true
    → RunsTo
        (λ d. (d.state ≡ connected) × (d.is_connected ≡ true) × (d.is_connecting ≡ false))
        (con_thread config (l ∷ l' ∷ []) c)
unfolding con_thread dispatch
con_thread-connected config l l' c p asked rest osi plain answers online =
    rw (asked_round l config c idle asked rest)
      (second (idle_round l config c) (idle_round-IsConnecting l config c p osi plain answers))
  where
    second :
        (r : Round)
        → RunsTo (IsConnecting l c) r
        → RunsTo
            (λ d. (d.state ≡ connected) × (d.is_connected ≡ true) × (d.is_connecting ≡ false))
            (and_then r (con_thread config (l' ∷ [])))
    second (running d) (state, request, _) =
        rw (asked_round l' config d connecting (request ∙ asked) state)
          (connecting_round-connected l' config d online)
    second (crashed d) h = absurd h

-- Rounds of a connection that is not asked to connect.
con_thread-IsOff' :
    (config : Config) (ls : List Library) (c : Connection)
    → IsOff c
    → RunsTo IsOff (con_thread config ls c)
unfolding con_thread
con_thread-IsOff' config [] c off = off
con_thread-IsOff' config (l ∷ ls) c off =
    rw (not_asked_round l config c off.asked) (con_thread-IsOff' config ls c off)

-- A connection that is connecting, and whose endpoint does not connect in any round, is off after
-- the rounds as soon as one of them came after the time at which it expires, whatever the rounds
-- before and behind that one are.
pub con_thread-IsOff :
    (config : Config) (ls : List Library) (late : Library) (more : List Library) (c : Connection)
    → c.connect ≡ true
    → c.state ≡ connecting
    → All (λ l. l.endpoint_connected ≡ false) ls
    → late.endpoint_connected ≡ false
    → c.delay_expiration_time < late.now
    → RunsTo IsOff (con_thread config (ls ++ late ∷ more) c)
unfolding con_thread dispatch connecting_round
con_thread-IsOff config [] late more c asked state none_up offline over =
    rw
      (
        asked_round late config c connecting asked state,
        offline,
        lt→ltb c.delay_expiration_time late.now over,
      )
      (con_thread-IsOff' config more (disconnect c) (disconnect-IsOff c))
con_thread-IsOff config (l ∷ ls) late more c asked state (down, none_up) offline over =
    rw (asked_round l config c connecting asked state, down)
      (waits (ltb c.delay_expiration_time l.now)
        (con_thread-IsOff config ls late more c asked state none_up offline over))
  where
    waits :
        (b : Bool)
        → RunsTo IsOff (con_thread config (ls ++ late ∷ more) c)
        → RunsTo IsOff (
            and_then
              (running (if b then disconnect c else c))
              (con_thread config (ls ++ late ∷ more)))
    waits true h = con_thread-IsOff' config (ls ++ late ∷ more) (disconnect c) (disconnect-IsOff c)
    waits false h = h
