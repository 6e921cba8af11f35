-- ===== src/Connection/Thread/Serving.antt =====
-- In which states a connection's client is there (src/tase2_client_connection.cpp).
use fledge_south_tase.Common.{
  ◌+◌, ◌&&◌, ℕ, String, Bool, true, false, [], ◌∷◌, ◌++◌, Option, none, some, ltb, leb, ◌≡◌, refl,
  ap, subst, ◌∙◌, if◌then◌else◌,
}
use fledge_south_tase.Common.Int.{ℤ}
use fledge_south_tase.Config.{Config, OsiParameters}
use fledge_south_tase.Connection.{
  Connection, Library, ConState, idle, connecting, connected, closed, wait_for_reconnect,
  fatal_error, new_connection, record_call, record_calls, handle_all_values, client_create,
  install_report_handler, install_value_handler,
}
use fledge_south_tase.Connection.Prepare.{
  osi_calls, address_calls, is_some, Prepared, prepared, null_dereference, prepare_connection,
  create_endpoint, finish, with_osi,
}
use fledge_south_tase.Connection.Reports.{config_datasets, config_dsts}
use fledge_south_tase.Connection.Thread.Handles.Alike.{IsAlike, configured-IsAlike}
use fledge_south_tase.Connection.Thread.{
  connect_client-begun, running-injective, positive, running, clean_up, disconnect,
  start_connecting, idle_round, without_endpoint, connecting_round, connected_round,
  reconnect_round, execute_periodic_tasks, dispatch, con_thread_round,
}
use fledge_south_tase.Connection.Thread.Reachable.{
  Step, rounds, connects, disconnects, starts, Reach, here, next,
}

-- The states in which the thread calls functions of the client and of the endpoint.
abbrev pub is_serving : ConState → Bool
is_serving connecting = true
is_serving connected = true
is_serving _ = false

-- Neither m_endpoint nor m_tase2client is null.
pub record HoldsBoth (c : Connection) : Type 0 where
  pub endpoint : is_some c.endpoint ≡ true
  pub client : is_some c.tase2client ≡ true

abbrev pub Serves : Connection → Type 0
Serves c = is_serving c.state ≡ true → HoldsBoth c

-- A success of prepareConnection.
abbrev pub HoldsIf : Prepared → Type 0
HoldsIf (prepared c true) = HoldsBoth c
HoldsIf (prepared c false) = Unit {0}
HoldsIf (null_dereference c) = Unit {0}

prepared-HoldsIf :
    (c : Connection) (o : Option ℕ)
    → is_some c.endpoint ≡ true
    → HoldsIf (prepared (record c { tase2client = o }) (is_some o))
prepared-HoldsIf c none h = tt
prepared-HoldsIf c (some n) h = record { endpoint = h; client = refl }

pub finish-HoldsIf :
    (l : Library) (c : Connection) (o : Option ℕ) → c.endpoint ≡ o → HoldsIf (finish l c o)
finish-HoldsIf l c none e = tt
finish-HoldsIf l c (some n) e = go c.osi_parameters
  where
    go : (o : Option OsiParameters) → HoldsIf (with_osi l c n o)
    go none = tt
    go (some p) =
        prepared-HoldsIf (record_calls c (address_calls c ++ (osi_calls p ++ client_create n ∷ [])))
          l.client_handle (ap is_some e)

start_connecting-Serves :
    (l : Library) (p : Prepared)
    → HoldsIf p
    → (d : Connection) → start_connecting l p ≡ running d
    → Serves d
start_connecting-Serves l (prepared c true) h d ran =
    subst Serves (connect_client-begun l c d c.endpoint c.tase2client ran)
      λ e. record { endpoint = h.endpoint; client = h.client }
start_connecting-Serves l (prepared c false) h d ran = subst Serves (running-injective ran) λ e. cc
start_connecting-Serves l (null_dereference c) h d ran = cc

idle_round-Serves :
    (l : Library) (config : Config) (c d : Connection)
    → idle_round l config c ≡ running d
    → Serves d
unfolding idle_round prepare_connection
idle_round-Serves l config c d ran =
    start_connecting-Serves l (prepare_connection l config (without_endpoint c))
      (finish-HoldsIf l (create_endpoint l config (without_endpoint c)) _ refl) d ran

disconnect-Serves : (c : Connection) → Serves (disconnect c)
unfolding disconnect clean_up
disconnect-Serves c e = cc

connecting_round-Serves :
    (l : Library) (config : Config) (c : Connection)
    → c.state ≡ connecting
    → Serves c
    → Serves (connecting_round l config c)
unfolding connecting_round
connecting_round-Serves l config c e h = go l.endpoint_connected (ltb c.delay_expiration_time l.now)
  where
    reported : Connection
    reported = config_dsts l 0 config.ds_transfer_sets (config_datasets config.datasets c)

    alike : IsAlike c reported
    alike = configured-IsAlike l config.datasets config.ds_transfer_sets c

    holds : HoldsBoth c
    holds = h (ap is_serving e)

    installed : Connection
    installed =
        record (record_calls reported (install_report_handler ∷ install_value_handler ∷ [])) {
          state = connected;
          is_connecting = false;
          is_connected = true;
        }

    go : (b late : Bool) → Serves (if b then installed else if late then disconnect c else c)
    go true late = λ e. record {
      endpoint = ap is_some alike.held ∙ holds.endpoint;
      client = ap is_some alike.client ∙ holds.client;
    }
    go false true = disconnect-Serves c
    go false false = h

reconnect_round-Serves : (l : Library) (c : Connection) → Serves c → Serves (reconnect_round l c)
unfolding reconnect_round
reconnect_round-Serves l c h = go (leb c.delay_expiration_time l.now)
  where
    go : (b : Bool) → Serves (if b then record c { state = idle } else c)
    go true = λ e. cc
    go false = h

connected_round-Serves :
    (l : Library) (config : Config) (c : Connection)
    → Serves c
    → Serves (connected_round l config c)
unfolding connected_round clean_up execute_periodic_tasks
connected_round-Serves l config c h =
    go l.endpoint_connected (ltb 0 _ && leb c.next_polling_time l.now)
  where
    polled : Connection
    polled = record (record_call c handle_all_values) {
      next_polling_time = l.now + positive config.polling_interval;
    }

    go :
        (b due : Bool)
        → Serves (if b then if due then polled else c else record (clean_up c) { state = idle })
    go true true = λ e. record { endpoint = (h e).endpoint; client = (h e).client }
    go true false = h
    go false due = λ e. cc

dispatch-Serves :
    (s : ConState) (l : Library) (config : Config) (c d : Connection)
    → c.state ≡ s
    → Serves c
    → dispatch s l config c ≡ running d
    → Serves d
unfolding dispatch
dispatch-Serves idle l config c d e h ran = idle_round-Serves l config c d ran
dispatch-Serves connecting l config c d e h ran =
    subst Serves (running-injective ran) (connecting_round-Serves l config c e h)
dispatch-Serves connected l config c d e h ran =
    subst Serves (running-injective ran) (connected_round-Serves l config c h)
dispatch-Serves closed l config c d e h ran = subst Serves (running-injective ran) λ e. cc
dispatch-Serves wait_for_reconnect l config c d e h ran =
    subst Serves (running-injective ran) (reconnect_round-Serves l c h)
dispatch-Serves fatal_error l config c d e h ran = subst Serves (running-injective ran) h

Step-Serves : (config : Config) {c d : Connection} → Step config c d → Serves c → Serves d
unfolding con_thread_round
Step-Serves config {c} {d} (rounds l ran) h = go c.connect ran
  where
    go : (b : Bool) → (if b then dispatch c.state l config c else running c) ≡ running d → Serves d
    go true e = dispatch-Serves c.state l config c d refl h e
    go false e = subst Serves (running-injective e) h
Step-Serves config (connects e) h =
    rw e λ s. record { endpoint = (h s).endpoint; client = (h s).client }
Step-Serves config {c} (disconnects e) h = rw e (disconnect-Serves c)
Step-Serves config {c} (starts e) h = rw e (go c.started)
  where
    go : (b : Bool) → Serves (if b then c else record c { started = true })
    go true = h
    go false = λ s. record { endpoint = (h s).endpoint; client = (h s).client }

Reach-Serves : (config : Config) {c d : Connection} → Serves c → Reach config c d → Serves d
Reach-Serves config h here = h
Reach-Serves config h (next r s) = Step-Serves config s (Reach-Serves config h r)

-- Whatever the library answers to a new connection, and however the monitoring thread connects,
-- disconnects and starts it between the rounds of its own thread: in the two states in which that
-- thread calls functions of the endpoint and of the client, neither of them is null.
pub Reach-HoldsBoth :
    (config : Config) (ip : String) (port : ℤ) (tls : Bool) (osi : Option OsiParameters)
    {d : Connection}
    → Reach config (new_connection ip port tls osi) d
    → is_serving d.state ≡ true
    → HoldsBoth d
Reach-HoldsBoth config ip port tls osi r = Reach-Serves config (λ e. cc) r
