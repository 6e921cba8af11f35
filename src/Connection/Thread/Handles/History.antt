-- ===== src/Connection/Thread/Handles/History.antt =====
-- Every round, and every call of another thread, keeps the history of endpoints and clients in order
-- (src/tase2_client_connection.cpp).
use fledge_south_tase.Common.{
  ◌+◌, String, Bool, true, false, [], ◌∷◌, Option, none, ltb, ◌≡◌, refl, ap, subst, ◌∙◌,
  if◌then◌else◌,
}
use fledge_south_tase.Common.Int.{ℤ}
use fledge_south_tase.Config.{Config, OsiParameters}
use fledge_south_tase.Connection.{
  Connection, Library, ConState, idle, connecting, connected, closed, wait_for_reconnect,
  fatal_error, install_report_handler, install_value_handler, handle_all_values, record_call,
  record_calls, new_connection,
}
use fledge_south_tase.Connection.Reports.{config_datasets, config_dsts}
use fledge_south_tase.Connection.Thread.Handles.Alike.{IsAlike, configured-IsAlike}
use fledge_south_tase.Connection.Thread.{
  running-injective, positive, running, clean_up, disconnect, connecting_round, connected_round,
  execute_periodic_tasks, dispatch, con_thread_round,
}
use fledge_south_tase.Connection.Thread.Handles.{events, InOrder}
use fledge_south_tase.Connection.Thread.Handles.Rounds.{clean_up-InOrder}
use fledge_south_tase.Connection.Thread.Reachable.{
  Step, rounds, connects, disconnects, starts, Reach, here, next, Agrees, is_used, Reach-Agrees,
  new_connection-Agrees,
}
use fledge_south_tase.Connection.Thread.Handles.Quiet.{events-quiet}
use fledge_south_tase.Connection.Thread.Handles.Ordered.{IsOrdered, idle_round-IsOrdered}

-- A connection in another state that is left with the same endpoint, or with none.
keeps-IsOrdered :
    (c d : Connection)
    → events d.calls ≡ events c.calls
    → d.endpoint ≡ c.endpoint
    → (d.state ≡ idle → d.endpoint ≡ none)
    → IsOrdered c
    → IsOrdered d
keeps-IsOrdered c d es held resting h = record {
  history = rw (es, held) h.history;
  resting = resting;
}

disconnect-IsOrdered : (c : Connection) → IsOrdered c → IsOrdered (disconnect c)
unfolding disconnect clean_up
disconnect-IsOrdered c h = record {
  history =
      clean_up-InOrder
        (record c { is_connecting = false; is_connected = false; connect = false; state = idle })
        h.history;
  resting = λ e. refl;
}

connecting_round-IsOrdered :
    (l : Library) (config : Config) (c : Connection)
    → c.state ≡ connecting
    → IsOrdered c
    → IsOrdered (connecting_round l config c)
unfolding connecting_round events
connecting_round-IsOrdered l config c e h =
    go l.endpoint_connected (ltb c.delay_expiration_time l.now)
  where
    reported : Connection
    reported = config_dsts l 0 config.ds_transfer_sets (config_datasets config.datasets c)

    alike : IsAlike c reported
    alike = configured-IsAlike l config.datasets config.ds_transfer_sets c

    installed : Connection
    installed =
        record (record_calls reported (install_report_handler ∷ install_value_handler ∷ [])) {
          state = connected;
          is_connecting = false;
          is_connected = true;
        }

    installed-IsOrdered : IsOrdered installed
    installed-IsOrdered =
        keeps-IsOrdered c installed
          (events-quiet reported.calls _ (record { quiet = refl }) ∙ alike.history) alike.held
          (λ e. cc) h

    go : (b late : Bool) → IsOrdered (if b then installed else if late then disconnect c else c)
    go true late = installed-IsOrdered
    go false true = disconnect-IsOrdered c h
    go false false = h

execute_periodic_tasks-IsOrdered :
    (l : Library) (config : Config) (c : Connection)
    → IsOrdered c
    → IsOrdered (execute_periodic_tasks l config c)
unfolding execute_periodic_tasks events
execute_periodic_tasks-IsOrdered l config c h = go _
  where
    polled : Connection
    polled = record (record_call c handle_all_values) {
      next_polling_time = l.now + positive config.polling_interval;
    }

    go : (b : Bool) → IsOrdered (if b then polled else c)
    go true =
        keeps-IsOrdered c polled (events-quiet c.calls _ (record { quiet = refl })) refl h.resting h
    go false = h

connected_round-IsOrdered :
    (l : Library) (config : Config) (c : Connection)
    → IsOrdered c
    → IsOrdered (connected_round l config c)
unfolding connected_round clean_up
connected_round-IsOrdered l config c h = go l.endpoint_connected
  where
    closing : Connection
    closing = record (clean_up c) { state = idle }

    go : (b : Bool) → IsOrdered (if b then execute_periodic_tasks l config c else closing)
    go true = execute_periodic_tasks-IsOrdered l config c h
    go false = record { history = clean_up-InOrder c h.history; resting = λ e. refl }

dispatch-IsOrdered :
    (s : ConState) (l : Library) (config : Config) (c d : Connection)
    → c.state ≡ s
    → Agrees c
    → IsOrdered c
    → dispatch s l config c ≡ running d
    → IsOrdered d
unfolding dispatch
dispatch-IsOrdered idle l config c d e a h ran = idle_round-IsOrdered l config c d e h ran
dispatch-IsOrdered connecting l config c d e a h ran =
    subst IsOrdered (running-injective ran) (connecting_round-IsOrdered l config c e h)
dispatch-IsOrdered connected l config c d e a h ran =
    subst IsOrdered (running-injective ran) (connected_round-IsOrdered l config c h)
dispatch-IsOrdered closed l config c d e a h ran = absurd (cc (ap is_used e ∙ refl, a.used))
dispatch-IsOrdered wait_for_reconnect l config c d e a h ran =
    absurd (cc (ap is_used e ∙ refl, a.used))
dispatch-IsOrdered fatal_error l config c d e a h ran = subst IsOrdered (running-injective ran) h

Step-IsOrdered :
    (config : Config) {c d : Connection} → Step config c d → Agrees c → IsOrdered c → IsOrdered d
unfolding con_thread_round
Step-IsOrdered config {c} {d} (rounds l ran) a h = go c.connect ran
  where
    go :
        (b : Bool)
        → (if b then dispatch c.state l config c else running c) ≡ running d
        → IsOrdered d
    go true e = dispatch-IsOrdered c.state l config c d refl a h e
    go false e = subst IsOrdered (running-injective e) h
Step-IsOrdered config (connects e) a h = rw e (record { history = h.history; resting = h.resting })
Step-IsOrdered config {c} (disconnects e) a h = rw e (disconnect-IsOrdered c h)
Step-IsOrdered config {c} (starts e) a h = rw e (go c.started)
  where
    go : (b : Bool) → IsOrdered (if b then c else record c { started = true })
    go true = h
    go false = record { history = h.history; resting = h.resting }

Reach-IsOrdered :
    (config : Config) {c d : Connection} → Agrees c → IsOrdered c → Reach config c d → IsOrdered d
Reach-IsOrdered config a h here = h
Reach-IsOrdered config a h (next r s) =
    Step-IsOrdered config s (Reach-Agrees config a r) (Reach-IsOrdered config a h r)

new_connection-IsOrdered :
    (ip : String) (port : ℤ) (tls : Bool) (osi : Option OsiParameters)
    → IsOrdered (new_connection ip port tls osi)
unfolding events
new_connection-IsOrdered ip port tls osi = record { history = InOrder.unused; resting = λ e. refl }

-- Whatever the library answers to a new connection, and however the monitoring thread connects,
-- disconnects and starts it between the rounds of its own thread, its history is in order, and the
-- endpoint that is left is the one in its record.
pub Reach-InOrder :
    (config : Config) (ip : String) (port : ℤ) (tls : Bool) (osi : Option OsiParameters)
    {d : Connection}
    → Reach config (new_connection ip port tls osi) d
    → InOrder (events d.calls) d.endpoint
Reach-InOrder config ip port tls osi r =
    (Reach-IsOrdered config (new_connection-Agrees ip port tls osi)
      (new_connection-IsOrdered ip port tls osi) r).history
