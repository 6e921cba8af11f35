-- ===== src/Connection/Thread.antt =====
-- The connection's thread (src/tase2_client_connection.cpp): _conThread, cleanUp, Disconnect,
-- Connect, Start, Stop and executePeriodicTasks. Each round runs under the answers of one
-- `Library`; what the monitoring thread does between two rounds is a step of its own.
pub mod Reachable
pub mod Failover
pub mod Cleanup
pub mod Polling
pub mod Progress
pub mod Staying
pub mod Race
pub mod Survival
pub mod Handles
pub mod Serving
use fledge_south_tase.Common.{
  ℕ, ◌+◌, Bool, true, false, ◌&&◌, not, List, [], ◌∷◌, ◌++◌, map, Option, none, some, ltb, leb,
  if◌then◌else◌, ◌≡◌,
}
use fledge_south_tase.Common.Int.{ℤ, pos, negsuc}
use fledge_south_tase.Config.{Config}
use fledge_south_tase.Connection.{
  Connection, Call, Library, ConState, idle, connecting, connected, closed, wait_for_reconnect,
  fatal_error, record_call, record_calls, endpoint_destroy, client_connect, client_disconnect,
  client_destroy, tls_destroy, dsts_destroy, data_set_destroy, install_report_handler,
  install_value_handler, handle_all_values,
}
use fledge_south_tase.Connection.Prepare.{
  Prepared, prepared, null_dereference, prepare_connection, osi_calls,
}
use fledge_south_tase.Connection.Reports.{config_datasets, config_dsts}

-- The thread goes on with the new state, or has dereferenced a null pointer or connected with one:
-- what libtase2 does with a null endpoint or client is not known, so nothing is said of it.
pub data Round : Type 0 where
  running : Connection → Round
  crashed : Connection → Round

pub running-injective : {c d : Connection} → running c ≡ running d → c ≡ d
running-injective h = cc

abbrev pub destroy_endpoint : Option ℕ → List Call
destroy_endpoint none = []
destroy_endpoint (some e) = endpoint_destroy e ∷ []

abbrev pub destroy_tls : Option ℕ → List Call
destroy_tls none = []
destroy_tls (some t) = tls_destroy t ∷ []

abbrev pub destroy_client : Option ℕ → Option ℕ → List Call
destroy_client none client = []
destroy_client (some e) client =
    client_disconnect client ∷ client_destroy client ∷ endpoint_destroy e ∷ []

abbrev pub kept_client : Option ℕ → Option ℕ → Option ℕ
kept_client none client = client
kept_client (some e) client = none

-- The transfer sets and datasets are destroyed, and stay in their vectors. A null client is handed
-- on as it is, as in the code; the record of the call says so, and nothing is said of what libtase2
-- does with it.
unfoldable pub clean_up : Connection → Connection
clean_up c = record c {
  calls =
      c.calls
      ++ (map dsts_destroy c.dsts
          ++ (map data_set_destroy c.datasets
              ++ (destroy_client c.endpoint c.tase2client ++ destroy_tls c.tls_config)));
  endpoint = none;
  tase2client = kept_client c.endpoint c.tase2client;
  tls_config = none;
}

unfoldable pub disconnect : Connection → Connection
unfolding clean_up
disconnect c =
    clean_up
      (record c { is_connecting = false; is_connected = false; connect = false; state = idle })

abbrev pub set_connect : Connection → Connection
set_connect c = record c { connect = true }

-- A positive interval, as a number; 0 for others.
abbrev pub positive : ℤ → ℕ
positive (pos n) = n
positive (negsuc n) = 0

-- m_nextPollingTime is a uint64_t that does not wrap here.
unfoldable pub execute_periodic_tasks : Library → Config → Connection → Connection
execute_periodic_tasks l config c =
    if ltb 0 (positive config.polling_interval) && leb c.next_polling_time l.now
    then record (record_call c handle_all_values) {
      next_polling_time = l.now + positive config.polling_interval;
    }
    else c

abbrev pub osi_again : Connection → List Call
osi_again c = elim c.osi_parameters [ none ↦ [] | some p ↦ osi_calls p ]

-- The OSI parameters are set again on m_endpoint, and Tase2_Client_connectEx gets m_tase2client.
abbrev pub begun : Library → Connection → Connection
begun l c = record (record_calls c (osi_again c ++ client_connect c.tase2client ∷ [])) {
  state = if l.error_is_ok then connecting else fatal_error;
  is_connecting = true;
  delay_expiration_time = l.now + 10000;
}

abbrev pub connect_client : Library → Connection → Option ℕ → Option ℕ → Round
connect_client l c none client = crashed c
connect_client l c (some e) none = crashed c
connect_client l c (some e) (some h) = running (begun l c)

pub connect_client-begun :
    (l : Library) (c d : Connection) (e h : Option ℕ)
    → connect_client l c e h ≡ running d
    → begun l c ≡ d
connect_client-begun l c d none h ran = cc
connect_client-begun l c d (some e) none ran = cc
connect_client-begun l c d (some e) (some h) ran = cc

-- CON_STATE_IDLE, after prepareConnection. Its answer is taken; the members are read again.
abbrev pub start_connecting : Library → Prepared → Round
start_connecting l (prepared c true) = connect_client l c c.endpoint c.tase2client
start_connecting l (prepared c false) = running (record c { state = fatal_error })
start_connecting l (null_dereference c) = crashed c

abbrev pub without_endpoint : Connection → Connection
without_endpoint c = record (record_calls c (destroy_endpoint c.endpoint)) { endpoint = none }

unfoldable pub idle_round : Library → Config → Connection → Round
idle_round l config c = start_connecting l (prepare_connection l config (without_endpoint c))

unfoldable pub connecting_round : Library → Config → Connection → Connection
connecting_round l config c =
    if l.endpoint_connected
    then (let reported =
          config_dsts l 0 config.ds_transfer_sets (config_datasets config.datasets c) in
        record (record_calls reported (install_report_handler ∷ install_value_handler ∷ [])) {
          state = connected;
          is_connecting = false;
          is_connected = true;
        })
    else if ltb c.delay_expiration_time l.now
    then disconnect c
    else c

unfoldable pub connected_round : Library → Config → Connection → Connection
connected_round l config c =
    if l.endpoint_connected
    then execute_periodic_tasks l config c
    else record (clean_up c) { state = idle }

unfoldable pub reconnect_round : Library → Connection → Connection
reconnect_round l c = if leb c.delay_expiration_time l.now then record c { state = idle } else c

-- The switch.
unfoldable pub dispatch : ConState → Library → Config → Connection → Round
dispatch idle l config c = idle_round l config c
dispatch connecting l config c = running (connecting_round l config c)
dispatch connected l config c = running (connected_round l config c)
dispatch closed l config c =
    running (record c { delay_expiration_time = l.now + 10000; state = wait_for_reconnect })
dispatch wait_for_reconnect l config c = running (reconnect_round l c)
dispatch fatal_error l config c = running c

-- One round of the thread's loop.
unfoldable pub con_thread_round : Library → Config → Connection → Round
con_thread_round l config c = if c.connect then dispatch c.state l config c else running c

-- Start and Stop; Stop waits for the thread, which cleans up behind its loop.
abbrev pub start : Connection → Connection
start c = if c.started then c else record c { started = true }

abbrev pub stop : Connection → Connection
stop c = if c.started then clean_up (record c { started = false }) else c
