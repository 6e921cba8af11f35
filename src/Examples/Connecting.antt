-- ===== src/Examples/Connecting.antt =====
-- The theorems on connections, at a connection of a concrete library.
use fledge_south_tase.Common.{
  none, arith, ◌&&◌, ◌⊎◌, ℕ, true, false, [], ◌∷◌, ◌++◌, some, ◌≡◌, refl, nat_eq, ◌^◌, ◌-◌, ltb→lt,
}
use fledge_south_tase.Common.Int.{pos}
use fledge_south_tase.Config.{Config, DatasetTransferSet, new_dsts, new_osi_parameters}
use fledge_south_tase.Connection.{Connection, Library, connected, record_calls}
use fledge_south_tase.Common.Texts.{text_length}
use fledge_south_tase.Connection.Tls.{configure_tls, is_pem}
use fledge_south_tase.Connection.Tls.Pem.{ends_pem, is_pem-ends_pem}
use fledge_south_tase.Connection.Prepare.{
  Prepared, null_dereference, prepared, prepare_connection, create_endpoint,
}
use fledge_south_tase.Connection.Prepare.Laws.{is_success, own_loads, prepare_connection_tls}
use fledge_south_tase.Connection.Reports.{config_datasets, config_dsts}
use fledge_south_tase.Connection.Reports.Laws.{set_up, written, config_dsts-written}
use fledge_south_tase.Connection.Thread.{
  begun, running, crashed, without_endpoint, start_connecting, disconnect, start, stop, set_connect,
  clean_up, idle_round, connecting_round, connected_round, dispatch, con_thread_round,
}
use fledge_south_tase.Connection.Thread.Reachable.{
  Reach, here, next, starts, connects, rounds, Agrees, new_connection-Agrees, Reach-Agrees,
}
use fledge_south_tase.Connection.Thread.Progress.{RunsTo}
use fledge_south_tase.Connection.Thread.Cleanup.NullClient.{IsHalfMade, idle_round-IsHalfMade}
use fledge_south_tase.Connection.Thread.Race.{start_connecting-disconnect}
use fledge_south_tase.Connection.Thread.Cleanup.{
  destroyed_dsts, stop-connected_round-destroyed_dsts,
}
use fledge_south_tase.Connection.Thread.Polling.Rate.{IsSpaced, poll_times, poll_times-IsSpaced}
use fledge_south_tase.Client.Monitor.{try_connections}
use fledge_south_tase.Client.Monitor.Failover.{IsSettled, try_connections-IsSettled}
use fledge_south_tase.Examples.{state_of, sample_config, answering, silent, fresh, online}

-- Two rounds under answers of the library.
abbrev tried : Connection
tried = state_of (con_thread_round answering sample_config (set_connect (start fresh)))

abbrev reached : Connection
reached = state_of (con_thread_round answering sample_config tried)

reached_connected : reached.state ≡ connected
unfolding con_thread_round dispatch idle_round connecting_round prepare_connection create_endpoint
    config_datasets config_dsts
reached_connected = refl

fresh-Reach : Reach sample_config fresh reached
unfolding con_thread_round dispatch idle_round connecting_round prepare_connection create_endpoint
    config_datasets config_dsts
fresh-Reach =
    next {d = tried}
      (next {d = set_connect (start fresh)}
        (next {d = start fresh} (next {d = fresh} here (starts refl)) (connects refl))
        (rounds answering refl))
      (rounds answering refl)

Reach-Agrees_example : Agrees reached
Reach-Agrees_example =
    Reach-Agrees sample_config
      (new_connection-Agrees "127.0.0.1" (pos 102) false (some new_osi_parameters)) fresh-Reach

abbrev lost : Connection
lost = state_of (con_thread_round silent sample_config online)

abbrev stuck : Connection
stuck = state_of (con_thread_round silent sample_config lost)

stop-connected_round-destroyed_dsts_example :
    destroyed_dsts (stop (connected_round silent sample_config online)).calls
    ≡ (destroyed_dsts online.calls ++ online.dsts) ++ online.dsts
stop-connected_round-destroyed_dsts_example =
    stop-connected_round-destroyed_dsts silent sample_config online refl refl

poll_times-IsSpaced_example :
    IsSpaced 1000 1000 0
      (poll_times sample_config (answering ∷ record answering { now = 1100 } ∷ []) online)
      1100
poll_times-IsSpaced_example =
    poll_times-IsSpaced sample_config 999 refl 1000 0
      (answering ∷ record answering { now = 1100 } ∷ []) online (omega arith, (omega arith, tt))
      (omega arith)

abbrev no_key : Library
no_key = record answering { own_key_loads = λ file. false }

abbrev secured : Connection
secured = record fresh { use_tls = true }

abbrev own_certificate : Config
own_certificate = record sample_config { private_key = "own.key"; own_certificate = "own.cer" }

-- The key does not load.
prepare_connection_tls_example :
    (is_success (prepare_connection no_key own_certificate secured)
      ≡ (own_loads no_key own_certificate && true))
    × (own_loads no_key own_certificate ≡ true
        ⊎ (prepare_connection no_key own_certificate secured
            ≡ prepared (record_calls secured (configure_tls no_key own_certificate).0) false))
prepare_connection_tls_example =
    prepare_connection_tls no_key own_certificate secured new_osi_parameters refl refl refl

abbrev no_client : Library
no_client = record answering { client_handle = none }

idle_round-IsHalfMade_example : RunsTo (IsHalfMade 2) (idle_round no_client sample_config fresh)
idle_round-IsHalfMade_example =
    idle_round-IsHalfMade no_client sample_config fresh new_osi_parameters 2 refl refl refl refl

-- The second of three connections comes up.
abbrev second_up : ℕ → Connection → Connection
second_up i c = record c { is_connected = nat_eq i 1 }

try_connections-IsSettled_example :
    IsSettled second_up 0
      (fresh ∷ fresh ∷ fresh ∷ [])
      (try_connections second_up 0 (fresh ∷ fresh ∷ fresh ∷ []))
try_connections-IsSettled_example =
    try_connections-IsSettled second_up 0 (fresh ∷ fresh ∷ fresh ∷ [])

-- A name of three characters counts as a .pem file.
is_pem-ends_pem_example : is_pem "abc" ≡ true
unfolding text_length ends_pem
is_pem-ends_pem_example = is_pem-ends_pem "abc" (ltb→lt 3 (2 ^ 64 - 1) refl)

abbrev transfer_set : DatasetTransferSet
transfer_set = record new_dsts { domain = "icc1"; dsts_ref = "t"; dataset_ref = "d" }

config_dsts-written_example :
    (written (config_dsts answering 0 (("t", transfer_set) ∷ ("u", transfer_set) ∷ []) fresh).calls
      ≡ 0 ∷ 1 ∷ [])
    × ((config_dsts answering 0 (("t", transfer_set) ∷ ("u", transfer_set) ∷ []) fresh).dsts
        ≡ written
            (config_dsts answering 0 (("t", transfer_set) ∷ ("u", transfer_set) ∷ []) fresh).calls)
    × ((config_dsts answering 0 (("t", transfer_set) ∷ ("u", transfer_set) ∷ []) fresh).datasets
        ≡ 4 ∷ 4 ∷ [])
    × (destroyed_dsts
          (clean_up
            (config_dsts answering 0 (("t", transfer_set) ∷ ("u", transfer_set) ∷ []) fresh)).calls
        ≡ written
            (config_dsts answering 0 (("t", transfer_set) ∷ ("u", transfer_set) ∷ []) fresh).calls)
unfolding set_up written
config_dsts-written_example =
    config_dsts-written answering (("t", transfer_set) ∷ ("u", transfer_set) ∷ []) fresh refl refl
      refl refl

abbrev connection_of : Prepared → Connection
connection_of (prepared c ok) = c
connection_of (null_dereference c) = c

abbrev ready : Connection
ready =
    connection_of
      (prepare_connection answering sample_config (without_endpoint (set_connect fresh)))

start_connecting-disconnect_example :
    (start_connecting answering (prepared ready true) ≡ running (begun answering ready))
    × (start_connecting answering (prepared (disconnect ready) true) ≡ crashed (disconnect ready))
    × ((disconnect ready).endpoint ≡ none)
    × ((disconnect ready).tase2client ≡ none)
unfolding prepare_connection create_endpoint
start_connecting-disconnect_example =
    start_connecting-disconnect sample_config answering (set_connect fresh) ready refl
