-- ===== src/Examples/Launching.antt =====
-- The theorems on the threads of a client, at a client of two connections.
use fledge_south_tase.Common.{
  zero, suc, ◌≤◌, Option, ℕ, ◌+◌, ◌*◌, ◌/◌, true, false, [], ◌∷◌, none, some, nat_eq, ltb→lt,
  update, ◌≡◌, refl, arith,
}
use fledge_south_tase.Common.Int.{pos}
use fledge_south_tase.Config.{Config, RedGroup, new_config, new_red_group}
use fledge_south_tase.Connection.{Connection, connecting}
use fledge_south_tase.Connection.Prepare.{prepare_connection, create_endpoint}
use fledge_south_tase.Connection.Reports.{config_datasets, config_dsts}
use fledge_south_tase.Connection.Thread.{
  start, set_connect, idle_round, connecting_round, connected_round, clean_up, dispatch,
  con_thread_round,
}
use fledge_south_tase.Connection.Thread.Failover.{con_thread}
use fledge_south_tase.Connection.Thread.Progress.{RunsTo, con_thread-IsOff}
use fledge_south_tase.Client.Monitor.{start_client, prepare_connections}
use fledge_south_tase.Client.Monitor.Failover.{IsOff}
use fledge_south_tase.Client.Monitor.Waiting.{Sights}
use fledge_south_tase.Client.Monitor.Waiting.Pass.{try_each, IsFirst, try_each-IsFirst}
use fledge_south_tase.System.{System, monitor_step, turn, monitors, Reach, here, later}
use fledge_south_tase.Connection.Thread.Handles.{InOrder, events}
use fledge_south_tase.Connection.Thread.Serving.{HoldsBoth}
use fledge_south_tase.System.Projection.{launch-InOrder, launch-HoldsBoth}
use fledge_south_tase.System.Stuck.{IsStuck, after_two, lost-IsStuck}
use fledge_south_tase.System.Unserved.{launch-without_client}
use fledge_south_tase.System.Arbiter.{Change, IsHeldBy, holder}
use fledge_south_tase.System.Survival.{launch-con_thread_round}
use fledge_south_tase.Connection.Thread.Survival.{is_crash}
use fledge_south_tase.System.Launch.{launch, launch-only_active, launch-Change}
use fledge_south_tase.Examples.{state_of, answering, silent, fresh}

abbrev group : RedGroup
group = record new_red_group {
  ip_addr = "127.0.0.1";
  tcp_port = pos 102;
  is_osi_parameters_enabled = true;
}

abbrev two_groups : Config
two_groups = record new_config { connections = group ∷ group ∷ [] }

-- The monitoring thread finds nobody active and asks the first connection.
abbrev watched : System
watched = monitor_step (launch two_groups).monitor two_groups 100 (launch two_groups)

abbrev asked : System
asked = monitor_step watched.monitor two_groups 100 watched

asked-Reach : Reach two_groups (launch two_groups) asked
asked-Reach = later (later here (monitors 100)) (monitors 100)

-- Two rounds of that connection's thread.
abbrev first_tried : Connection
first_tried = state_of (con_thread_round answering two_groups (asked.connections 0))

abbrev tried : System
tried = record asked { connections = update asked.connections 0 first_tried }

abbrev first_up : Connection
first_up = state_of (con_thread_round answering two_groups first_tried)

abbrev up : System
up = record tried { connections = update tried.connections 0 first_up }

up-Reach : Reach two_groups (launch two_groups) up
unfolding launch start_client prepare_connections monitor_step con_thread_round dispatch idle_round
    connecting_round prepare_connection create_endpoint config_datasets config_dsts
up-Reach =
    later (later asked-Reach (turn 0 answering first_tried (ltb→lt 0 2 refl) refl))
      (turn 0 answering first_up (ltb→lt 0 2 refl) refl)

launch-only_active_example : up.active ≡ some 0
unfolding launch start_client prepare_connections monitor_step con_thread_round dispatch idle_round
    connecting_round prepare_connection create_endpoint config_datasets config_dsts
launch-only_active_example = launch-only_active two_groups 0 up-Reach refl

launch-Change_example :
    Change (holder watched) (holder asked)
    × IsHeldBy (holder watched) watched.connections
    × IsHeldBy (holder asked) asked.connections
launch-Change_example = launch-Change two_groups (later here (monitors 100)) (monitors 100)

-- One endpoint was asked for, and one client made for it.
launch-InOrder_example : InOrder (events first_up.calls) first_up.endpoint
unfolding prepare_connections
launch-InOrder_example = launch-InOrder two_groups 0 up-Reach

launch-HoldsBoth_example : HoldsBoth first_up × (up.active ≡ some 0)
unfolding launch start_client prepare_connections monitor_step con_thread_round dispatch idle_round
    connecting_round prepare_connection create_endpoint config_datasets config_dsts
launch-HoldsBoth_example = launch-HoldsBoth two_groups 0 up-Reach refl

-- The monitoring thread has seen the first connection up, which is then lost and not made again.
abbrev seen_up : System
seen_up = monitor_step up.monitor two_groups 120 up

abbrev first_lost : Connection
first_lost = state_of (con_thread_round silent two_groups first_up)

abbrev first_failed : Connection
first_failed = state_of (con_thread_round silent two_groups first_lost)

lost-IsStuck_example :
    Reach two_groups seen_up (after_two seen_up 0 first_lost first_failed)
    × IsStuck 0 (after_two seen_up 0 first_lost first_failed)
unfolding launch start_client prepare_connections monitor_step con_thread_round dispatch idle_round
    connecting_round connected_round clean_up prepare_connection create_endpoint config_datasets
    config_dsts
lost-IsStuck_example =
    lost-IsStuck two_groups silent silent 0 seen_up first_lost first_failed (ltb→lt 0 2 refl) refl
      refl refl refl refl refl refl refl refl here

launch-without_client_example :
    (t : System) × Reach two_groups (launch two_groups) t
    × (t.active ≡ some 1)
    × ((t.connections 1).tase2client ≡ none)
launch-without_client_example = launch-without_client two_groups 1 group refl

abbrev resting : Connection
resting = set_connect (start fresh)

abbrev pending : Connection
pending = record resting { state = connecting; is_connecting = true; delay_expiration_time = 10100 }

con_thread-IsOff_example :
    RunsTo IsOff
      (con_thread two_groups (silent ∷ record silent { now = 10101 } ∷ silent ∷ []) pending)
con_thread-IsOff_example =
    con_thread-IsOff two_groups (silent ∷ []) (record silent { now = 10101 }) (silent ∷ []) pending
      refl refl (refl, tt) refl (ltb→lt 10100 10101 refl)

-- A connection that comes up at the third test, with a clock that advances by ten at each.
abbrev sights : Sights
sights k = (1000 + 10 * k, nat_eq k 2)

-- The first connection never comes up, the second one does.
abbrev sights_of : ℕ → Sights
sights_of zero k = (1000 + 10 * k, false)
sights_of (suc i) k = sights k

try_each-IsFirst_example :
    (r : Option ℕ) × (try_each (5000 / 10 + 2) (pos 5000) (λ i. 1000) sights_of 0 2 ≡ some r)
    × IsFirst 5000 (λ i. 1000) sights_of 0 2 r
try_each-IsFirst_example = try_each-IsFirst 5000 (λ i. 1000) sights_of ticking 0 2
  where
    ticking : (i k : ℕ) → 1000 + 10 * k ≤ (sights_of i k).0
    ticking zero k = omega arith
    ticking (suc i) k = omega arith

launch-con_thread_round_example :
    is_crash (con_thread_round silent two_groups (up.connections 0)) ≡ false
unfolding monitor_step launch start_client prepare_connections
launch-con_thread_round_example =
    launch-con_thread_round two_groups 0 silent (refl, (refl, tt)) up-Reach (ltb→lt 0 2 refl)
