-- ===== src/System.antt =====
-- The monitoring thread of a TASE2Client and the threads of its connections, interleaved
-- (src/tase2_client.cpp, src/tase2_client_connection.cpp). A step is one round of a connection's
-- thread, or what the monitoring thread does between two looks at the connections. Both loops look
-- at a connection and change it with no lock in common; a round is taken as a whole here.
pub mod Exclusion
pub mod Arbiter
pub mod Launch
pub mod Progress
pub mod Survival
pub mod Projection
pub mod Unserved
pub mod Stuck
use fledge_south_tase.Common.{
  ℕ, zero, suc, ◌+◌, ◌<◌, Bool, true, false, not, Option, none, some, ltb, update, ◌≡◌,
  if◌then◌else◌,
}
use fledge_south_tase.Common.Int.{ℤ, pos, negsuc, to_i64}
use fledge_south_tase.Config.{Config}
use fledge_south_tase.Connection.{Connection, Library, disconnected}
use fledge_south_tase.Connection.Thread.{running, con_thread_round, disconnect, set_connect}

-- Where the monitoring thread stands: before the test of the active connection, before Connect on
-- the i-th connection, or in the loop that waits for it, with the time at which that began.
pub data Monitor : Type 0 where
  watching : Monitor
  next : (i : ℕ) → Monitor
  waiting : (i : ℕ) (start : ℕ) → Monitor

-- The first `count` connections of the family are those of m_connections; `active` is the position
-- of m_active_connection.
pub record System : Type 0 where
  pub count : ℕ
  pub connections : ℕ → Connection
  pub active : Option ℕ
  pub monitor : Monitor

abbrev pub is_lost : System → Bool
is_lost s = elim s.active [ none ↦ true | some i ↦ disconnected (s.connections i) ]

-- `now - start > timeout`, in milliseconds
abbrev pub is_over : ℤ → ℕ → ℕ → Bool
is_over (pos n) start now = ltb (start + n) now
is_over (negsuc n) start now = ltb start (now + suc n)

-- std::chrono::milliseconds (m_config->backupConnectionTimeout ())
abbrev pub timeout : Config → ℤ
timeout config = to_i64 config.backup_connection_timeout

abbrev pub ask : ℕ → ℕ → System → System
ask i now s = record s {
  connections = update s.connections i (set_connect (s.connections i));
  active = some i;
  monitor = waiting i now;
}

abbrev pub drop_connection : ℕ → System → System
drop_connection i s = record s {
  connections = update s.connections i (disconnect (s.connections i));
  active = none;
  monitor = next (suc i);
}

-- What the monitoring thread does next; `now` is the time that it reads.
unfoldable pub monitor_step : Monitor → Config → ℕ → System → System
monitor_step watching config now s = if is_lost s then record s { monitor = next 0 } else s
monitor_step (next i) config now s =
    if ltb i s.count then ask i now s else record s { monitor = watching }
monitor_step (waiting i start) config now s =
    if (s.connections i).is_connected
    then record s { monitor = watching }
    else if is_over (timeout config) start now
    then drop_connection i s
    else s

module _ (config : Config) where
  pub data Step (s : System) : System → Type 0 where
    turn :
        (i : ℕ) (l : Library) (d : Connection)
        → i < s.count
        → con_thread_round l config (s.connections i) ≡ running d
        → Step s (record s { connections = update s.connections i d })
    monitors : (now : ℕ) → Step s (monitor_step s.monitor config now s)

  pub data Reach (s : System) : System → Type 0 where
    here : Reach s s
    later : {t u : System} → Reach s t → Step t u → Reach s u
