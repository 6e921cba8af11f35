-- ===== src/Connection/Thread/Staying.antt =====
-- What a round makes of a connection that is connected, or off
-- (src/tase2_client_connection.cpp).
use fledge_south_tase.Common.{
  Bool, true, false, ltb, ◌≡◌, refl, sym, ap, subst, ◌∙◌, arith, if◌then◌else◌, ◌⊎◌, inl, inr, leb,
}
use fledge_south_tase.Config.{Config}
use fledge_south_tase.Connection.{
  Connection, Library, ConState, idle, connecting, connected, closed, wait_for_reconnect,
  fatal_error,
}
use fledge_south_tase.Connection.Thread.{
  running, con_thread_round, dispatch, disconnect, clean_up, connecting_round, connected_round,
  reconnect_round, execute_periodic_tasks,
}
use fledge_south_tase.Connection.Thread.Failover.{idle_round-SameFlags}
use fledge_south_tase.Connection.Thread.Progress.{not_asked_round}
use fledge_south_tase.Client.Monitor.Failover.{IsOff, disconnect-IsOff}

pub same_running : {c d : Connection} → running c ≡ running d → c ≡ d
same_running h = cc

-- A connection that is not asked to connect is left alone by its thread.
pub con_thread_round-IsOff :
    (l : Library) (config : Config) (c d : Connection)
    → IsOff c
    → con_thread_round l config c ≡ running d
    → IsOff d
con_thread_round-IsOff l config c d off h =
    subst IsOff (same_running (sym (not_asked_round l config c off.asked) ∙ h)) off

-- A connection that is connected stays so, or is off.
abbrev pub IsUp : Connection → Type 0
IsUp c = (c.is_connected ≡ true) ⊎ IsOff c

connecting_round-IsUp :
    (l : Library) (config : Config) (c : Connection)
    → c.is_connected ≡ true
    → IsUp (connecting_round l config c)
unfolding connecting_round
connecting_round-IsUp l config c up =
    go l.endpoint_connected (ltb c.delay_expiration_time l.now) _ refl
  where
    go :
        (b late : Bool) (d : Connection)
        → d.is_connected ≡ true
        → IsUp (if b then d else if late then disconnect c else c)
    go true late d e = inl e
    go false true d e = inr (disconnect-IsOff c)
    go false false d e = inl up

connected_round-IsUp :
    (l : Library) (config : Config) (c : Connection)
    → c.is_connected ≡ true
    → (connected_round l config c).is_connected ≡ true
unfolding connected_round clean_up execute_periodic_tasks
connected_round-IsUp l config c up = ground arith

dispatch-IsUp :
    (s : ConState) (l : Library) (config : Config) (c d : Connection)
    → c.is_connected ≡ true
    → dispatch s l config c ≡ running d
    → IsUp d
unfolding dispatch reconnect_round
dispatch-IsUp idle l config c d up h = inl ((idle_round-SameFlags l config c d h).0 ∙ up)
dispatch-IsUp connecting l config c d up h =
    subst IsUp (same_running h) (connecting_round-IsUp l config c up)
dispatch-IsUp connected l config c d up h =
    inl (ap (λ c. c.is_connected) (sym (same_running h)) ∙ connected_round-IsUp l config c up)
dispatch-IsUp closed l config c d up h = subst IsUp (same_running h) (inl up)
dispatch-IsUp wait_for_reconnect l config c d up h =
    subst IsUp (same_running h) (inl (waited (leb c.delay_expiration_time l.now)))
  where
    waited : (b : Bool) → (if b then record c { state = idle } else c).is_connected ≡ true
    waited true = up
    waited false = up
dispatch-IsUp fatal_error l config c d up h = subst IsUp (same_running h) (inl up)

pub con_thread_round-IsUp :
    (l : Library) (config : Config) (c d : Connection)
    → IsUp c
    → con_thread_round l config c ≡ running d
    → IsUp d
unfolding con_thread_round
con_thread_round-IsUp l config c d (inr off) h = inr (con_thread_round-IsOff l config c d off h)
con_thread_round-IsUp l config c d (inl up) h = go c.connect h
  where
    go : (b : Bool) → (if b then dispatch c.state l config c else running c) ≡ running d → IsUp d
    go true e = dispatch-IsUp c.state l config c d up e
    go false e = subst IsUp (same_running e) (inl up)
