-- ===== src/System/Stuck.antt =====
-- How a client stays with a connection that is lost (src/tase2_client.cpp,
-- src/tase2_client_connection.cpp).
use fledge_south_tase.Common.{
  ℕ, ◌<◌, true, false, [], some, update, update-each, update_self, ◌≡◌, refl, sym, ap, subst, ◌∙◌,
}
use fledge_south_tase.Config.{Config}
use fledge_south_tase.Connection.{Connection, Library, connected, fatal_error, disconnected}
use fledge_south_tase.Connection.Thread.{running, running-injective, con_thread_round}
use fledge_south_tase.Connection.Thread.Failover.{con_thread_lost, con_thread_round_fatal}
use fledge_south_tase.System.{
  System, watching, monitor_step, Step, turn, monitors, Reach, here, later,
}

-- A connection in the state for a fatal error that does not count as disconnected.
pub record IsDead (c : Connection) : Type 0 where
  pub fatal : c.state ≡ fatal_error
  pub seen : disconnected c ≡ false

-- The monitoring thread watches such a connection.
pub record IsStuck (i : ℕ) (s : System) : Type 0 where
  pub dead : IsDead (s.connections i)
  pub watched : s.monitor ≡ watching
  pub active : s.active ≡ some i

module _ (config : Config) (i : ℕ) where
  turn-IsDead :
      (s : System) (j : ℕ) (l : Library) (d : Connection)
      → con_thread_round l config (s.connections j) ≡ running d
      → IsDead (s.connections i)
      → IsDead (update s.connections j d i)
  turn-IsDead s j l d ran h =
      update-each (λ k c. k ≡ i → IsDead c) s.connections j d
        (λ e.
          subst IsDead
            (running-injective
              (sym (con_thread_round_fatal config l (s.connections j) (still e).fatal) ∙ ran))
            (still e))
        (λ k ne e. subst (λ m. IsDead (s.connections m)) (sym e) h) i refl
    where
      still : {k : ℕ} → k ≡ i → IsDead (s.connections k)
      still e = subst (λ m. IsDead (s.connections m)) (sym e) h

  -- The monitoring thread sees nothing to do.
  watching_step : (now : ℕ) (s : System) → IsStuck i s → monitor_step s.monitor config now s ≡ s
  unfolding monitor_step
  watching_step now s h = rw (h.watched, h.active, h.dead.seen) refl

  Step-IsStuck : {s t : System} → Step config s t → IsStuck i s → IsStuck i t
  Step-IsStuck {s} (turn j l d small ran) h = record {
    dead = turn-IsDead s j l d ran h.dead;
    watched = h.watched;
    active = h.active;
  }
  Step-IsStuck {s} (monitors now) h = subst (IsStuck i) (sym (watching_step now s h)) h

  Reach-IsStuck : {s t : System} → IsStuck i s → Reach config s t → IsStuck i t
  Reach-IsStuck h here = h
  Reach-IsStuck h (later r k) = Step-IsStuck k (Reach-IsStuck h r)

-- What two rounds of the i-th connection's thread leave.
abbrev pub after_two : System → ℕ → Connection → Connection → System
after_two s i d e = record s { connections = update (update s.connections i d) i e }

-- A client fails over no more: if the monitoring thread watches a connection that is connected, and
-- that connection loses its endpoint in one round of its thread and meets a fatal error in the next,
-- then whatever state the threads reach from there on, however they interleave and whatever the
-- library answers, the monitoring thread watches that same connection, which is in the state for a
-- fatal error and does not count as disconnected.
pub lost-IsStuck :
    (config : Config) (l l' : Library) (i : ℕ) (s : System) (d e : Connection) {t : System}
    → i < s.count
    → s.monitor ≡ watching
    → s.active ≡ some i
    → (s.connections i).state ≡ connected
    → (s.connections i).connect ≡ true
    → (s.connections i).is_connected ≡ true
    → l.endpoint_connected ≡ false
    → con_thread_round l config (s.connections i) ≡ running d
    → con_thread_round l' config d ≡ running e
    → e.state ≡ fatal_error
    → Reach config (after_two s i d e) t
    → Reach config s (after_two s i d e) × IsStuck i t
lost-IsStuck config l l' i s d e small m active up asked online lost ran ran' fatal r =
    let (_, _, seen) =
      con_thread_lost config l l' [] (s.connections i) d e up asked online lost ran ran' fatal in
    (
      later (later here (turn i l d small ran)) (
          turn i l' e small
            (ap (con_thread_round l' config) (update_self s.connections i d) ∙ ran')),
      Reach-IsStuck config i
          (record {
            dead =
                subst IsDead (sym (update_self (update s.connections i d) i e))
                  (record { fatal = fatal; seen = seen });
            watched = m;
            active = active;
          })
          r,
    )
