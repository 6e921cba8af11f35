-- ===== src/System/Exclusion.antt =====
-- Which connections can be asked to connect at the same time (src/tase2_client.cpp,
-- src/tase2_client_connection.cpp).
use fledge_south_tase.Common.{
  ℕ, Bool, true, false, Option, none, some, ltb, update, update-each, ◌≡◌, ◌≢◌, refl, sym, ap,
  subst, ◌∙◌, arith, if◌then◌else◌, inl, inr, Bool-cases, nat_eq,
}
use fledge_south_tase.Config.{Config}
use fledge_south_tase.Connection.{Connection, Library, disconnected}
use fledge_south_tase.Connection.Thread.{running, con_thread_round, disconnect, set_connect}
use fledge_south_tase.Client.Monitor.Failover.{IsOff, disconnect-IsOff}
use fledge_south_tase.Connection.Thread.Staying.{
  IsUp, con_thread_round-IsOff, con_thread_round-IsUp,
}
use fledge_south_tase.System.{
  System, Monitor, watching, next, waiting, is_lost, is_over, timeout, ask, drop_connection,
  monitor_step, Step, turn, monitors, Reach, here, later,
}

-- What holds of the connections, by where the monitoring thread stands.
abbrev pub IsAllowed : Monitor → Option ℕ → (ℕ → Connection) → Type 0
IsAllowed watching none f = (j : ℕ) → IsOff (f j)
IsAllowed watching (some a) f = IsUp (f a) × ((j : ℕ) → a ≢ j → IsOff (f j))
IsAllowed (next i) o f = (j : ℕ) → IsOff (f j)
IsAllowed (waiting i start) o f = (o ≡ some i) × ((j : ℕ) → i ≢ j → IsOff (f j))

abbrev pub IsExclusive : System → Type 0
IsExclusive s = IsAllowed s.monitor s.active s.connections

-- A round of one connection's thread.
module _ (config : Config) (l : Library) (f : ℕ → Connection) (i : ℕ) (d : Connection)
    (ran : con_thread_round l config (f i) ≡ running d) where
  turn-IsOff : ((j : ℕ) → IsOff (f j)) → (j : ℕ) → IsOff (update f i d j)
  turn-IsOff off =
      update-each (λ j c. IsOff c) f i d (con_thread_round-IsOff l config (f i) d (off i) ran)
        (λ j ne. off j)

  turn_others : (a : ℕ) → ((j : ℕ) → a ≢ j → IsOff (f j)) → (j : ℕ) → a ≢ j → IsOff (update f i d j)
  turn_others a off =
      update-each (λ j c. a ≢ j → IsOff c) f i d
        (λ ne. con_thread_round-IsOff l config (f i) d (off i ne) ran) (λ j ne. off j)

  turn-IsUp : (a : ℕ) → IsUp (f a) → IsUp (update f i d a)
  turn-IsUp a up =
      update-each (λ j c. a ≡ j → IsUp c) f i d
        (λ e. con_thread_round-IsUp l config (f i) d (subst (λ k. IsUp (f k)) e up) ran)
        (λ j ne e. subst (λ k. IsUp (f k)) e up) a refl

  turn-IsAllowed : (m : Monitor) (o : Option ℕ) → IsAllowed m o f → IsAllowed m o (update f i d)
  turn-IsAllowed watching none h = turn-IsOff h
  turn-IsAllowed watching (some a) (up, off) = (turn-IsUp a up, turn_others a off)
  turn-IsAllowed (next k) o h = turn-IsOff h
  turn-IsAllowed (waiting k start) o (e, off) = (e, turn_others k off)

everywhere :
    (f : ℕ → Connection) (a : ℕ)
    → IsOff (f a)
    → ((j : ℕ) → a ≢ j → IsOff (f j))
    → (j : ℕ) → IsOff (f j)
everywhere f a here_off off j = elim (Bool-cases (nat_eq a j)) [
  | inl same ↦ let e : a ≡ j = ground arith in subst (λ k. IsOff (f k)) e here_off
  | inr other ↦ off j (λ e. ground arith)
]

-- A connection that is up and disconnected is off.
IsUp-disconnected : (c : Connection) → IsUp c → disconnected c ≡ true → IsOff c
IsUp-disconnected c (inl up) lost = ground arith
IsUp-disconnected c (inr off) lost = off

module _ (config : Config) (now : ℕ) where
  watching_step :
      (s : System) (o : Option ℕ)
      → s.active ≡ o
      → s.monitor ≡ watching
      → IsAllowed watching o s.connections
      → (lost : Bool) → lost ≡ (elim o [ none ↦ true | some i ↦ disconnected (s.connections i) ])
      → IsExclusive (if lost then record s { monitor = next 0 } else s)
  watching_step s none e m off true k = off
  watching_step s none e m off false k = cc
  watching_step s (some a) e m (up, off) true k =
      everywhere s.connections a (IsUp-disconnected _ up (sym k)) off
  watching_step s (some a) e m (up, off) false k = rw (m, e) (up, off)

  next_step :
      (s : System) (i : ℕ) (o : Option ℕ)
      → s.active ≡ o
      → ((j : ℕ) → IsOff (s.connections j))
      → (more : Bool) → IsExclusive (if more then ask i now s else record s { monitor = watching })
  next_step s i o e off true = (
    refl,
    update-each (λ j c. i ≢ j → IsOff c) s.connections i (set_connect (s.connections i))
        (λ ne. absurd (ne refl)) (λ j ne ne'. off j),
  )
  next_step s i none e off false = rw e off
  next_step s i (some a) e off false = rw e (inr (off a), λ j ne. off j)

  waiting_step :
      (s : System) (i start : ℕ)
      → s.monitor ≡ waiting i start
      → IsAllowed (waiting i start) s.active s.connections
      → (up late : Bool) → (s.connections i).is_connected ≡ up
      → IsExclusive
          (if up then record s { monitor = watching } else if late then drop_connection i s else s)
  waiting_step s i start m (e, off) true late up = rw e (inl up, off)
  waiting_step s i start m (e, off) false true up =
      update-each (λ j c. IsOff c) s.connections i (disconnect (s.connections i))
        (disconnect-IsOff _) off
  waiting_step s i start m (e, off) false false up = rw m (e, off)

  monitor_step-IsExclusive :
      (m : Monitor) (s : System)
      → s.monitor ≡ m
      → IsAllowed m s.active s.connections
      → IsExclusive (monitor_step m config now s)
  unfolding monitor_step
  monitor_step-IsExclusive watching s e h = watching_step s s.active refl e h (is_lost s) refl
  monitor_step-IsExclusive (next i) s e h = next_step s i s.active refl h (ltb i s.count)
  monitor_step-IsExclusive (waiting i start) s e h =
      waiting_step s i start e h (s.connections i).is_connected (is_over (timeout config) start now)
        refl

pub Step-IsExclusive :
    (config : Config) {s t : System} → Step config s t → IsExclusive s → IsExclusive t
Step-IsExclusive config {s} (turn i l d small ran) h =
    turn-IsAllowed config l s.connections i d ran s.monitor s.active h
Step-IsExclusive config {s} (monitors now) h =
    monitor_step-IsExclusive config now s.monitor s refl h

pub Reach-IsExclusive :
    (config : Config) {s t : System} → IsExclusive s → Reach config s t → IsExclusive t
Reach-IsExclusive config h here = h
Reach-IsExclusive config h (later r k) = Step-IsExclusive config k (Reach-IsExclusive config h r)

-- A client whose monitoring thread has not begun yet.
abbrev pub HasStarted : System → Type 0
HasStarted s = (s.monitor ≡ watching) × (s.active ≡ none) × ((j : ℕ) → IsOff (s.connections j))

pub HasStarted-IsExclusive : (s : System) → HasStarted s → IsExclusive s
HasStarted-IsExclusive s (m, o, off) = rw (m, o) off

only_active :
    (m : Monitor) (o : Option ℕ) (f : ℕ → Connection) (i : ℕ)
    → IsAllowed m o f
    → disconnected (f i) ≡ false
    → o ≡ some i
only_active watching none f i off busy = ground (arith, (off i).connected, (off i).connecting)
only_active (next k) o f i off busy = ground (arith, (off i).connected, (off i).connecting)
only_active watching (some a) f i (up, off) busy = elim (Bool-cases (nat_eq a i)) [
  | inl same ↦ ap some (ground arith)
  | inr other ↦
      let rest : IsOff (f i) = off i (λ e. ground arith) in
      ground (arith, rest.connected, rest.connecting)
]
only_active (waiting k start) o f i (e, off) busy = elim (Bool-cases (nat_eq k i)) [
  | inl same ↦ e ∙ ap some (ground arith)
  | inr other ↦
      let rest : IsOff (f i) = off i (λ e. ground arith) in
      ground (arith, rest.connected, rest.connecting)
]

-- However the rounds of the connections and the monitoring thread interleave, and whatever the
-- library and the clock answer, a client has at most one connection that is connected or
-- connecting, and that is the active one. This is so from a state on in which the monitoring thread
-- has chosen none and every connection is off.
pub only_active_from :
    (config : Config) {s t : System} (i : ℕ)
    → HasStarted s
    → Reach config s t
    → disconnected (t.connections i) ≡ false
    → t.active ≡ some i
only_active_from config {s} {t} i fresh r busy =
    only_active t.monitor t.active t.connections i
      (Reach-IsExclusive config (HasStarted-IsExclusive s fresh) r) busy
