-- ===== src/System/Progress.antt =====
-- How a client that was started comes up (src/tase2_client.cpp,
-- src/tase2_client_connection.cpp).
use fledge_south_tase.Common.{
  ℕ, zero, suc, ◌<◌, ◌≤◌, true, false, List, [], ◌∷◌, map, length, get_elem?, some, lt→ltb,
  update_self, update_other, ◌≡◌, refl, subst, ap, ◌∙◌, arith,
}
use mathlib.Core.Option.{some-injective}
use fledge_south_tase.Common.Int.{ℤ, pos, negsuc}
use fledge_south_tase.Config.{Config, RedGroup}
use fledge_south_tase.Connection.{Connection, Library, connected}
use fledge_south_tase.Connection.Thread.{running, con_thread_round, set_connect, start}
use fledge_south_tase.Client.Monitor.{make_connection}
use fledge_south_tase.System.{
  System, next, waiting, is_over, timeout, drop_connection, ask, monitor_step, Step, monitors,
  Reach, here, later,
}
use fledge_south_tase.System.Launch.{connection_at, system_of}

abbrev TwoRounds : Config → Library → Library → Connection → (Connection → Type 0) → Type 0
TwoRounds config l l' c P =
    (d : Connection) × (e : Connection) × (con_thread_round l config c ≡ running d)
    × (con_thread_round l' config d ≡ running e)
    × P e

abbrev pub IsUpAt : ℕ → System → Type 0
IsUpAt i t =
    ((t.connections i).state ≡ connected)
    × ((t.connections i).is_connected ≡ true)
    × (t.active ≡ some i)

-- The monitoring thread asks the next connection, if there is one.
pub asks :
    (config : Config) (now i : ℕ) (s : System)
    → s.monitor ≡ next i
    → i < s.count
    → Step config s (ask i now s)
unfolding monitor_step
asks config now i s m small = subst (λ u. Step config s u) asked (monitors now)
  where
    asked : monitor_step s.monitor config now s ≡ ask i now s
    asked = rw (m, lt→ltb i s.count small) refl

pub Reach-trans :
    (config : Config) {s t u : System} → Reach config s t → Reach config t u → Reach config s u
Reach-trans config r here = r
Reach-trans config r (later r' k) = later (Reach-trans config r r') k

-- A time at which the wait for a connection is over.
late : ℤ → ℕ
late (pos n) = suc n
late (negsuc n) = 0

is_over-late : (z : ℤ) → is_over z 0 (late z) ≡ true
unfolding late
is_over-late (pos n) = ground arith
is_over-late (negsuc n) = ground arith

-- The monitoring thread is about to ask the i-th connection, and has left those from there on alone.
pub record AtNext (cs : List Connection) (i : ℕ) (t : System) : Type 0 where
  pub monitor : t.monitor ≡ next i
  pub count : t.count ≡ length cs
  pub others : (j : ℕ) → i ≤ j → t.connections j ≡ connection_at cs j

-- A connection that does not come up before the timeout is passed over.
drops :
    (config : Config) (i : ℕ) (s : System)
    → s.monitor ≡ waiting i 0
    → (s.connections i).is_connected ≡ false
    → Step config s (drop_connection i s)
unfolding monitor_step
drops config i s m down = subst (λ u. Step config s u) dropped (monitors (late (timeout config)))
  where
    dropped : monitor_step s.monitor config (late (timeout config)) s ≡ drop_connection i s
    dropped = rw (m, down, is_over-late (timeout config)) refl

passes :
    (config : Config) (cs : List Connection) (i : ℕ) (t : System)
    → i < length cs
    → (connection_at cs i).is_connected ≡ false
    → AtNext cs i t
    → (u : System) × Reach config t u × AtNext cs (suc i) u
passes config cs i t small down h =
    let asked : System = ask i 0 t in
    let c : Connection = set_connect (t.connections i) in
    let still : (asked.connections i).is_connected ≡ false =
      ap (λ c. c.is_connected) (update_self t.connections i c)
      ∙ ap (λ c. c.is_connected) (h.others i (omega arith))
      ∙ down in
    (
      _,
      later (later here (asks config 0 i t h.monitor (omega (arith, h.count))))
          (drops config i asked refl still),
      record {
        monitor = refl;
        count = h.count;
        others = λ j le.
            update_other asked.connections i j _ (λ e. omega arith)
            ∙ update_other t.connections i j _ (λ e. omega arith)
            ∙ h.others j (omega arith);
      },
    )

pub passes_to :
    (config : Config) (cs : List Connection)
    → ((j : ℕ) → (connection_at cs j).is_connected ≡ false)
    → (i : ℕ) → i ≤ length cs
    → (t : System) × Reach config (system_of cs) t × AtNext cs i t
unfolding monitor_step
passes_to config cs down zero le =
    (_, later here (monitors 0), record { monitor = refl; count = refl; others = λ j le. refl })
passes_to config cs down (suc i) le =
    let (t, r, h) = passes_to config cs down i (omega arith) in
    let (u, r', h') = passes config cs i t (omega arith) (down i) h in
    (u, Reach-trans config r r', h')

-- What is known of the i-th connection of a client that was started.
pub started_at :
    (gs : List RedGroup) (i : ℕ) (g : RedGroup)
    → get_elem? gs i ≡ some g
    → let cs = map start (map make_connection gs) in
      (i < length cs) × (connection_at cs i ≡ start (make_connection g))
started_at [] i g at = cc
started_at (h ∷ gs) zero g at =
    (omega arith, ap (λ g. start (make_connection g)) (some-injective _ _ at))
started_at (h ∷ gs) (suc i) g at = let (small, same) = started_at gs i g at in (omega arith, same)
