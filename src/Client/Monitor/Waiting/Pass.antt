-- ===== src/Client/Monitor/Waiting/Pass.antt =====
-- A pass of the monitoring thread over the connections, with the loop in which it waits for each
-- (src/tase2_client.cpp).
use fledge_south_tase.Common.{
  ℕ, zero, suc, ◌+◌, ◌*◌, ◌/◌, ◌≤◌, ◌<◌, Bool, true, false, List, [], ◌∷◌, length, Option, none,
  some, ◌≡◌, refl, ap, ◌∙◌, if◌then◌else◌,
}
use mathlib.Core.Option.{some-injective}
use fledge_south_tase.Common.Int.{ℤ, pos}
use fledge_south_tase.Connection.{Connection}
use fledge_south_tase.Connection.Thread.{set_connect}
use fledge_south_tase.Client.Monitor.{try_connections}
use fledge_south_tase.Client.Monitor.Waiting.{Sights, wait_connected, EndsAt, wait_connected-EndsAt}

-- The pass goes on behind a connection that did not come up.
abbrev pub after_wait : Option Bool → ℕ → Option (Option ℕ) → Option (Option ℕ)
after_wait none i later = none
after_wait (some true) i later = some (some i)
after_wait (some false) i later = later

-- The pass over `more` connections from the i-th on: the one that came up, if any. `start` and `seen`
-- say when the wait for a connection begins and what its tests meet; the outer `none` means that the
-- fuel ran out.
unfoldable pub try_each : ℕ → ℤ → (ℕ → ℕ) → (ℕ → Sights) → ℕ → ℕ → Option (Option ℕ)
try_each fuel timeout start seen i zero = some none
try_each fuel timeout start seen i (suc more) =
    let later = try_each fuel timeout start seen (suc i) more in
    after_wait (wait_connected fuel timeout (start i) (seen i) 0) i later

module _ (n : ℕ) (start : ℕ → ℕ) (seen : ℕ → Sights) where
  -- The wait for the i-th connection ended after few tests, with this answer.
  pub record Waited (i : ℕ) (up : Bool) : Type 0 where
    pub test : ℕ
    pub few : test < n / 10 + 2
    pub ends : EndsAt n (start i) (seen i) (some up) test

  -- The first that came up, behind those that did not.
  pub data IsFirst : ℕ → ℕ → Option ℕ → Type 0 where
    nobody : {i : ℕ} → IsFirst i 0 none
    came_up : {i more : ℕ} → Waited i true → IsFirst i (suc more) (some i)
    passed :
        {i more : ℕ} {r : Option ℕ}
        → Waited i false
        → IsFirst (suc i) more r
        → IsFirst i (suc more) r

  module _ (clock : (i k : ℕ) → start i + 10 * k ≤ (seen i k).0) where
    waited :
        (i : ℕ)
        → (up : Bool) × (wait_connected (n / 10 + 2) (pos n) (start i) (seen i) 0 ≡ some up)
          × Waited i up
    waited i =
        let (k, few, (e, quiet, end)) = wait_connected-EndsAt n (start i) (seen i) (clock i) in
        ((seen i k).1, e, record { test = k; few = few; ends = (refl, quiet, end) })

    found :
        (i more : ℕ) (up : Bool) (o : Option (Option ℕ)) (r : Option ℕ)
        → Waited i up
        → o ≡ some r
        → IsFirst (suc i) more r
        → (r' : Option ℕ) × (after_wait (some up) i o ≡ some r') × IsFirst i (suc more) r'
    found i more true o r w e h = (some i, refl, came_up w)
    found i more false o r w e h = (r, e, passed w h)

    -- If the clock has advanced by ten milliseconds at least from each test of a waiting loop to the
    -- next, since the loop sleeps that long, a pass over the connections ends, whatever they do: for a
    -- timeout of n milliseconds each loop makes at most n / 10 + 2 tests, the pass ends at the first connection that a test finds up, and for every
    -- connection before it, or for all if there is none, no test found it up and the last one came
    -- later than the timeout.
    pub try_each-IsFirst :
        (i more : ℕ)
        → (r : Option ℕ) × (try_each (n / 10 + 2) (pos n) start seen i more ≡ some r)
          × IsFirst i more r
    unfolding try_each
    try_each-IsFirst i zero = (none, refl, nobody)
    try_each-IsFirst i (suc more) =
        let (up, e, w) = waited i in
        let (r, e', h) = try_each-IsFirst (suc i) more in
        let (r', e'', h') = found i more up _ r w e' h in
        (
          r',
          ap (λ o. after_wait o i (try_each (n / 10 + 2) (pos n) start seen (suc i) more)) e ∙ e'',
          h',
        )

-- The pass with its waiting loops picks the connection that the pass over a list picks, where the
-- wait for a connection leaves its flag as the loop's last test saw it.
module _ (fuel : ℕ) (timeout : ℤ) (start : ℕ → ℕ) (seen : ℕ → Sights)
    (wait : ℕ → Connection → Connection)
    (flag : (i : ℕ) (c : Connection) (up : Bool)
      → wait_connected fuel timeout (start i) (seen i) 0 ≡ some up
      → (wait i c).is_connected ≡ up) where
  pick :
      (i : ℕ) (c : Connection) (o : Option Bool) (later : Option (Option ℕ))
      (up off rest : List Connection × Option ℕ) (r : Option ℕ)
      → wait_connected fuel timeout (start i) (seen i) 0 ≡ o
      → after_wait o i later ≡ some r
      → up.1 ≡ some i
      → off.1 ≡ rest.1
      → (later ≡ some r → rest.1 ≡ r)
      → (if◌then◌else◌ {A = List Connection × Option ℕ} (wait i c).is_connected up off).1 ≡ r
  pick i c none later up off rest r w e p q h = cc
  pick i c (some true) later up off rest r w e p q h =
      rw (flag i c true w) (p ∙ some-injective _ _ e)
  pick i c (some false) later up off rest r w e p q h = rw (flag i c false w) (q ∙ h e)

  pub try_connections-try_each :
      (i : ℕ) (cs : List Connection) (r : Option ℕ)
      → try_each fuel timeout start seen i (length cs) ≡ some r
      → (try_connections wait i cs).1 ≡ r
  unfolding try_each try_connections
  try_connections-try_each i [] r e = some-injective _ _ e
  try_connections-try_each i (c ∷ cs) r e =
      pick i (set_connect c) _ (try_each fuel timeout start seen (suc i) (length cs)) _ _
        (try_connections wait (suc i) cs) r refl e refl refl (try_connections-try_each (suc i) cs r)
