-- ===== src/Client/Monitor/Failover.antt =====
-- Which connection the monitoring thread settles on (src/tase2_client.cpp).
use fledge_south_tase.Common.{
  ℕ, suc, ◌+◌, Bool, true, false, List, [], ◌∷◌, ◌++◌, Option, none, some, ◌≡◌, refl, ap, arith,
  if◌then◌else◌, All, length,
}
use fledge_south_tase.Connection.{Connection, idle}
use fledge_south_tase.Connection.Thread.{disconnect, clean_up, set_connect}
use fledge_south_tase.Client.Monitor.{try_connections}

-- A connection that is not asked to connect, and rests.
pub record IsOff (c : Connection) : Type 0 where
  pub asked : c.connect ≡ false
  pub connected : c.is_connected ≡ false
  pub connecting : c.is_connecting ≡ false
  pub state : c.state ≡ idle

pub disconnect-IsOff : (c : Connection) → IsOff (disconnect c)
unfolding disconnect clean_up
disconnect-IsOff c = record { asked = refl; connected = refl; connecting = refl; state = refl }

module _ (wait : ℕ → Connection → Connection) where
  -- None of the connections that were tried, the i-th and those behind it, was found connected after
  -- the wait for it.
  abbrev pub NoneUp : ℕ → List Connection → Type 0
  NoneUp i [] = Unit {0}
  NoneUp i (c ∷ cs) = ((wait i (set_connect c)).is_connected ≡ false) × NoneUp (suc i) cs

  -- What a pass that started at the i-th connection leaves: none found connected and all off, or the
  -- j-th, active and as the wait left it, found connected, those before it not found connected and
  -- off, and those behind it as they were.
  abbrev pub IsSettled : ℕ → List Connection → List Connection × Option ℕ → Type 0
  IsSettled i cs (ds, none) = All IsOff ds × (length ds ≡ length cs) × NoneUp i cs
  IsSettled i cs (ds, some j) =
      (front : List Connection) × (c : Connection) × (back : List Connection) × (before : List
        Connection)
      × (cs ≡ front ++ c ∷ back)
      × (ds ≡ before ++ wait j (set_connect c) ∷ back)
      × (length before ≡ length front)
      × (j ≡ i + length front)
      × All IsOff before
      × NoneUp i front
      × ((wait j (set_connect c)).is_connected ≡ true)

  off_first :
      (i : ℕ) (d c : Connection) (cs : List Connection) (r : List Connection × Option ℕ)
      → IsOff d
      → (wait i (set_connect c)).is_connected ≡ false
      → IsSettled (suc i) cs r
      → IsSettled i (c ∷ cs) (d ∷ r.0, r.1)
  off_first i d c cs (ds, none) o down (all, n, up) = ((o, all), ap suc n, (down, up))
  off_first i d c cs (ds, some j) o down (front, a, back, before, e, e', n, at, all, up, on) = (
    c ∷ front,
    a,
    back,
    d ∷ before,
    ap (λ l. c ∷ l) e,
    ap (λ l. d ∷ l) e',
    ap suc n,
    omega (arith, at),
    (o, all),
    (down, up),
    on,
  )

  settle :
      (i : ℕ) (c : Connection) (cs : List Connection) (r : List Connection × Option ℕ) (b : Bool)
      → (wait i (set_connect c)).is_connected ≡ b
      → IsSettled (suc i) cs r
      → IsSettled i (c ∷ cs) (
          if b
          then (wait i (set_connect c) ∷ cs, some i)
          else (disconnect (wait i (set_connect c)) ∷ r.0, r.1))
  settle i c cs r true on h = ([], c, cs, [], refl, refl, refl, omega arith, tt, tt, on)
  settle i c cs r false off h =
      off_first i (disconnect (wait i (set_connect c))) c cs r (disconnect-IsOff _) off h

  -- Whatever the connections' threads do while the monitoring thread waits, a pass over them
  -- settles: either it finds none connected after its wait, and leaves every connection off, or the
  -- active one is the first that was found connected after its wait, and stays as that wait left it,
  -- those before it are off, and those behind it were not touched.
  pub try_connections-IsSettled :
      (i : ℕ) (cs : List Connection) → IsSettled i cs (try_connections wait i cs)
  unfolding try_connections
  try_connections-IsSettled i [] = (tt, refl, tt)
  try_connections-IsSettled i (c ∷ cs) =
      settle i c cs _ (wait i (set_connect c)).is_connected refl
        (try_connections-IsSettled (suc i) cs)
