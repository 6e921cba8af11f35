-- ===== src/System/Arbiter.antt =====
-- The monitoring thread and the connections' threads as an arbiter of one line to the peer
-- (src/tase2_client.cpp, src/tase2_client_connection.cpp).
use fledge_south_tase.Common.{
  ℕ, Bool, true, false, Option, none, some, update, ◌≡◌, ◌≢◌, refl, sym, ◌∙◌, subst, arith,
  if◌then◌else◌, inl, inr, Bool-cases, nat_eq, ltb,
}
use fledge_south_tase.Config.{Config}
use fledge_south_tase.Connection.{Connection, Library}
use fledge_south_tase.Connection.Thread.{running, con_thread_round}
use fledge_south_tase.Connection.Thread.Progress.{not_asked_round}
use fledge_south_tase.Client.Monitor.Failover.{IsOff}
use fledge_south_tase.Connection.Thread.Staying.{same_running}
use fledge_south_tase.System.{
  System, Monitor, watching, next, waiting, is_lost, is_over, timeout, ask, drop_connection,
  monitor_step, Step, turn, monitors, Reach, later,
}
use fledge_south_tase.System.Exclusion.{
  IsAllowed, HasStarted, HasStarted-IsExclusive, Reach-IsExclusive,
}

-- The abstract view: who holds the line. It is granted when nobody holds it, released by its
-- holder, and never handed from one connection to another.
pub data Change : Option ℕ → Option ℕ → Type 0 where
  keeps : {o : Option ℕ} → Change o o
  grants : (i : ℕ) → Change none (some i)
  releases : (i : ℕ) → Change (some i) none

abbrev holder_if : ℕ → Bool → Option ℕ
holder_if i asked = if asked then some i else none

-- The holder is the active connection, if it is asked to connect.
abbrev pub holder_of : Option ℕ → (ℕ → Connection) → Option ℕ
holder_of none f = none
holder_of (some i) f = holder_if i (f i).connect

abbrev pub holder : System → Option ℕ
holder s = holder_of s.active s.connections

-- The view is a true one: the holder is asked to connect, and no other connection is.
abbrev pub IsHeldBy : Option ℕ → (ℕ → Connection) → Type 0
IsHeldBy none f = (j : ℕ) → (f j).connect ≡ false
IsHeldBy (some i) f = ((f i).connect ≡ true) × ((j : ℕ) → i ≢ j → (f j).connect ≡ false)

others_off :
    (i : ℕ) (f : ℕ → Connection)
    → ((j : ℕ) → i ≢ j → IsOff (f j))
    → IsHeldBy (holder_if i (f i).connect) f
others_off i f off = go (f i).connect refl
  where
    go : (b : Bool) → (f i).connect ≡ b → IsHeldBy (holder_if i b) f
    go true e = (e, λ j ne. (off j ne).asked)
    go false e = λ j. elim (Bool-cases (nat_eq i j)) [
      | inl same ↦ let e' : i ≡ j = ground arith in subst (λ k. (f k).connect ≡ false) e' e
      | inr other ↦ (off j (λ e'. ground arith)).asked
    ]

all_off : (o : Option ℕ) (f : ℕ → Connection) → ((j : ℕ) → IsOff (f j)) → IsHeldBy (holder_of o f) f
all_off none f off = λ j. (off j).asked
all_off (some i) f off = others_off i f (λ j ne. off j)

IsAllowed-IsHeldBy :
    (m : Monitor) (o : Option ℕ) (f : ℕ → Connection) → IsAllowed m o f → IsHeldBy (holder_of o f) f
IsAllowed-IsHeldBy watching none f off = all_off none f off
IsAllowed-IsHeldBy watching (some a) f (up, off) = others_off a f off
IsAllowed-IsHeldBy (next i) o f off = all_off o f off
IsAllowed-IsHeldBy (waiting i start) o f (e, off) = rw e (others_off i f off)

-- A round does not ask a connection that was not asked.
con_thread_round-connect :
    (l : Library) (config : Config) (c d : Connection)
    → con_thread_round l config c ≡ running d
    → c.connect ≡ false
    → d.connect ≡ false
con_thread_round-connect l config c d h off =
    subst (λ c. c.connect ≡ false) (same_running (sym (not_asked_round l config c off) ∙ h)) off

same_holder :
    (i : ℕ) (b b' : Bool) → (b ≡ false → b' ≡ false) → Change (holder_if i b) (holder_if i b')
same_holder i true true h = keeps
same_holder i true false h = releases i
same_holder i false true h = absurd (cc (h refl))
same_holder i false false h = keeps

turn-Change :
    (config : Config) (l : Library) (f : ℕ → Connection) (i : ℕ) (d : Connection) (o : Option ℕ)
    → con_thread_round l config (f i) ≡ running d
    → Change (holder_of o f) (holder_of o (update f i d))
turn-Change config l f i d none ran = keeps
turn-Change config l f i d (some a) ran = elim (Bool-cases (nat_eq i a)) [
  | inl same ↦
      let e : i ≡ a = ground arith in
      rw same (
        same_holder a (f a).connect d.connect (
          con_thread_round-connect l config (f a) d
            (subst (λ k. con_thread_round l config (f k) ≡ running d) e ran)))
  | inr other ↦ rw other keeps
]

nobody : (o : Option ℕ) (f : ℕ → Connection) → ((j : ℕ) → IsOff (f j)) → holder_of o f ≡ none
nobody none f off = refl
nobody (some i) f off = rw (off i).asked

module _ (config : Config) (now : ℕ) where
  next-Change :
      (s : System) (i : ℕ)
      → ((j : ℕ) → IsOff (s.connections j))
      → (more : Bool)
      → Change (holder s) (holder (if more then ask i now s else record s { monitor = watching }))
  next-Change s i off true = rw (nobody s.active s.connections off, nat_eq_self i) (grants i)
    where
      nat_eq_self : (i : ℕ) → nat_eq i i ≡ true
      nat_eq_self i = ground arith
  next-Change s i off false = keeps

  waiting-Change :
      (s : System) (i : ℕ)
      → s.active ≡ some i
      → (up late : Bool)
      → Change (holder s) (
          holder (
            if up
            then record s { monitor = watching }
            else if late
            then drop_connection i s
            else s))
  waiting-Change s i e true late = keeps
  waiting-Change s i e false true = rw e (same_holder i (s.connections i).connect false (λ h. refl))
  waiting-Change s i e false false = keeps

  watching-Change :
      (s : System) (lost : Bool)
      → Change (holder s) (holder (if lost then record s { monitor = next 0 } else s))
  watching-Change s true = keeps
  watching-Change s false = keeps

  monitor_step-Change :
      (m : Monitor) (s : System)
      → IsAllowed m s.active s.connections
      → Change (holder s) (holder (monitor_step m config now s))
  unfolding monitor_step
  monitor_step-Change watching s h = watching-Change s (is_lost s)
  monitor_step-Change (next i) s h = next-Change s i h (ltb i s.count)
  monitor_step-Change (waiting i start) s (e, off) =
      waiting-Change s i e (s.connections i).is_connected (is_over (timeout config) start now)

step-Change :
    (config : Config) {t u : System}
    → IsAllowed t.monitor t.active t.connections
    → Step config t u
    → Change (holder t) (holder u)
step-Change config {t} h (turn i l d small ran) =
    turn-Change config l t.connections i d t.active ran
step-Change config {t} h (monitors now) = monitor_step-Change config now t.monitor t h

-- Every step of the two kinds of threads, from a state that a client reaches after its start, is a
-- step of the arbiter or none, and the holder of the line is before and after it the only connection
-- that is asked to connect.
pub Change-from :
    (config : Config) {s t u : System}
    → HasStarted s
    → Reach config s t
    → Step config t u
    → Change (holder t) (holder u)
      × IsHeldBy (holder t) t.connections
      × IsHeldBy (holder u) u.connections
Change-from config {s} {t} {u} fresh r k = (
  step-Change config (Reach-IsExclusive config (HasStarted-IsExclusive s fresh) r) k,
  IsAllowed-IsHeldBy t.monitor t.active t.connections
      (Reach-IsExclusive config (HasStarted-IsExclusive s fresh) r),
  IsAllowed-IsHeldBy u.monitor u.active u.connections
      (Reach-IsExclusive config (HasStarted-IsExclusive s fresh) (later r k)),
)
