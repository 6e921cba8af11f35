-- ===== src/Connection/Thread/Polling/Rate.antt =====
-- How often executePeriodicTasks polls (src/tase2_client_connection.cpp).
use fledge_south_tase.Common.{
  ℕ, suc, ◌+◌, ◌≤◌, false, List, [], ◌∷◌, ◌++◌, leb, leb→le, ◌≡◌, refl, ap, subst, sym, arith, inl,
  inr, Bool-cases, nat_eq, if◌then◌else◌,
}
use fledge_south_tase.Common.Int.{pos}
use fledge_south_tase.Config.{Config}
use fledge_south_tase.Connection.{Connection, Call, Library, handle_all_values, record_call}
use fledge_south_tase.Connection.Thread.{execute_periodic_tasks}
use fledge_south_tase.Connection.Thread.Polling.{execute_periodic_tasks_due}

-- The polls among the calls.
unfoldable pub polls : List Call → ℕ
polls [] = 0
polls (handle_all_values ∷ calls) = suc (polls calls)
polls (_ ∷ calls) = polls calls

polls_one_more : (calls : List Call) → polls (calls ++ handle_all_values ∷ []) ≡ suc (polls calls)
unfolding polls
polls_one_more [] = refl
polls_one_more (handle_all_values ∷ calls) = ap suc (polls_one_more calls)
polls_one_more (_ ∷ calls) = polls_one_more calls

-- The times of the rounds that poll, seen from the calls that they add.
unfoldable pub poll_times : Config → List Library → Connection → List ℕ
poll_times config [] c = []
poll_times config (l ∷ ls) c =
    let d = execute_periodic_tasks l config c in
    let rest = poll_times config ls d in
    if nat_eq (polls d.calls) (polls c.calls) then rest else l.now ∷ rest

-- Each round comes at most `gap` after the one before it, the first one after `t`.
abbrev pub IsPaced : ℕ → ℕ → List Library → Type 0
IsPaced gap t [] = Unit {0}
IsPaced gap t (l ∷ ls) = (l.now ≤ t + gap) × IsPaced gap l.now ls

-- The time of the last round.
abbrev pub last_round : ℕ → List Library → ℕ
last_round t [] = t
last_round t (l ∷ ls) = last_round l.now ls

-- From a planned time on, each poll comes not before its planned time and at most `gap` after it, and
-- the next one is planned one interval after it; the last round is not behind the time that is then
-- planned.
abbrev pub IsSpaced : ℕ → ℕ → ℕ → List ℕ → ℕ → Type 0
IsSpaced interval gap planned [] last = last ≤ planned
IsSpaced interval gap planned (t ∷ ts) last =
    (planned ≤ t) × (t ≤ planned + gap) × IsSpaced interval gap (t + interval) ts last

module _ (config : Config) (n : ℕ) (interval : config.polling_interval ≡ pos (suc n))
    (gap : ℕ) where
  early_tasks :
      (l : Library) (c : Connection)
      → leb c.next_polling_time l.now ≡ false
      → execute_periodic_tasks l config c ≡ c
  unfolding execute_periodic_tasks
  early_tasks l c early = ground arith

  abbrev polled : Library → Connection → Connection
  polled l c = record (record_call c handle_all_values) { next_polling_time = l.now + suc n }

  -- A round before the planned time polls nothing.
  early_times :
      (l : Library) (ls : List Library) (c : Connection)
      → leb c.next_polling_time l.now ≡ false
      → poll_times config (l ∷ ls) c ≡ poll_times config ls c
  unfolding poll_times
  early_times l ls c early = rw (early_tasks l c early) (same (polls c.calls))
    where
      same :
          (k : ℕ)
          → (if nat_eq k k then poll_times config ls c else l.now ∷ poll_times config ls c)
            ≡ poll_times config ls c
      same k = ground arith

  -- One that is due polls.
  due_times :
      (l : Library) (ls : List Library) (c : Connection)
      → c.next_polling_time ≤ l.now
      → poll_times config (l ∷ ls) c ≡ l.now ∷ poll_times config ls (polled l c)
  unfolding poll_times
  due_times l ls c due =
      rw (execute_periodic_tasks_due config l c n interval due, polls_one_more c.calls)
        (other (polls c.calls) _)
    where
      other : (k : ℕ) (ts : List ℕ) → (if nat_eq (suc k) k then ts else l.now ∷ ts) ≡ l.now ∷ ts
      other k ts = ground arith

  -- With a positive interval, if each round of the tasks comes at most a gap after the one before it,
  -- the first one at most a gap after some time that is not behind the planned one: no poll comes
  -- before it is planned, each one at most a gap after it is planned, the next one is always planned
  -- one interval after the last, so that between two polls there are an interval at least and an
  -- interval and a gap at most; and after the last round no poll is overdue.
  pub poll_times-IsSpaced :
      (t : ℕ) (ls : List Library) (c : Connection)
      → IsPaced gap t ls
      → t ≤ c.next_polling_time
      → IsSpaced (suc n) gap c.next_polling_time (poll_times config ls c) (last_round t ls)
  unfolding poll_times
  poll_times-IsSpaced t [] c h lo = lo
  poll_times-IsSpaced t (l ∷ ls) c (near, h) lo =
      elim (Bool-cases (leb c.next_polling_time l.now)) [
        | inl due ↦
            let at : c.next_polling_time ≤ l.now = leb→le c.next_polling_time l.now due in
            subst (λ ts. IsSpaced (suc n) gap c.next_polling_time ts (last_round l.now ls))
              (sym (due_times l ls c at))
              (at, omega arith, poll_times-IsSpaced l.now ls (polled l c) h (omega arith))
        | inr early ↦
            subst (λ ts. IsSpaced (suc n) gap c.next_polling_time ts (last_round l.now ls))
              (sym (early_times l ls c early)) (poll_times-IsSpaced l.now ls c h (ground arith))
      ]
