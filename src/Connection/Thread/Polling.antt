-- ===== src/Connection/Thread/Polling.antt =====
-- executePeriodicTasks (src/tase2_client_connection.cpp): when the polled points are read.
pub mod Rate
use fledge_south_tase.Common.{
  ℕ, suc, ◌+◌, ◌≤◌, ◌<◌, Bool, false, ◌&&◌, List, [], ◌∷◌, ◌≡◌, refl, arith, ltb, leb, le→leb, All,
}
use fledge_south_tase.Common.Int.{pos}
use fledge_south_tase.Config.{Config}
use fledge_south_tase.Connection.{Connection, Library, handle_all_values, record_call}
use fledge_south_tase.Connection.Thread.{execute_periodic_tasks, positive}

-- The tasks run round after round.
pub run_tasks : Config → List Library → Connection → Connection
run_tasks config [] c = c
run_tasks config (l ∷ ls) c = run_tasks config ls (execute_periodic_tasks l config c)

-- Before its time a round does nothing.
run_tasks_early :
    (config : Config) (ls : List Library) (c : Connection)
    → All (λ l. l.now < c.next_polling_time) ls
    → run_tasks config ls c ≡ c
unfolding run_tasks execute_periodic_tasks
run_tasks_early config [] c h = refl
run_tasks_early config (l ∷ ls) c (early, h) =
    rw (waits (ltb 0 (positive config.polling_interval)) early) (run_tasks_early config ls c h)
  where
    waits : (b : Bool) → l.now < c.next_polling_time → (b && leb c.next_polling_time l.now) ≡ false
    waits b e = ground arith

pub execute_periodic_tasks_due :
    (config : Config) (l : Library) (c : Connection) (n : ℕ)
    → config.polling_interval ≡ pos (suc n)
    → c.next_polling_time ≤ l.now
    → execute_periodic_tasks l config c
      ≡ record (record_call c handle_all_values) { next_polling_time = l.now + suc n }
unfolding execute_periodic_tasks
execute_periodic_tasks_due config l c n e due =
    rw (e, le→leb c.next_polling_time l.now due) (ground arith)

-- With a positive interval, a round at or after the planned time polls once and plans the next
-- poll one interval later, and none of the rounds before that time polls.
pub run_tasks_once :
    (config : Config) (l : Library) (ls : List Library) (c : Connection) (interval : ℕ)
    → config.polling_interval ≡ pos (suc interval)
    → c.next_polling_time ≤ l.now
    → All (λ later. later.now < l.now + suc interval) ls
    → run_tasks config (l ∷ ls) c
      ≡ record (record_call c handle_all_values) { next_polling_time = l.now + suc interval }
unfolding run_tasks
run_tasks_once config l ls c n e due early =
    rw (execute_periodic_tasks_due config l c n e due) (run_tasks_early config ls _ early)
