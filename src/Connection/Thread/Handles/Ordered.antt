-- ===== src/Connection/Thread/Handles/Ordered.antt =====
-- The round of the idle state keeps the history of endpoints and clients in order
-- (src/tase2_client_connection.cpp).
use fledge_south_tase.Common.{
  ℕ, Bool, true, false, [], ◌∷◌, ◌++◌, Option, none, some, ◌≡◌, refl, sym, subst, if◌then◌else◌,
}
use mathlib.Core.List.{append-nil}
use fledge_south_tase.Config.{Config}
use fledge_south_tase.Connection.{
  Connection, Library, idle, connecting, fatal_error, client_connect,
}
use fledge_south_tase.Connection.Prepare.{Prepared, prepared, null_dereference, prepare_connection}
use fledge_south_tase.Connection.Thread.{
  connect_client-begun, running-injective, running, destroy_endpoint, without_endpoint, osi_again,
  start_connecting, idle_round,
}
use fledge_south_tase.Connection.Thread.Handles.{events, InOrder}
use fledge_south_tase.Connection.Thread.Handles.Rounds.{prepare_connection-OrderedIf, OrderedIf}
use fledge_south_tase.Connection.Thread.Handles.Quiet.{
  IsQuiet-append, events-quiet, osi_again-IsQuiet,
}

-- The history is in order, up to the endpoint that is held; a connection that rests holds none.
pub record IsOrdered (c : Connection) : Type 0 where
  pub history : InOrder (events c.calls) c.endpoint
  pub resting : c.state ≡ idle → c.endpoint ≡ none

quiet_end-events :
    (c : Connection)
    → events (c.calls ++ (osi_again c ++ client_connect c.tase2client ∷ [])) ≡ events c.calls
unfolding events
quiet_end-events c = events-quiet c.calls _ (
    IsQuiet-append (osi_again c) (client_connect c.tase2client ∷ []) (osi_again-IsQuiet c)
      (record { quiet = refl }))

-- The round that goes over to connecting.
start_connecting-IsOrdered :
    (l : Library) (p : Prepared)
    → OrderedIf p
    → (d : Connection) → start_connecting l p ≡ running d
    → IsOrdered d
start_connecting-IsOrdered l (prepared c true) h d ran =
    subst IsOrdered (connect_client-begun l c d c.endpoint c.tase2client ran) (record {
      history = subst (λ es. InOrder es c.endpoint) (sym (quiet_end-events c)) h;
      resting = λ e. absurd (not_idle l.error_is_ok e);
    })
  where
    not_idle : (b : Bool) → (if b then connecting else fatal_error) ≡ idle → ⊥
    not_idle true e = cc
    not_idle false e = cc
start_connecting-IsOrdered l (prepared c false) h d ran =
    subst IsOrdered (running-injective ran) (record { history = h; resting = λ e. cc })
start_connecting-IsOrdered l (null_dereference c) h d ran = cc

pub idle_round-IsOrdered :
    (l : Library) (config : Config) (c d : Connection)
    → c.state ≡ idle
    → IsOrdered c
    → idle_round l config c ≡ running d
    → IsOrdered d
unfolding idle_round
idle_round-IsOrdered l config c d e h ran =
    start_connecting-IsOrdered l (prepare_connection l config (without_endpoint c))
      (prepare_connection-OrderedIf l config (without_endpoint c) refl
        (without c.endpoint (h.resting e) h.history))
      d ran
  where
    without :
        (o : Option ℕ)
        → o ≡ none
        → InOrder (events c.calls) o
        → InOrder (events (c.calls ++ destroy_endpoint o)) none
    without none e h = subst (λ calls. InOrder (events calls) none) (sym (append-nil c.calls)) h
    without (some n) e h = absurd (cc (e))
