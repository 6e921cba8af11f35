-- ===== src/Connection/Thread/Cleanup.antt =====
-- cleanUp (src/tase2_client_connection.cpp): what is destroyed, and how often.
pub mod NullClient
use fledge_south_tase.Common.{
  ℕ, Bool, true, false, List, [], ◌∷◌, ◌++◌, map, Option, none, some, ◌≡◌, refl, ap, ◌∙◌,
  if◌then◌else◌,
}
use mathlib.Core.List.{append-nil}
use fledge_south_tase.Config.{Config}
use fledge_south_tase.Connection.{Connection, Call, Library, idle, dsts_destroy, data_set_destroy}
use fledge_south_tase.Connection.Thread.{
  clean_up, connected_round, stop, destroy_client, destroy_tls,
}

-- The handles of the transfer sets that a list of calls destroys, in order.
abbrev pub destroyed_dsts : List Call → List ℕ
destroyed_dsts [] = []
destroyed_dsts (dsts_destroy h ∷ calls) = h ∷ destroyed_dsts calls
destroyed_dsts (_ ∷ calls) = destroyed_dsts calls

pub destroyed_dsts-append :
    (xs ys : List Call) → destroyed_dsts (xs ++ ys) ≡ destroyed_dsts xs ++ destroyed_dsts ys
destroyed_dsts-append [] ys = refl
destroyed_dsts-append (dsts_destroy h ∷ xs) ys = ap (◌∷◌ h) (destroyed_dsts-append xs ys)
destroyed_dsts-append (x ∷ xs) ys = destroyed_dsts-append xs ys

destroyed_dsts-map : (hs : List ℕ) → destroyed_dsts (map dsts_destroy hs) ≡ hs
destroyed_dsts-map [] = refl
destroyed_dsts-map (h ∷ hs) = ap (◌∷◌ h) (destroyed_dsts-map hs)

destroyed_dsts-data_sets : (hs : List ℕ) → destroyed_dsts (map data_set_destroy hs) ≡ []
destroyed_dsts-data_sets [] = refl
destroyed_dsts-data_sets (h ∷ hs) = destroyed_dsts-data_sets hs

destroyed_dsts-rest :
    (e t : Option ℕ) (client : Option ℕ)
    → destroyed_dsts (destroy_client e client ++ destroy_tls t) ≡ []
destroyed_dsts-rest none none client = refl
destroyed_dsts-rest none (some t) client = refl
destroyed_dsts-rest (some e) none client = refl
destroyed_dsts-rest (some e) (some t) client = refl

-- cleanUp destroys every transfer set of the vector, keeps the vector, and leaves no endpoint.
pub clean_up-destroyed_dsts :
    (c : Connection)
    → (destroyed_dsts (clean_up c).calls ≡ destroyed_dsts c.calls ++ c.dsts)
      × ((clean_up c).dsts ≡ c.dsts)
      × ((clean_up c).endpoint ≡ none)
      × ((clean_up c).started ≡ c.started)
unfolding clean_up
clean_up-destroyed_dsts c = (
  rw (
    destroyed_dsts-append c.calls _,
    destroyed_dsts-append (map dsts_destroy c.dsts) _,
    destroyed_dsts-append (map data_set_destroy c.datasets) _,
    destroyed_dsts-map c.dsts,
    destroyed_dsts-data_sets c.datasets,
    destroyed_dsts-rest c.endpoint c.tls_config c.tase2client,
    append-nil,
  ),
  refl,
  refl,
  refl,
)

stop-destroyed_dsts :
    (c : Connection)
    → c.started ≡ true
    → destroyed_dsts (stop c).calls ≡ destroyed_dsts c.calls ++ c.dsts
stop-destroyed_dsts c running = go c.started running
  where
    go :
        (b : Bool)
        → b ≡ true
        → destroyed_dsts (if b then clean_up (record c { started = false }) else c).calls
          ≡ destroyed_dsts c.calls ++ c.dsts
    go true e = (clean_up-destroyed_dsts (record c { started = false })).0
    go false e = cc

-- A connection whose connected round finds the endpoint lost, and whose thread is stopped right after
-- that round, destroys every transfer set that it keeps twice, first in the round and then in the
-- stop.
pub stop-connected_round-destroyed_dsts :
    (l : Library) (config : Config) (c : Connection)
    → c.started ≡ true
    → l.endpoint_connected ≡ false
    → destroyed_dsts (stop (connected_round l config c)).calls
      ≡ (destroyed_dsts c.calls ++ c.dsts) ++ c.dsts
unfolding connected_round
stop-connected_round-destroyed_dsts l config c running lost =
    let (calls, dsts, _, started) = clean_up-destroyed_dsts c in
    rw (
      lost,
      stop-destroyed_dsts (record (clean_up c) { state = idle }) (started ∙ running),
      dsts,
      calls,
    )
