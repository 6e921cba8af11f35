-- ===== src/Connection/Thread/Handles/Rounds.antt =====
-- prepareConnection and cleanUp keep the history of endpoints and clients in order
-- (src/tase2_client_connection.cpp).
use fledge_south_tase.Common.{
  ℕ, Bool, true, false, List, [], ◌∷◌, ◌++◌, map, Option, none, some, ◌≡◌, refl, sym, ap, subst,
  ◌∙◌, if◌then◌else◌,
}
use mathlib.Core.List.{append-nil, append_assoc}
use fledge_south_tase.Config.{Config, OsiParameters}
use fledge_south_tase.Connection.{
  Connection, Library, Call, endpoint_create, client_create, tls_set_renegotiation_time,
  tls_destroy, record_call, record_calls, dsts_destroy, data_set_destroy,
}
use fledge_south_tase.Connection.Tls.{configure_tls}
use fledge_south_tase.Connection.Prepare.{
  Prepared, prepared, null_dereference, prepare_connection, create_endpoint, tls_endpoint,
  plain_endpoint, address_calls, osi_calls, finish, with_osi,
}
use fledge_south_tase.Connection.Thread.{clean_up, destroy_client, destroy_tls}
use fledge_south_tase.Connection.Thread.Handles.{
  Event, tries, makes, events, events-append, InOrder,
}
use fledge_south_tase.Connection.Thread.Handles.Quiet.{
  IsQuiet, events-quiet, configure_tls-IsQuiet, osi_calls-IsQuiet, address_calls-IsQuiet,
  dsts_destroy-IsQuiet, data_set_destroy-IsQuiet,
}

-- cleanUp closes what is held.
clean_up-events :
    (c : Connection)
    → events (clean_up c).calls ≡ events c.calls ++ events (destroy_client c.endpoint c.tase2client)
unfolding clean_up events
clean_up-events c =
    events-append c.calls _
    ∙ ap (λ es. events c.calls ++ es)
        (events-append (map dsts_destroy c.dsts) _
          ∙ rw (dsts_destroy-IsQuiet c.dsts).quiet (
              events-append (map data_set_destroy c.datasets) _
              ∙ rw (data_set_destroy-IsQuiet c.datasets).quiet
                  (events-append (destroy_client c.endpoint c.tase2client) _ ∙ tls c.tls_config)))
  where
    tls :
        (t : Option ℕ)
        → events (destroy_client c.endpoint c.tase2client) ++ events (destroy_tls t)
          ≡ events (destroy_client c.endpoint c.tase2client)
    tls none = append-nil _
    tls (some t) = append-nil _

close-InOrder :
    (es : List Event) (o client : Option ℕ)
    → InOrder es o
    → InOrder (es ++ events (destroy_client o client)) none
unfolding events
close-InOrder es none client h = subst (λ es. InOrder es none) (sym (append-nil es)) h
close-InOrder es (some e) client h = InOrder.closed h

pub clean_up-InOrder :
    (c : Connection)
    → InOrder (events c.calls) c.endpoint
    → InOrder (events (clean_up c).calls) none
clean_up-InOrder c h =
    subst (λ es. InOrder es none) (sym (clean_up-events c))
      (close-InOrder (events c.calls) c.endpoint c.tase2client h)

-- prepareConnection, from a connection that holds nothing.
data Tries (c d : Connection) : Type 0 where
  no_endpoint : events d.calls ≡ events c.calls → d.endpoint ≡ none → Tries c d
  asked : events d.calls ≡ events c.calls ++ tries ∷ [] → Tries c d

-- Tase2_Endpoint_create behind quiet calls.
tries-events :
    (calls more : List Call) (tls : Option ℕ) (passive : Bool)
    → IsQuiet more
    → events
        ((calls ++ more) ++ tls_set_renegotiation_time 60000 ∷ endpoint_create tls passive ∷ [])
      ≡ events calls ++ tries ∷ []
unfolding events
tries-events calls more tls passive q =
    events-append (calls ++ more) _ ∙ ap (λ es. es ++ tries ∷ []) (events-quiet calls more q)

tls_endpoint-Tries :
    (l : Library) (config : Config) (c : Connection)
    → c.endpoint ≡ none
    → Tries c (tls_endpoint l config c)
unfolding events
tls_endpoint-Tries l config c free = go (configure_tls l config).1 l.endpoint_handle
  where
    filled : Connection
    filled = record_calls c (configure_tls l config).0

    tried : Connection
    tried = record_calls filled (
        tls_set_renegotiation_time 60000
        ∷ endpoint_create (some l.tls_config_handle) c.passive
        ∷ [])

    tried-events : events tried.calls ≡ events c.calls ++ tries ∷ []
    tried-events =
        tries-events c.calls (configure_tls l config).0 _ c.passive (configure_tls-IsQuiet l config)

    go :
        (ok : Bool) (o : Option ℕ)
        → Tries c (
            if ok
            then (elim o [
              | some e ↦ record tried { endpoint = some e; tls_config = some l.tls_config_handle }
              | none ↦ record (record_call tried (tls_destroy l.tls_config_handle)) {
                endpoint = none;
              }
            ])
            else filled)
    go true (some e) = asked tried-events
    go true none = asked (events-quiet tried.calls _ (record { quiet = refl }) ∙ tried-events)
    go false o = no_endpoint (events-quiet c.calls _ (configure_tls-IsQuiet l config)) free

create_endpoint-Tries :
    (l : Library) (config : Config) (c : Connection)
    → c.endpoint ≡ none
    → Tries c (create_endpoint l config c)
unfolding create_endpoint events
create_endpoint-Tries l config c free = go c.use_tls
  where
    go : (b : Bool) → Tries c (if b then tls_endpoint l config c else plain_endpoint l c)
    go true = tls_endpoint-Tries l config c free
    go false = asked (events-append c.calls _)

-- What prepareConnection leaves, where it dereferences no null pointer.
abbrev pub OrderedIf : Prepared → Type 0
OrderedIf (prepared d ok) = InOrder (events d.calls) d.endpoint
OrderedIf (null_dereference d) = Unit {0}

Tries-InOrder :
    (c d : Connection) → InOrder (events c.calls) none → Tries c d → InOrder (events d.calls) none
Tries-InOrder c d h (no_endpoint same free) = subst (λ es. InOrder es none) (sym same) h
Tries-InOrder c d h (asked same) = subst (λ es. InOrder es none) (sym same) (InOrder.tried h)

-- The client is made for the endpoint right after that.
makes-events :
    (d : Connection) (e : ℕ) (p : OsiParameters) (es : List Event)
    → events d.calls ≡ es ++ tries ∷ []
    → events (d.calls ++ (address_calls d ++ (osi_calls p ++ client_create e ∷ [])))
      ≡ es ++ tries ∷ makes e ∷ []
unfolding events
makes-events d e p es same =
    events-append d.calls _
    ∙ rw same (
        ap (λ more. (es ++ tries ∷ []) ++ more)
          (events-append (address_calls d) _
            ∙ rw (address_calls-IsQuiet d).quiet
                (events-append (osi_calls p) _ ∙ rw (osi_calls-IsQuiet p).quiet refl)))
    ∙ append_assoc es (tries ∷ []) (makes e ∷ [])

finish-OrderedIf :
    (l : Library) (c d : Connection) (o : Option ℕ)
    → InOrder (events c.calls) none
    → Tries c d
    → d.endpoint ≡ o
    → OrderedIf (finish l d o)
finish-OrderedIf l c d none h t held = rw held (Tries-InOrder c d h t)
finish-OrderedIf l c d (some e) h (no_endpoint same free) held = absurd (cc (free, held))
finish-OrderedIf l c d (some e) h (asked same) held = go d.osi_parameters
  where
    go : (o : Option OsiParameters) → OrderedIf (with_osi l d e o)
    go none = tt
    go (some p) = rw held (
        subst (λ es. InOrder es (some e)) (sym (makes-events d e p (events c.calls) same))
          (InOrder.made e h))

pub prepare_connection-OrderedIf :
    (l : Library) (config : Config) (c : Connection)
    → c.endpoint ≡ none
    → InOrder (events c.calls) none
    → OrderedIf (prepare_connection l config c)
unfolding prepare_connection
prepare_connection-OrderedIf l config c free h =
    finish-OrderedIf l c (create_endpoint l config c) _ h (create_endpoint-Tries l config c free)
      refl
