-- ===== src/Connection/Thread/Handles.antt =====
-- In which order a connection makes and destroys endpoints and clients of libtase2
-- (src/tase2_client_connection.cpp).
pub mod Quiet
pub mod Alike
pub mod Ordered
pub mod Rounds
pub mod History
use fledge_south_tase.Common.{ℕ, List, [], ◌∷◌, ◌++◌, Option, none, some, ◌≡◌, refl, ap}
use fledge_south_tase.Connection.{
  Call, endpoint_create, endpoint_destroy, client_create, client_destroy,
}

-- What a call means for endpoints and clients: Tase2_Endpoint_create, Tase2_Client_createEx for an
-- endpoint, Tase2_Client_destroy, Tase2_Endpoint_destroy.
pub data Event : Type 0 where
  tries drops : Event
  makes destroys : ℕ → Event

unfoldable pub events : List Call → List Event
events [] = []
events (endpoint_create tls passive ∷ calls) = tries ∷ events calls
events (client_create e ∷ calls) = makes e ∷ events calls
events (client_destroy h ∷ calls) = drops ∷ events calls
events (endpoint_destroy e ∷ calls) = destroys e ∷ events calls
events (_ ∷ calls) = events calls

pub events-append : (front back : List Call) → events (front ++ back) ≡ events front ++ events back
unfolding events
events-append [] back = refl
events-append (endpoint_create tls passive ∷ front) back = ap (◌∷◌ tries) (events-append front back)
events-append (client_create e ∷ front) back = ap (◌∷◌ (makes e)) (events-append front back)
events-append (client_destroy h ∷ front) back = ap (◌∷◌ drops) (events-append front back)
events-append (endpoint_destroy e ∷ front) back = ap (◌∷◌ (destroys e)) (events-append front back)
events-append (_ ∷ front) back = events-append front back

-- The histories that are in order, with the endpoint that is left: Tase2_Client_createEx comes right
-- after Tase2_Endpoint_create, for its endpoint, and only while no other is left, and the endpoint is
-- destroyed once, right after its client.
pub data InOrder : List Event → Option ℕ → Type 0 where
  unused : InOrder [] none
  tried : {es : List Event} → InOrder es none → InOrder (es ++ tries ∷ []) none
  made : {es : List Event} (e : ℕ) → InOrder es none → InOrder (es ++ tries ∷ makes e ∷ []) (some e)
  closed :
      {es : List Event} {e : ℕ} → InOrder es (some e) → InOrder (es ++ drops ∷ destroys e ∷ []) none
