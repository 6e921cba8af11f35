-- ===== src/Config/Protocol/Complete.antt =====
-- When importProtocolConfig marks the configuration as complete (src/tase2_client_config.cpp).
use fledge_south_tase.Common.{
  String, Bool, true, false, Option, none, some, ◌≡◌, refl, if◌then◌else◌,
}
use fledge_south_tase.Json.{Json, obj, find_member}
use fledge_south_tase.Json.Ensures.{Ensures, Ensures-ok, Ensures-any}
use fledge_south_tase.Config.{Config, RedGroup, Externals}
use fledge_south_tase.Config.Steps.{
  Flow, go, returned, aborted, threw, Step, resume, return, store, ◌⨾◌, Keeps,
}
use fledge_south_tase.Config.Connections.{import_connection, add_connection}
use fledge_south_tase.Config.Datasets.{add_dataset}
use fledge_south_tase.Config.Datasets.Polled.{import_entries-with_polled}
use fledge_south_tase.Config.Exchange.{object_member}
use fledge_south_tase.Config.TypeCheck.{traverse_and_check_types}
use fledge_south_tase.Config.Protocol.Keeping.{
  import_transport_layer-Keeps, import_application_layer-Keeps,
}
use fledge_south_tase.Config.Protocol.Outcome.{import_dataset-Ensures}
use fledge_south_tase.Config.Protocol.{
  needed, import_transport_layer, import_application_layer, import_protocol_stack,
  import_protocol_document, import_protocol_config,
}

abbrev pub is_go : Flow → Bool
is_go go = true
is_go _ = false

abbrev pub IsIncomplete : Config → Type 0
IsIncomplete c = c.protocol_config_complete ≡ false

-- From an incomplete configuration the step ends with the mark exactly if it falls through.
record Marks (m : Step) : Type 0 where
  mark : (c : Config) → IsIncomplete c → (m c).0.protocol_config_complete ≡ is_go (m c).1

Marks-return : Marks return
Marks-return = record { mark = λ c h. h }

Marks-seq : {m n : Step} → Keeps IsIncomplete m → Marks n → Marks (m ⨾ n)
unfolding ◌⨾◌
Marks-seq {m} {n} k marks = record { mark = λ c h. after (m c).0 (m c).1 (k.keep c h) }
  where
    after :
        (c : Config) (f : Flow)
        → IsIncomplete c
        → (resume f c n).0.protocol_config_complete ≡ is_go (resume f c n).1
    after c go h = marks.mark c h
    after c returned h = h
    after c aborted h = h
    after c (threw e) h = h

Marks-needed : (o : Option Json) {k : Json → Step} → ((v : Json) → Marks (k v)) → Marks (needed o k)
Marks-needed none h = Marks-return
Marks-needed (some v) h = h v

Marks-object :
    (o : Option Json) {k : Json → Step} → ((v : Json) → Marks (k v)) → Marks (object_member o k)
Marks-object (some (obj ms)) h = h (obj ms)
Marks-object o h = Marks-return

module _ (x : Externals) where
  connection :
      (v : Json) (c : Config) → IsIncomplete c → Ensures IsIncomplete (import_connection x v c)
  unfolding import_connection
  connection v c h = Ensures-any _ λ g. Ensures-ok (added g)
    where
      added : (g : Option RedGroup) → IsIncomplete (add_connection c g)
      added none = h
      added (some g) = h

  dataset :
      (v : Json) (domain ref : String) (c : Config)
      → IsIncomplete c
      → IsIncomplete (add_dataset v domain ref c)
  unfolding add_dataset
  dataset v domain ref c h = rw import_entries-with_polled h

  marked : Marks (store (λ c. record c { protocol_config_complete = true }))
  marked = record { mark = λ c h. refl }

  Marks-transport : (v : Json) {n : Step} → Marks n → Marks (import_transport_layer x v ⨾ n)
  Marks-transport v = Marks-seq (
      import_transport_layer-Keeps x IsIncomplete connection
        (import_dataset-Ensures IsIncomplete dataset) (λ d c h. h) (λ z c h. h) (λ z c h. h) v)

  Marks-application : (v : Json) {n : Step} → Marks n → Marks (import_application_layer x v ⨾ n)
  Marks-application v = Marks-seq (
      import_application_layer-Keeps x IsIncomplete connection
        (import_dataset-Ensures IsIncomplete dataset) (λ d c h. h) (λ z c h. h) (λ z c h. h) v)

  import_protocol_stack-Marks : (v : Json) → Marks (import_protocol_stack x v)
  unfolding import_protocol_stack
  import_protocol_stack-Marks v = Marks-needed (find_member "transport_layer" v) (λ t.
      Marks-transport t
        {n = needed (find_member "application_layer" v) (λ a.
          import_application_layer x a ⨾ store (λ c. record c { protocol_config_complete = true }))}
        (Marks-needed (find_member "application_layer" v) (λ a.
          Marks-application a {n = store (λ c. record c { protocol_config_complete = true })}
            marked)))

  import_protocol_document-Marks : (o : Option Json) → Marks (import_protocol_document x o)
  import_protocol_document-Marks none = Marks-return
  import_protocol_document-Marks (some (obj ms)) = checked (traverse_and_check_types (obj ms))
    where
      checked :
          (b : Bool)
          → Marks (
              if b
              then object_member (find_member "protocol_stack" (obj ms)) (import_protocol_stack x)
              else return)
      checked true =
          Marks-object (find_member "protocol_stack" (obj ms)) import_protocol_stack-Marks
      checked false = Marks-return
  import_protocol_document-Marks (some v) = Marks-return

  -- Whatever the text and the configuration are, importProtocolConfig leaves the configuration
  -- marked as complete exactly if it comes to its end: on every early return, exception and failed
  -- precondition the mark is not set.
  pub import_protocol_config_complete :
      (text : String) (c : Config)
      → (import_protocol_config x text c).0.protocol_config_complete
        ≡ is_go (import_protocol_config x text c).1
  unfolding import_protocol_config ◌⨾◌
  import_protocol_config_complete text c =
      (import_protocol_document-Marks (x.parse text)).mark
        (record c { protocol_config_complete = false }) refl
