-- ===== src/Config/Protocol/Keeping.antt =====
-- Predicates of the configuration that importProtocolConfig keeps, part by part
-- (src/tase2_client_config.cpp).
use fledge_south_tase.Common.{String, Bool, true, false, Option, none, some, inl, inr, Bool-cases}
use fledge_south_tase.Common.Int.{ℤ, is_negative, to_u64}
use fledge_south_tase.Json.{Json, obj, find_member}
use fledge_south_tase.Json.Ensures.{Ensures, Ensures-ok, Ensures-any}
use fledge_south_tase.Config.{Config, DatasetTransferSet, Externals}
use fledge_south_tase.Config.Steps.{Step, return, Keeps, Keeps-seq, Keeps-reading, Keeps-for_each}
use fledge_south_tase.Config.Connections.{import_connection}
use fledge_south_tase.Config.Datasets.{import_dataset}
use fledge_south_tase.Config.TransferSets.{import_dsts, add_dsts, import_named_dsts}
use fledge_south_tase.Config.Exchange.{object_member}
use fledge_south_tase.Config.TypeCheck.{traverse_and_check_types}
use fledge_south_tase.Config.Protocol.{
  needed, optional, import_transport_layer, set_polling_interval, import_application_layer,
  import_protocol_stack, import_protocol_document, import_protocol_config,
}

-- A predicate that reads only the connections and the definitions, and the polled points up to
-- their removal, is kept by everything but the loop over the connections.
module _ {ℓ} (x : Externals) (P : Config → Type ℓ)
    (connection : (v : Json) (c : Config) → P c → Ensures P (import_connection x v c))
    (dataset : (v : Json) (c : Config) → P c → Ensures P (import_dataset v c))
    (dsts : (d : DatasetTransferSet) (c : Config) → P c → P (add_dsts d c))
    (backup : (z : ℤ) (c : Config) → P c → P (record c { backup_connection_timeout = to_u64 z }))
    (polling : (z : ℤ) (c : Config) → P c → P (record c { polling_interval = z })) where
  returns : Keeps P return
  returns = record { keep = λ c h. h }

  Keeps-needed :
      (o : Option Json) {k : Json → Step} → ((v : Json) → Keeps P (k v)) → Keeps P (needed o k)
  Keeps-needed none h = returns
  Keeps-needed (some v) h = h v

  Keeps-optional :
      (o : Option Json) {k : Json → Step} → ((v : Json) → Keeps P (k v)) → Keeps P (optional o k)
  Keeps-optional none h = record { keep = λ c h. h }
  Keeps-optional (some v) h = h v

  import_dsts-Ensures : (v : Json) (c : Config) → P c → Ensures P (import_dsts x v c)
  unfolding import_dsts
  import_dsts-Ensures (obj ms) c h =
      Ensures-any _ λ domain. named domain (find_member "name" (obj ms))
    where
      named :
          (domain : String) (o : Option Json) → Ensures P (import_named_dsts x (obj ms) domain o c)
      named domain none = Ensures-ok h
      named domain (some n) = Ensures-any _ λ name. Ensures-any _ λ d. Ensures-ok (dsts d c h)
  import_dsts-Ensures v c h = Ensures-ok h

  set_polling_interval-Keeps : (z : ℤ) → Keeps P (set_polling_interval z)
  set_polling_interval-Keeps z = elim (Bool-cases (is_negative z)) [
    | inl e ↦ rw e returns
    | inr e ↦ rw e (record { keep = polling z })
  ]

  pub import_transport_layer-Keeps : (v : Json) → Keeps P (import_transport_layer x v)
  unfolding import_transport_layer
  import_transport_layer-Keeps v =
      Keeps-seq
        (Keeps-reading _ λ m.
          Keeps-needed m
            λ cs. Keeps-reading _ λ vs. Keeps-for_each (import_connection x) vs connection)
        (Keeps-reading _ λ m. Keeps-optional m λ b. Keeps-reading _ λ z. record { keep = backup z })

  pub import_application_layer-Keeps : (v : Json) → Keeps P (import_application_layer x v)
  unfolding import_application_layer
  import_application_layer-Keeps v =
      Keeps-seq
        (Keeps-reading _
          λ m. Keeps-optional m λ p. Keeps-reading _ λ z. set_polling_interval-Keeps z)
        (Keeps-seq
          (Keeps-reading _ λ m.
            Keeps-optional m λ d. Keeps-reading _ λ vs. Keeps-for_each import_dataset vs dataset)
          (Keeps-reading _ λ m.
            Keeps-optional m
              λ d. Keeps-reading _ λ vs. Keeps-for_each (import_dsts x) vs import_dsts-Ensures))

-- The same of the whole import, for a predicate that does not read the completeness mark.
module _ {ℓ} (x : Externals) (P : Config → Type ℓ)
    (connection : (v : Json) (c : Config) → P c → Ensures P (import_connection x v c))
    (dataset : (v : Json) (c : Config) → P c → Ensures P (import_dataset v c))
    (dsts : (d : DatasetTransferSet) (c : Config) → P c → P (add_dsts d c))
    (backup : (z : ℤ) (c : Config) → P c → P (record c { backup_connection_timeout = to_u64 z }))
    (polling : (z : ℤ) (c : Config) → P c → P (record c { polling_interval = z }))
    (complete : (b : Bool) (c : Config) → P c → P (record c { protocol_config_complete = b })) where
  import_protocol_stack-Keeps : (v : Json) → Keeps P (import_protocol_stack x v)
  unfolding import_protocol_stack
  import_protocol_stack-Keeps v =
      Keeps-needed x P connection dataset dsts backup polling (find_member "transport_layer" v) λ t.
        Keeps-seq (import_transport_layer-Keeps x P connection dataset dsts backup polling t) (
          Keeps-needed x P connection dataset dsts backup polling
            (find_member "application_layer" v)
            λ a.
              Keeps-seq
                (import_application_layer-Keeps x P connection dataset dsts backup polling a)
                (record { keep = complete true }))

  import_protocol_document-Keeps : (o : Option Json) → Keeps P (import_protocol_document x o)
  import_protocol_document-Keeps none = record { keep = λ c h. h }
  import_protocol_document-Keeps (some (obj ms)) =
      elim (Bool-cases (traverse_and_check_types (obj ms))) [
        | inl e ↦ rw e (stack (find_member "protocol_stack" (obj ms)))
        | inr e ↦ rw e (record { keep = λ c h. h })
      ]
    where
      stack : (o : Option Json) → Keeps P (object_member o (import_protocol_stack x))
      stack (some (obj ms')) = import_protocol_stack-Keeps (obj ms')
      stack o = record { keep = λ c h. h }
  import_protocol_document-Keeps (some v) = record { keep = λ c h. h }

  pub import_protocol_config-Keeps : (text : String) → Keeps P (import_protocol_config x text)
  unfolding import_protocol_config
  import_protocol_config-Keeps text =
      Keeps-seq (record { keep = complete false }) (import_protocol_document-Keeps (x.parse text))
