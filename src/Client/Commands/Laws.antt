-- ===== src/Client/Commands/Laws.antt =====
-- What a command sends, answers and acknowledges (src/tase2_client.cpp).
use fledge_south_tase.Common.{
  ℕ, String, Bool, true, false, [], ◌∷◌, Option, none, some, ◌≡◌, refl, if◌then◌else◌,
}
use fledge_south_tase.Common.Texts.{join, has_char, find_char-append, cons-append, nil-append}
use fledge_south_tase.Common.Int.{ℤ}
use fledge_south_tase.DpType.{dp_type_to_str}
use fledge_south_tase.Config.{Config, DataExchangeDefinition}
use fledge_south_tase.Config.Datasets.{get_exchange_definition_by_ref}
use fledge_south_tase.Client.{
  PointLibrary, Outcome, done, split_exchange_ref, create_data_object, Device,
}
use fledge_south_tase.Client.Handling.{Readings, handle_monitoring_data, handle_value, send_data}
use fledge_south_tase.Client.Values.{object}
use fledge_south_tase.Client.Commands.{
  send_command, send_set_point_real, send_set_point_discrete, connection_send_command,
  connection_send_set_point_real, connection_send_set_point_discrete, on_active, acknowledge,
}

-- A domain with no colon and a name are what their joined reference is split into, whatever the
-- name holds.
pub split_exchange_ref-join :
    (domain name : String)
    → has_char b':' domain ≡ false
    → split_exchange_ref (join domain ":" name) ≡ (domain, name)
unfolding split_exchange_ref
split_exchange_ref-join domain name plain =
    let (p, found, front, back) = find_char-append b':' domain name ":" plain refl in
    rw (cons-append, nil-append, found, front, back)

module _ (lib : PointLibrary) where
  -- A command or a set point for a reference that the exchange configuration does not define
  -- answers false, whatever the connection would answer, and nothing is ingested.
  pub commands_unknown :
      (config : Config) (active : Option (Device lib)) (now : ℕ) (domain name : String) (value : ℤ)
      (level : lib.Real) (select : Bool)
      → get_exchange_definition_by_ref config (join domain ":" name) ≡ none
      → (send_command lib config active now domain name value select ≡ done (false, []))
        × (send_set_point_real lib config active now domain name level select ≡ done (false, []))
        × (send_set_point_discrete lib config active now domain name value select
            ≡ done (false, []))
  unfolding send_command send_set_point_real send_set_point_discrete
  commands_unknown config active now domain name value level select h = rw h (refl, refl, refl)

  -- The acknowledgement of a value: one object under the definition's label.
  pub handle_value-object :
      (config : Config) (active : Option (Device lib)) (ref : String) (v : lib.PointValue) (ts : ℕ)
      (def : DataExchangeDefinition) (s : String)
      → get_exchange_definition_by_ref config ref ≡ some def
      → def.ref ≡ ref
      → dp_type_to_str def.type ≡ some s
      → handle_value lib config active ref (some v) ts
        ≡ done ((def.label, object lib v (split_exchange_ref ref) ts def.type s) ∷ [])
  unfolding handle_value handle_monitoring_data create_data_object send_data
  handle_value-object config active ref v ts def s found same named = rw (found, same, found, named)

  -- The answer, and one object exactly if it is true.
  abbrev pub acknowledged :
      DataExchangeDefinition
      → lib.PointValue
      → String × String
      → ℕ
      → String
      → Bool
      → Outcome (Bool × Readings lib)
  acknowledged def v point now s answer =
      done (answer, if answer then (def.label, object lib v point now def.type s) ∷ [] else [])

  acknowledge-acknowledged :
      (config : Config) (active : Option (Device lib)) (domain name : String) (v : lib.PointValue)
      (now : ℕ) (def : DataExchangeDefinition) (s : String) (answer : Bool)
      → has_char b':' domain ≡ false
      → get_exchange_definition_by_ref config (join domain ":" name) ≡ some def
      → def.ref ≡ join domain ":" name
      → dp_type_to_str def.type ≡ some s
      → acknowledge lib config active (join domain ":" name) v now answer
        ≡ acknowledged def v (domain, name) now s answer
  acknowledge-acknowledged config active domain name v now def s true plain found same named = rw (
    handle_value-object config active (join domain ":" name) v now def s found same named,
    split_exchange_ref-join domain name plain,
  )
  acknowledge-acknowledged config active domain name v now def s false plain found same named = refl

  -- A command for a defined reference answers what the peer of the active connection answers, to
  -- the selection of the point if the select flag is set and to the value otherwise, and false if
  -- there is no active connection. Exactly if the answer is true, one object is ingested, under the
  -- label of the definition: the value of the command, with the domain, the name, the type and the
  -- time; also where the command only selects the point.
  pub send_command_defined :
      (config : Config) (active : Option (Device lib)) (now : ℕ) (domain name : String) (value : ℤ)
      (select : Bool) (def : DataExchangeDefinition) (s : String)
      → has_char b':' domain ≡ false
      → get_exchange_definition_by_ref config (join domain ":" name) ≡ some def
      → def.ref ≡ join domain ":" name
      → dp_type_to_str def.type ≡ some s
      → let answer = on_active lib active (λ d.
        if select then d.select_device domain name else d.send_command_value domain name value) in
        send_command lib config active now domain name value select
        ≡ done (
          answer,
          if answer
              then (def.label, object lib (lib.create_discrete value) (domain, name) now def.type s)
                ∷ []
              else [],
        )
  unfolding send_command connection_send_command
  send_command_defined config active now domain name value select def s plain found same named =
      rw found (
        acknowledge-acknowledged config active domain name (lib.create_discrete value) now def s _
          plain found same named)

  -- If the domain has no colon, and the definition that is found for the domain and the name holds
  -- that same reference and a type with a name, then both kinds of set points for them answer what
  -- the peer of the active connection answers, to the selection of the point if the select flag is
  -- set and to the value otherwise, and false if there is no active connection. Exactly if the answer
  -- is true, one object is ingested, under the label of the definition, with the value, the domain,
  -- the name, the type and the time.
  pub set_points_defined :
      (config : Config) (active : Option (Device lib)) (now : ℕ) (domain name : String) (value : ℤ)
      (level : lib.Real) (select : Bool) (def : DataExchangeDefinition) (s : String)
      → has_char b':' domain ≡ false
      → get_exchange_definition_by_ref config (join domain ":" name) ≡ some def
      → def.ref ≡ join domain ":" name
      → dp_type_to_str def.type ≡ some s
      → (send_set_point_real lib config active now domain name level select
          ≡ acknowledged def
              (lib.create_real level)
              (domain, name)
              now
              s
              (on_active lib active (λ d.
                if select
                then d.select_device domain name
                else d.send_real_set_point domain name level)))
        × (send_set_point_discrete lib config active now domain name value select
            ≡ acknowledged def
                (lib.create_discrete value)
                (domain, name)
                now
                s
                (on_active lib active (λ d.
                  if select
                  then d.select_device domain name
                  else d.send_discrete_set_point domain name value)))
  unfolding send_set_point_real send_set_point_discrete connection_send_set_point_real
      connection_send_set_point_discrete
  set_points_defined config active now domain name value level select def s plain found same named =
      (
        rw found (
            acknowledge-acknowledged config active domain name (lib.create_real level) now def s _
              plain found same named),
        rw found (
            acknowledge-acknowledged config active domain name (lib.create_discrete value) now def s
              _ plain found same named),
      )
