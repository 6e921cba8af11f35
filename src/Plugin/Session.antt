-- ===== src/Plugin/Session.antt =====
-- What the client does under a configuration that setJsonConfig made (src/tase2.cpp,
-- src/tase2_client.cpp).
use fledge_south_tase.Common.{
  ℕ, String, Bool, false, [], ◌∷◌, map, Option, some, ◌≡◌, refl, if◌then◌else◌,
}
use fledge_south_tase.Common.Texts.{join, has_char}
use fledge_south_tase.Common.Maps.{All-lookup}
use fledge_south_tase.Common.Int.{ℤ}
use fledge_south_tase.DpType.{dp_type_to_str}
use fledge_south_tase.Config.{DataExchangeDefinition, Externals}
use fledge_south_tase.Config.Datasets.{get_exchange_definition_by_ref}
use fledge_south_tase.Config.Exchange.Invariant.{IsDefinition}
use fledge_south_tase.Client.{PointLibrary, done, Device}
use fledge_south_tase.Client.Handling.{handle_all_values, ds_transfer_set_value_handler}
use fledge_south_tase.Client.Values.{pair, objects, object, known_name, handle_all_values-pair}
use fledge_south_tase.Client.Commands.{send_command}
use fledge_south_tase.Client.Commands.Laws.{
  send_command_defined, handle_value-object, split_exchange_ref-join,
}
use fledge_south_tase.Plugin.{set_json_config}
use fledge_south_tase.Plugin.Configured.{set_json_config-IsSound}

module _ (lib : PointLibrary) (x : Externals)
    (stack_configuration msg_configuration tls_configuration : String) where
  -- Under any configuration that setJsonConfig leaves, whatever the three texts are, a poll of all
  -- values over an active connection throws nothing: the objects of the points that can be read
  -- are ingested in their order, the n-th of them under the label of the n-th polled point.
  pub handle_all_values-set_json_config :
      (d : Device lib) (clock : ℕ → ℕ)
      → let c = (set_json_config x stack_configuration msg_configuration tls_configuration).0 in
        handle_all_values lib c (some d) clock
        ≡ done (
            pair
              (map (λ e. e.1.label) c.polled_datapoints)
              (objects lib d clock 0 c.polled_datapoints))
  handle_all_values-set_json_config d clock =
      handle_all_values-pair lib _ d clock
        (set_json_config-IsSound x stack_configuration msg_configuration
          tls_configuration).definitions

  -- Under any configuration that setJsonConfig leaves, whatever the three texts are, a command over
  -- an active connection for a defined point throws nothing: it answers what the peer answers, to
  -- the selection of the point if the select flag is set and to the value otherwise, and exactly if
  -- that is true its value is ingested under the point's label, with the name of the point's type,
  -- the domain, the name and the time. The domain must have no colon.
  pub send_command-set_json_config :
      (d : Device lib) (now : ℕ) (domain name : String) (value : ℤ) (select : Bool)
      (def : DataExchangeDefinition)
      → has_char b':' domain ≡ false
      → let c = (set_json_config x stack_configuration msg_configuration tls_configuration).0 in
        get_exchange_definition_by_ref c (join domain ":" name) ≡ some def
        → (s : String) × (dp_type_to_str def.type ≡ some s)
          × (send_command lib c (some d) now domain name value select ≡ (
              let answer =
                (if select
                  then d.select_device domain name
                  else d.send_command_value domain name value) in
              done (
                answer,
                if answer
                    then (
                      def.label,
                      object lib (lib.create_discrete value) (domain, name) now def.type s,
                    )
                      ∷ []
                    else [],
              )))
  unfolding get_exchange_definition_by_ref
  send_command-set_json_config d now domain name value select def plain found =
      let sound =
        set_json_config-IsSound x stack_configuration msg_configuration tls_configuration in
      let (same, known, _) =
        All-lookup IsDefinition (join domain ":" name) _ sound.definitions.refs found in
      let (s, named) = known_name lib def.type known in
      (
        s,
        named,
        send_command_defined lib _ (some d) now domain name value select def s plain found same
            named,
      )

  -- Under any configuration that setJsonConfig leaves, whatever the three texts are, a value that
  -- the peer reports for a defined point is ingested as it is, with or without an active
  -- connection: one object under the point's label, with the name of the point's type, the domain,
  -- the name and the time. The domain must have no colon.
  pub ds_transfer_set_value_handler-set_json_config :
      (active : Option (Device lib)) (now : ℕ) (domain name : String) (v : lib.PointValue)
      (def : DataExchangeDefinition)
      → has_char b':' domain ≡ false
      → let c = (set_json_config x stack_configuration msg_configuration tls_configuration).0 in
        get_exchange_definition_by_ref c (join domain ":" name) ≡ some def
        → (s : String) × (dp_type_to_str def.type ≡ some s)
          × (ds_transfer_set_value_handler lib c active now domain name v
              ≡ done ((def.label, object lib v (domain, name) now def.type s) ∷ []))
  unfolding get_exchange_definition_by_ref ds_transfer_set_value_handler
  ds_transfer_set_value_handler-set_json_config active now domain name v def plain found =
      let sound =
        set_json_config-IsSound x stack_configuration msg_configuration tls_configuration in
      let (same, known, _) =
        All-lookup IsDefinition (join domain ":" name) _ sound.definitions.refs found in
      let (s, named) = known_name lib def.type known in
      (
        s,
        named,
        rw
            (
              handle_value-object lib
                  (set_json_config x stack_configuration msg_configuration tls_configuration).0
                  active (join domain ":" name) v now def s found same named,
              split_exchange_ref-join domain name plain,
            )
            refl,
      )
