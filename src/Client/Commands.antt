-- ===== src/Client/Commands.antt =====
-- The three kinds of commands: sendCommand, sendSetPointReal and sendSetPointDiscrete of
-- TASE2Client (src/tase2_client.cpp) and of TASE2ClientConnection
-- (src/tase2_client_connection.cpp). The `time` argument is passed on and used by neither.
pub mod Laws
use fledge_south_tase.Common.{
  ℕ, String, Bool, true, false, List, [], ◌∷◌, Option, none, some, if◌then◌else◌,
}
use fledge_south_tase.Common.Texts.{join}
use fledge_south_tase.Common.Int.{ℤ}
use fledge_south_tase.Config.{Config, DataExchangeDefinition}
use fledge_south_tase.Config.Datasets.{get_exchange_definition_by_ref}
use fledge_south_tase.Client.{PointLibrary, Outcome, done, ◌>>=◌, Device}
use fledge_south_tase.Client.Handling.{Readings, handle_value}

module _ (lib : PointLibrary) where
  open lib use {Real, PointValue}

  -- On the connection: select, or send.
  unfoldable pub connection_send_command : Device lib → String → String → ℤ → Bool → Bool
  connection_send_command d domain name value select =
      if select then d.select_device domain name else d.send_command_value domain name value

  unfoldable pub connection_send_set_point_real : Device lib → String → String → Real → Bool → Bool
  connection_send_set_point_real d domain name value select =
      if select then d.select_device domain name else d.send_real_set_point domain name value

  unfoldable pub connection_send_set_point_discrete : Device lib → String → String → ℤ → Bool → Bool
  connection_send_set_point_discrete d domain name value select =
      if select then d.select_device domain name else d.send_discrete_set_point domain name value

  -- With no active connection nothing is sent.
  abbrev pub on_active : Option (Device lib) → (Device lib → Bool) → Bool
  on_active none send = false
  on_active (some d) send = send d

  -- The acknowledgement that follows a success.
  abbrev pub acknowledge :
      Config → Option (Device lib) → String → PointValue → ℕ → Bool → Outcome (Bool × Readings lib)
  acknowledge config active ref v now false = done (false, [])
  acknowledge config active ref v now true =
      handle_value lib config active ref (some v) now >>= λ readings. done (true, readings)

  abbrev pub refuse_unknown {ℓ} : {A : Type ℓ} → Option DataExchangeDefinition → A → A → A
  refuse_unknown none refused accepted = refused
  refuse_unknown (some def) refused accepted = accepted

  -- On the client: the answer, and what is ingested.
  unfoldable pub send_command :
      Config → Option (Device lib) → ℕ → String → String → ℤ → Bool → Outcome (Bool × Readings lib)
  send_command config active now domain name value select =
      let ref = join domain ":" name in
      refuse_unknown (get_exchange_definition_by_ref config ref) (done (false, [])) (
        acknowledge config active ref (lib.create_discrete value) now
          (on_active active (λ d. connection_send_command d domain name value select)))

  unfoldable pub send_set_point_real :
      Config
      → Option (Device lib)
      → ℕ
      → String
      → String
      → Real
      → Bool
      → Outcome (Bool × Readings lib)
  send_set_point_real config active now domain name value select =
      let ref = join domain ":" name in
      refuse_unknown (get_exchange_definition_by_ref config ref) (done (false, [])) (
        acknowledge config active ref (lib.create_real value) now
          (on_active active (λ d. connection_send_set_point_real d domain name value select)))

  unfoldable pub send_set_point_discrete :
      Config → Option (Device lib) → ℕ → String → String → ℤ → Bool → Outcome (Bool × Readings lib)
  send_set_point_discrete config active now domain name value select =
      let ref = join domain ":" name in
      refuse_unknown (get_exchange_definition_by_ref config ref) (done (false, [])) (
        acknowledge config active ref (lib.create_discrete value) now
          (on_active active (λ d. connection_send_set_point_discrete d domain name value select)))
