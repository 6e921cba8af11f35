-- ===== src/Plugin/Operation.antt =====
-- TASE2::operation (src/tase2.cpp): the parameters of an operation are read and become a command.
-- The parameters are a list of texts, read with no test against its length where the code makes
-- none. `atof` is the C library's, with the conversion to a float.
pub mod Dispatch
use fledge_south_tase.Common.{
  ℕ, ◌-◌, String, Bool, true, false, not, List, [], ◌∷◌, Option, none, some, get_elem?,
  if◌then◌else◌, nat_eq,
}
use fledge_south_tase.Common.Texts.{◌==◌, starts_with, text_length, take_text, drop_text}
use fledge_south_tase.Common.Int.{ℤ, pos, leb_ℤ, is_zero}
use fledge_south_tase.Common.Numbers.{Number, number, invalid_argument, out_of_range, stol, atoi}
use fledge_south_tase.DpType.{
  DpType, command, setpointreal, setpointdiscrete, get_dp_type_from_string,
}
use fledge_south_tase.Config.{Config}
use fledge_south_tase.Client.{PointLibrary, Outcome, Device}
use fledge_south_tase.Client.Handling.{Readings}
use fledge_south_tase.Client.Commands.{send_command, send_set_point_real, send_set_point_discrete}

-- The client: its configuration, the active connection and the time of an acknowledgement.
pub record Session (lib : PointLibrary) : Type 0 where
  pub config : Config
  pub active : Option (Device lib)
  pub now : ℕ

-- What an operation comes to: the client's outcome (an answer and what is ingested), a read past
-- the parameters, a number for atoi that does not fit in an int, or an exception of stol.
pub data Reply (lib : PointLibrary) : Type 0 where
  replied : Outcome (Bool × Readings lib) → Reply lib
  past_parameters not_an_int stol_invalid_argument stol_out_of_range : Reply lib

-- std::string::substr between the quotes. For a lone quote the code's length wraps round, and
-- nothing is behind the quote.
unfoldable pub unquote : String → String
unquote type =
    if starts_with b'"' type then take_text (text_length type - 2) (drop_text 1 type) else type

module _ (lib : PointLibrary) (atof : String → lib.Real) where
  abbrev pub parameter : Option String → (String → Reply lib) → Reply lib
  parameter none k = past_parameters
  parameter (some s) k = k s

  abbrev pub an_int : Option ℤ → (ℤ → Reply lib) → Reply lib
  an_int none k = not_an_int
  an_int (some z) k = k z

  -- The time is passed on to the client, which does not look at it.
  abbrev pub a_time : Number ℤ → Reply lib → Reply lib
  a_time (number z) r = r
  a_time invalid_argument r = stol_invalid_argument
  a_time out_of_range r = stol_out_of_range

  -- The select flag and the time stamp, behind the value.
  abbrev pub select_and_time : List String → (Bool → Reply lib) → Reply lib
  select_and_time params k = parameter (get_elem? params 5) λ select.
      an_int (atoi select)
        λ s. parameter (get_elem? params 6) λ ts. a_time (stol ts) (k (not (is_zero s)))

  abbrev pub enough : ℤ → Reply lib → Reply lib
  enough count r = if leb_ℤ (pos 7) count then r else replied (Outcome.done (false, []))

  unfoldable pub command_operation : Session lib → ℤ → List String → Reply lib
  command_operation c count params = enough count (
      parameter (get_elem? params 2) λ domain. parameter (get_elem? params 3) λ name.
        parameter (get_elem? params 4) λ text. an_int (atoi text) λ value.
          select_and_time params
            λ select. replied (send_command lib c.config c.active c.now domain name value select))

  unfoldable pub set_point_real_operation : Session lib → ℤ → List String → Reply lib
  set_point_real_operation c count params = enough count (
      parameter (get_elem? params 2) λ domain. parameter (get_elem? params 3) λ name.
        parameter (get_elem? params 4) λ text. select_and_time params λ select.
          replied (send_set_point_real lib c.config c.active c.now domain name (atof text) select))

  unfoldable pub set_point_discrete_operation : Session lib → ℤ → List String → Reply lib
  set_point_discrete_operation c count params = enough count (
      parameter (get_elem? params 2) λ domain. parameter (get_elem? params 3) λ name.
        parameter (get_elem? params 4) λ text. an_int (atoi text) λ value.
          select_and_time params λ select.
            replied (send_set_point_discrete lib c.config c.active c.now domain name value select))

  -- The switch on the type.
  unfoldable pub typed_operation : DpType → Session lib → ℤ → List String → Reply lib
  typed_operation command c count params = command_operation c count params
  typed_operation setpointreal c count params = set_point_real_operation c count params
  typed_operation setpointdiscrete c count params = set_point_discrete_operation c count params
  typed_operation _ c count params = replied (Outcome.done (false, []))

  abbrev pub with_client : Option (Session lib) → (Session lib → Reply lib) → Reply lib
  with_client none k = replied (Outcome.done (false, []))
  with_client (some c) k = k c

  unfoldable pub operation : Option (Session lib) → String → ℤ → List String → Reply lib
  operation client name count params = with_client client λ c.
      if name == "TASE2Command"
      then parameter (get_elem? params 0)
          (λ type. typed_operation (get_dp_type_from_string (unquote type)) c count params)
      else replied (Outcome.done (false, []))
