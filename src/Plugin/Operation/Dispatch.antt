-- ===== src/Plugin/Operation/Dispatch.antt =====
-- Which command an operation becomes (src/tase2.cpp).
use fledge_south_tase.Common.{
  suc, ◌-◌, String, Bool, true, false, not, List, [], ◌∷◌, Option, none, some, ◌≡◌, refl, ap, ◌∙◌,
  arith, inl, inr, Bool-cases,
}
use fledge_south_tase.Common.Texts.{
  ◌⧺◌, ◌==◌, text_length, take_text, drop_text, text_length-append, take_text-append, cons-append,
  nil-append,
}
use fledge_south_tase.Common.Int.{ℤ, pos, leb_ℤ, is_zero}
use fledge_south_tase.Common.Numbers.{number, stol, atoi}
use fledge_south_tase.DpType.{
  DpType, command, setpointreal, setpointdiscrete, get_dp_type_from_string,
}
use fledge_south_tase.Client.{PointLibrary, Outcome}
use fledge_south_tase.Client.Commands.{send_command, send_set_point_real, send_set_point_discrete}
use fledge_south_tase.Plugin.Operation.{
  Session, Reply, replied, unquote, command_operation, set_point_real_operation,
  set_point_discrete_operation, typed_operation, operation,
}

-- A type in quotes is the type between them.
pub unquote_quoted : (type : String) → unquote ("\"" ⧺ (type ⧺ "\"")) ≡ type
unfolding unquote text_length drop_text take_text
unquote_quoted type =
    rw (cons-append, nil-append)
      (ap (λ n. take_text n (type ⧺ "\"")) length ∙ take_text-append type "\"")
  where
    length : suc (text_length (type ⧺ "\"")) - 2 ≡ text_length type
    length = omega (arith, text_length-append type "\"")

module _ (lib : PointLibrary) (atof : String → lib.Real) where
  -- What the client is asked for, by the operation's type.
  abbrev pub request : Session lib → DpType → String → String → String → ℤ → Bool → Reply lib
  request c command domain name text value select =
      replied (send_command lib c.config c.active c.now domain name value select)
  request c setpointreal domain name text value select =
      replied (send_set_point_real lib c.config c.active c.now domain name (atof text) select)
  request c setpointdiscrete domain name text value select =
      replied (send_set_point_discrete lib c.config c.active c.now domain name value select)
  request c _ domain name text value select = replied (Outcome.done (false, []))

  typed_operation-request :
      (dp : DpType) (c : Session lib) (count : ℤ) (type scope domain name value select ts : String)
      (rest : List String) (v s t : ℤ)
      → leb_ℤ (pos 7) count ≡ true
      → atoi value ≡ some v
      → atoi select ≡ some s
      → stol ts ≡ number t
      → typed_operation lib atof dp c count
          (type ∷ scope ∷ domain ∷ name ∷ value ∷ select ∷ ts ∷ rest)
        ≡ request c dp domain name value v (not (is_zero s))
  unfolding typed_operation command_operation set_point_real_operation set_point_discrete_operation
  typed_operation-request command c count type scope domain name value select ts rest v s t e ev es
        et =
      rw (e, ev, es, et)
  typed_operation-request setpointreal c count type scope domain name value select ts rest v s t e
        ev es et =
      rw (e, es, et)
  typed_operation-request setpointdiscrete c count type scope domain name value select ts rest v s t
        e ev es et =
      rw (e, ev, es, et)
  typed_operation-request _ c count type scope domain name value select ts rest v s t e ev es et =
      refl

  -- An operation with a client, more than six parameters by its count and readable numbers asks the
  -- client for the command or the set point of its type, which is the first parameter as `unquote`
  -- reads it, for the domain, the name, the value and the select flag at the third, fourth, fifth
  -- and sixth place; an operation of another type answers false and asks for nothing. The second
  -- parameter and the value of the time stamp have no influence.
  pub operation-request :
      (c : Session lib) (count : ℤ) (type scope domain name value select ts : String)
      (rest : List String) (v s t : ℤ)
      → leb_ℤ (pos 7) count ≡ true
      → atoi value ≡ some v
      → atoi select ≡ some s
      → stol ts ≡ number t
      → operation lib atof
          (some c)
          "TASE2Command"
          count
          (type ∷ scope ∷ domain ∷ name ∷ value ∷ select ∷ ts ∷ rest)
        ≡ request c (get_dp_type_from_string (unquote type)) domain name value v (not (is_zero s))
  unfolding operation
  operation-request c count type scope domain name value select ts rest v s t e ev es et =
      typed_operation-request (get_dp_type_from_string (unquote type)) c count type scope domain
        name value select ts rest v s t e ev es et

  -- A command operation with a client, more than six parameters by its count and readable numbers
  -- is the client's command for the domain, the name, the value and the select flag at the third,
  -- fourth, fifth and sixth place, whether its type stands in quotes or not; the second parameter
  -- and the value of the time stamp have no influence on it.
  operation_command :
      (c : Session lib) (count : ℤ) (type scope domain name value select ts : String)
      (rest : List String) (v s t : ℤ)
      → leb_ℤ (pos 7) count ≡ true
      → get_dp_type_from_string (unquote type) ≡ command
      → atoi value ≡ some v
      → atoi select ≡ some s
      → stol ts ≡ number t
      → operation lib atof
          (some c)
          "TASE2Command"
          count
          (type ∷ scope ∷ domain ∷ name ∷ value ∷ select ∷ ts ∷ rest)
        ≡ replied (send_command lib c.config c.active c.now domain name v (not (is_zero s)))
  operation_command c count type scope domain name value select ts rest v s t e n ev es et =
      operation-request c count type scope domain name value select ts rest v s t e ev es et
      ∙ rw n refl

  typed_operation_few :
      (type : DpType) (c : Session lib) (count : ℤ) (params : List String)
      → leb_ℤ (pos 7) count ≡ false
      → typed_operation lib atof type c count params ≡ replied (Outcome.done (false, []))
  unfolding typed_operation command_operation set_point_real_operation set_point_discrete_operation
  typed_operation_few command c count params few = rw few
  typed_operation_few setpointreal c count params few = rw few
  typed_operation_few setpointdiscrete c count params few = rw few
  typed_operation_few _ c count params few = refl

  -- Whatever its name, its type and the client are, an operation whose count is six or less
  -- answers false, sends nothing and ingests nothing, if it has a first parameter to read.
  pub operation_few :
      (client : Option (Session lib)) (name : String) (count : ℤ) (type : String)
      (rest : List String)
      → leb_ℤ (pos 7) count ≡ false
      → operation lib atof client name count (type ∷ rest) ≡ replied (Outcome.done (false, []))
  unfolding operation
  operation_few none name count type rest few = refl
  operation_few (some c) name count type rest few = elim (Bool-cases (name == "TASE2Command")) [
    | inl e ↦ rw e (typed_operation_few _ c count (type ∷ rest) few)
    | inr e ↦ rw e
  ]
