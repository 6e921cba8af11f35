-- ===== src/Config/Osi.antt =====
-- importJsonConnectionOsiConfig and importJsonConnectionOsiSelectors
-- (src/tase2_client_config.cpp): the "osi" section of a connection.
pub mod Laws
use fledge_south_tase.Common.{String, Bool, true, false, Option, none, some, if◌then◌else◌}
use fledge_south_tase.Common.Texts.{replace_char, remove_char, all_chars, is_digit}
use fledge_south_tase.Common.Int.{ℤ}
use fledge_south_tase.Json.{
  Json, int, str, obj, Result, ok, thrown, fault, ◌>>=◌, get_member, is_object,
}
use fledge_south_tase.Config.{Selector, OsiParameters, RedGroup}
use fledge_south_tase.Config.ParseSelector.{
  parse_osi_pselector, parse_osi_sselector, parse_osi_tselector,
}

-- An optional int: `old` if the member is missing, an exception if it is no int.
abbrev pub read_int : String → ℤ → Option Json → Result ℤ
read_int bad old none = ok old
read_int bad old (some (int z)) = ok z
read_int bad old (some _) = thrown bad

-- Commas become dots; apart from dots there may be digits only.
unfoldable pub check_ap_title : String → String → Result String
check_ap_title bad s =
    let title = replace_char b',' "." s in
    if all_chars is_digit (remove_char b'.' title) then ok title else thrown bad

abbrev pub read_ap_title : String → String → String → Option Json → Result String
read_ap_title bad_format bad old none = ok old
read_ap_title bad_format bad old (some (str s)) = check_ap_title bad s
read_ap_title bad_format bad old (some _) = thrown bad_format

abbrev pub read_selector :
    (String → Result Selector) → String → Selector → Option Json → Result Selector
read_selector parse bad old none = ok old
read_selector parse bad old (some (str s)) = parse s
read_selector parse bad old (some _) = thrown bad

unfoldable pub import_json_connection_osi_selectors : Json → OsiParameters → Result OsiParameters
import_json_connection_osi_selectors v p = do
  lp ←
      read_selector parse_osi_pselector "bad format for 'local_psel'" p.local_pselector
        (← get_member "local_psel" v)
  ls ←
      read_selector parse_osi_sselector "bad format for 'local_ssel'" p.local_sselector
        (← get_member "local_ssel" v)
  lt ←
      read_selector parse_osi_tselector "bad format for 'local_tsel'" p.local_tselector
        (← get_member "local_tsel" v)
  rp ←
      read_selector parse_osi_pselector "bad format for 'remote_psel'" p.remote_pselector
        (← get_member "remote_psel" v)
  rs ←
      read_selector parse_osi_sselector "bad format for 'remote_ssel'" p.remote_sselector
        (← get_member "remote_ssel" v)
  rt ←
      read_selector parse_osi_tselector "bad format for 'remote_tsel'" p.remote_tselector
        (← get_member "remote_tsel" v)
  ok (record p {
    local_pselector = lp;
    local_sselector = ls;
    local_tselector = lt;
    remote_pselector = rp;
    remote_sselector = rs;
    remote_tselector = rt;
  })

-- The group's parameters change also where the function throws; its caller then drops the group.
unfoldable pub import_json_connection_osi_config : Json → RedGroup → Result RedGroup
import_json_connection_osi_config v g =
    let p = g.osi_parameters in
    let imported : Result RedGroup = do
      la ←
          read_int "bad format for 'local_ae_qualifier'" p.local_ae_qualifier
            (← get_member "local_ae_qualifier" v)
      ra ←
          read_int "bad format for 'remote_ae_qualifier'" p.remote_ae_qualifier
            (← get_member "remote_ae_qualifier" v)
      lt ←
          read_ap_title "bad format for 'local_ap_title'" "'local_ap_title' is not valid"
            p.local_ap_title (← get_member "local_ap_title" v)
      rt ←
          read_ap_title "bad format for 'remote_ap_title'" "'remote_ap_title' is not valid"
            p.remote_ap_title (← get_member "remote_ap_title" v)
      q ← import_json_connection_osi_selectors v (record p {
        local_ae_qualifier = la;
        remote_ae_qualifier = ra;
        local_ap_title = lt;
        remote_ap_title = rt;
      })
      ok (record g { osi_parameters = q; is_osi_parameters_enabled = true })
    in if is_object v then imported else thrown "'OSI' section is not valid"
