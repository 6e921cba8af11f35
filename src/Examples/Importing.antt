-- ===== src/Examples/Importing.antt =====
-- The theorems on the configuration, at concrete documents.
use fledge_south_tase.Common.{
  ℕ, ◌≤◌, ◌<◌, true, false, List, [], ◌∷◌, none, some, ◌≡◌, refl, length, All, ltb→lt, leb→le,
}
use mathlib.Core.Option
use fledge_south_tase.Common.Texts.{replace_char, remove_char, all_chars}
use fledge_south_tase.Common.Tokens.{tokens}
use fledge_south_tase.Common.Maps.{lookup}
use fledge_south_tase.Common.Numbers.{stoul}
use fledge_south_tase.Common.Int.{pos}
use fledge_south_tase.Json.{
  Json, ◌>>=◌, str, int, bool, obj, arr, cons, nil, end, member, Result, ok,
}
use fledge_south_tase.Config.{new_config, new_red_group, RedGroup}
use fledge_south_tase.Config.Steps.{go}
use fledge_south_tase.Config.ParseSelector.{
  parse_byte, parse_osi_tselector, parse_osi_pselector, parse_osi_selector, is_delimiter,
}
use fledge_south_tase.Config.ParseSelector.Laws.{parse_osi_selector-bounds}
use fledge_south_tase.Config.ParseSelector.Printing.{
  print_selector, parse_osi_selector-print_selector,
}
use fledge_south_tase.Config.Osi.{
  import_json_connection_osi_selectors, check_ap_title, import_json_connection_osi_config,
}
use fledge_south_tase.Config.Osi.Laws.{
  IsValidOsi, new_osi_parameters-IsValidOsi, import_json_connection_osi_config-IsValidOsi,
}
use fledge_south_tase.Config.TypeCheck.{traverse, size, traverse_and_check_types}
use fledge_south_tase.Config.TypeCheck.Reference.{check, traverse-check}
use fledge_south_tase.Config.TypeCheck.Nested.{traverse_and_check_types_nested}
use fledge_south_tase.Config.Connections.{import_connection}
use fledge_south_tase.Config.Connections.Accepted.{import_connection_no_port}
use fledge_south_tase.Config.Datasets.{add_dataset, get_exchange_definition_by_ref}
use fledge_south_tase.Config.Datasets.Polled.{add_dataset-polled}
use fledge_south_tase.Config.Protocol.{import_protocol_config}
use fledge_south_tase.Config.Protocol.Complete.{is_go, import_protocol_config_complete}
use fledge_south_tase.Config.Tls.{import_tls_conf}
use fledge_south_tase.Config.Tls.Certificates.{import_tls_conf-cert_files}
use fledge_south_tase.Examples.{externals, stack_document, tls_section, osi_section, sample_config}

-- The dataset lists the first polled point.
abbrev dataset : Json
dataset = obj (member "entries" (arr (cons (str "a") nil)) (member "dynamic" (bool true) end))

add_dataset-polled_example :
    (lookup "icc1:a" (add_dataset dataset "icc1" "ds1" sample_config).polled_datapoints ≡ none)
    × (Option.map
          (λ d. d.entries)
          (lookup "ds1" (add_dataset dataset "icc1" "ds1" sample_config).datasets)
        ≡ some ("a" ∷ []))
    × ((add_dataset dataset "icc1" "ds1" sample_config).exchange_definitions_ref
        ≡ sample_config.exchange_definitions_ref)
    × ((add_dataset dataset "icc1" "ds1" sample_config).connections ≡ [])
unfolding get_exchange_definition_by_ref lookup
add_dataset-polled_example = add_dataset-polled dataset "icc1" "ds1" sample_config "icc1:a"

traverse-check_example :
    traverse 100 (("", stack_document) ∷ []) true ≡ some (check "" stack_document)
unfolding size
traverse-check_example = traverse-check stack_document 100 (leb→le (size stack_document) 100 refl)

traverse_and_check_types_nested_example :
    traverse_and_check_types
      (obj (member "protocol_stack" (obj (member "name" (int (pos 5)) end)) end))
    ≡ true
traverse_and_check_types_nested_example =
    traverse_and_check_types_nested
      (member "protocol_stack" (obj (member "name" (int (pos 5)) end)) end) ((refl, refl), tt)

abbrev selector_bytes : List ℕ
selector_bytes = 0 ∷ 1 ∷ 255 ∷ []

selector_bytes-lt : All (λ b. b < 256) selector_bytes
selector_bytes-lt = (ltb→lt 0 256 refl, (ltb→lt 1 256 refl, (ltb→lt 255 256 refl, tt)))

parse_osi_selector-print_selector_example :
    parse_osi_selector (print_selector "," selector_bytes) 4 ≡ ok selector_bytes
parse_osi_selector-print_selector_example =
    parse_osi_selector-print_selector "," 4 selector_bytes refl selector_bytes-lt (leb→le 3 4 refl)

parse_osi_selector-bounds_example :
    (3 ≡ length (tokens is_delimiter (print_selector "," selector_bytes)))
    × All (λ b. b < 256) selector_bytes
    × (3 ≤ 4)
parse_osi_selector-bounds_example =
    parse_osi_selector-bounds (print_selector "," selector_bytes) 4 selector_bytes (
      parse_osi_selector-print_selector "," 4 selector_bytes refl selector_bytes-lt
        (leb→le 3 4 refl))

import_connection_no_port_example :
    import_connection externals
      (obj (member "ip_addr" (str "127.0.0.1") (member "port" (int (pos 65600)) end)))
      new_config
    ≡ ok (record new_config {
      connections = record new_red_group { ip_addr = "127.0.0.1"; tcp_port = pos 65600 } ∷ [];
    })
import_connection_no_port_example =
    import_connection_no_port externals new_config "127.0.0.1" 65600 refl (leb→le 65536 65600 refl)
      (leb→le 65600 65635 refl)

import_tls_conf-cert_files_example : import_tls_conf tls_section new_config ≡ (
  record new_config {
    private_key = "own.key";
    own_certificate = "own.cer";
    ca_certificates = "root.cer" ∷ [];
    remote_certificates = "a.cer" ∷ "b.cer" ∷ [];
  },
  go,
)
unfolding lookup
import_tls_conf-cert_files_example =
    import_tls_conf-cert_files tls_section new_config (refl, tt) (refl, (refl, tt))

abbrev group_of : Result RedGroup → RedGroup
group_of (ok g) = g
group_of _ = new_red_group

-- The group that the "osi" section makes.
abbrev osi_group : RedGroup
osi_group = group_of (import_json_connection_osi_config osi_section new_red_group)

import_json_connection_osi_config-IsValidOsi_example :
    IsValidOsi osi_group.osi_parameters
    × (osi_group.is_osi_parameters_enabled ≡ true)
    × (osi_group.ip_addr ≡ "")
    × (osi_group.tcp_port ≡ pos 0)
    × (osi_group.tls ≡ false)
unfolding import_json_connection_osi_config ◌>>=◌ lookup check_ap_title all_chars remove_char
    replace_char import_json_connection_osi_selectors parse_osi_tselector parse_osi_selector tokens
    parse_byte stoul parse_osi_pselector
import_json_connection_osi_config-IsValidOsi_example =
    import_json_connection_osi_config-IsValidOsi osi_section new_red_group osi_group
      new_osi_parameters-IsValidOsi refl

import_protocol_config_complete_example :
    (import_protocol_config externals "stack" new_config).0.protocol_config_complete
    ≡ is_go (import_protocol_config externals "stack" new_config).1
import_protocol_config_complete_example =
    import_protocol_config_complete externals "stack" new_config
