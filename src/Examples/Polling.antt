-- ===== src/Examples/Polling.antt =====
-- The theorems on the values that are polled and the commands that are sent, at concrete points.
use fledge_south_tase.Common.{ℕ, String, true, false, List, [], ◌∷◌, Option, none, some, ◌≡◌, refl}
use fledge_south_tase.Common.Texts.{has_char, find_char, drop_text, take_text}
use fledge_south_tase.Common.Maps.{lookup}
use fledge_south_tase.Common.Int.{pos}
use fledge_south_tase.DpType.{dp_type_to_str}
use fledge_south_tase.Config.{Config, DataExchangeDefinition}
use fledge_south_tase.Config.Datasets.{get_exchange_definition_by_ref}
use fledge_south_tase.Config.Exchange.Invariant.{IsConsistent}
use fledge_south_tase.Client.{done, DataObject, split_exchange_ref}
use fledge_south_tase.Client.Handling.{Readings, handle_all_values}
use fledge_south_tase.Client.{quality_fields, text}
use fledge_south_tase.Client.Flags.{quality_fields_few}
use fledge_south_tase.Common.{◌⊎◌, arith}
use fledge_south_tase.Client.Values.{object}
use mathlib.Core.List.{Permᴰ}
use fledge_south_tase.Client.Values.Order.{handle_all_values-permuted}
use fledge_south_tase.Client.Values.Labels.{handle_all_values_shifted}
use fledge_south_tase.Client.Commands.{
  send_set_point_real, send_set_point_discrete, connection_send_set_point_real,
  connection_send_set_point_discrete,
}
use fledge_south_tase.Client.Commands.Laws.{set_points_defined, acknowledged}
use fledge_south_tase.Examples.{
  sample_config, points, peer, full_peer, definition_a, definition_b, definition_c,
}

sample_config-IsConsistent : IsConsistent sample_config
unfolding has_char lookup
sample_config-IsConsistent = record {
  refs = ((refl, refl, refl), ((refl, refl, refl), ((refl, refl, refl), tt)));
  labels = (refl, (refl, (refl, tt)));
  polled = ((refl, refl, refl, refl), ((refl, refl, refl, refl), tt));
}

abbrev clock : ℕ → ℕ
clock i = 1000

abbrev object_a : DataObject points
object_a = object points (5, 0) ("icc1", "a") 1000 definition_a.type "Real"

abbrev object_b : DataObject points
object_b = object points (5, 0) ("icc1", "b") 1000 definition_b.type "StateQTimeExt"

-- The same points, run through in the other order.
abbrev turned_config : Config
turned_config = record sample_config {
  polled_datapoints = ("icc1:b", definition_b) ∷ ("icc1:a", definition_a) ∷ [];
}

turned_config-IsConsistent : IsConsistent turned_config
unfolding has_char lookup
turned_config-IsConsistent = record {
  refs = sample_config-IsConsistent.refs;
  labels = sample_config-IsConsistent.labels;
  polled = ((refl, refl, refl, refl), ((refl, refl, refl, refl), tt));
}

abbrev or_empty : Option String → String
or_empty none = ""
or_empty (some s) = s

abbrev read_at : DataExchangeDefinition → DataObject points
read_at def =
    object points (5, 0) (split_exchange_ref def.ref) 1000 def.type
      (or_empty (dp_type_to_str def.type))

handle_all_values-permuted_example :
    (rs : Readings points) × (rs' : Readings points) × (handle_all_values points sample_config
        (some full_peer)
        clock
      ≡ done rs)
    × (handle_all_values points turned_config (some full_peer) clock ≡ done rs')
    × Permᴰ rs rs'
unfolding dp_type_to_str
handle_all_values-permuted_example =
    handle_all_values-permuted points full_peer 1000 read_at sample_config turned_config
      sample_config-IsConsistent turned_config-IsConsistent (Permᴰ.swap refl refl)
      (refl, (refl, tt))

handle_all_values_shifted_example :
    (more : List (String × DataObject points)) × (handle_all_values points sample_config
        (some peer)
        clock
      ≡ done (("L1", object_b) ∷ more))
unfolding split_exchange_ref dp_type_to_str find_char drop_text take_text
handle_all_values_shifted_example =
    handle_all_values_shifted points sample_config peer clock "icc1:a" "icc1:b" definition_a
      definition_b [] object_b sample_config-IsConsistent refl refl refl

set_points_defined_example :
    (send_set_point_real points sample_config (some peer) 1000 "icc1" "c" 3 false
      ≡ acknowledged points definition_c (3, 0) ("icc1", "c") 1000 "Command" true)
    × (send_set_point_discrete points sample_config (some peer) 1000 "icc1" "c" (pos 1) false
        ≡ acknowledged points definition_c (7, 0) ("icc1", "c") 1000 "Command" false)
unfolding get_exchange_definition_by_ref lookup has_char dp_type_to_str
    connection_send_set_point_real connection_send_set_point_discrete
set_points_defined_example =
    set_points_defined points sample_config (some peer) 1000 "icc1" "c" (pos 1) 3 false definition_c
      "Command" refl refl refl refl

quality_fields_few_example :
    (validity source : String) × ((validity ≡ "valid") ⊎ (validity ≡ "held"))
    × ((source ≡ "telemetered") ⊎ (source ≡ "entered"))
    × (quality_fields points 12
        ≡ ("do_validity", text validity)
          ∷ ("do_cs", text source)
          ∷ ("do_quality_normal_value", text "normal")
          ∷ [])
quality_fields_few_example =
    quality_fields_few points 12 (λ e. absurd (omega (arith, e))) (λ e. absurd (omega (arith, e)))
      (λ e. absurd (omega (arith, e)))
