-- ===== src/DpType.antt =====
-- The data point types: DPTYPE and getDpTypeFromString (include/tase2_client_config.hpp,
-- src/tase2_client_config.cpp), dpTypeToStr, hasQuality and hasTimestamp (src/tase2_client.cpp).
pub mod Laws
use fledge_south_tase.Common.{
  ℕ, ◌+◌, ◌%◌, String, Bool, true, false, ◌&&◌, not, List, [], ◌∷◌, Option, none, some, leb, ltb,
  nat_eq,
}
use fledge_south_tase.Common.Maps.{lookup}
use fledge_south_tase.Common.Int.{ℤ, pos, negsuc, leb_ℤ, neg, is_zero}

pub data DpType : Type 0 where
  real realq realqtime realqtimeext : DpType
  state stateq stateqtime stateqtimeext : DpType
  discrete discreteq discreteqtime discreteqtimeext : DpType
  statesup statesupq statesupqtime statesupqtimeext : DpType
  command setpointreal setpointdiscrete : DpType
  dp_type_unknown : DpType

-- The enumerators' values.
abbrev pub value : DpType → ℤ
value real = pos 0
value realq = pos 1
value realqtime = pos 2
value realqtimeext = pos 3
value state = pos 4
value stateq = pos 5
value stateqtime = pos 6
value stateqtimeext = pos 7
value discrete = pos 8
value discreteq = pos 9
value discreteqtime = pos 10
value discreteqtimeext = pos 11
value statesup = pos 12
value statesupq = pos 13
value statesupqtime = pos 14
value statesupqtimeext = pos 15
value command = pos 16
value setpointreal = pos 17
value setpointdiscrete = pos 18
value dp_type_unknown = negsuc 0

-- `%` of two ints: the quotient is cut towards zero, so the remainder has the sign of the first.
abbrev pub rem4 : ℤ → ℤ
rem4 (pos n) = pos (n % 4)
rem4 (negsuc n) = neg ((n + 1) % 4)

-- `type < COMMAND`
abbrev pub below_command : DpType → Bool
below_command t = not (leb_ℤ (value command) (value t))

unfoldable pub has_quality : DpType → Bool
has_quality t = not (is_zero (rem4 (value t))) && below_command t

unfoldable pub has_timestamp : DpType → Bool
has_timestamp t = leb_ℤ (pos 2) (rem4 (value t)) && below_command t

-- `dpTypeMap`
abbrev pub dp_type_map : List (String × DpType)
dp_type_map =
    ("State", state)
    ∷ ("StateQ", stateq)
    ∷ ("StateQTime", stateqtime)
    ∷ ("StateQTimeExt", stateqtimeext)
    ∷ ("Real", real)
    ∷ ("RealQ", realq)
    ∷ ("RealQTime", realqtime)
    ∷ ("RealQTimeExt", realqtimeext)
    ∷ ("Discrete", discrete)
    ∷ ("DiscreteQ", discreteq)
    ∷ ("DiscreteQTime", discreteqtime)
    ∷ ("DiscreteQTimeExt", discreteqtimeext)
    ∷ ("StateSup", statesup)
    ∷ ("StateSupQ", statesupq)
    ∷ ("StateSupQTime", statesupqtime)
    ∷ ("StateSupQTimeExt", statesupqtimeext)
    ∷ ("Command", command)
    ∷ ("SetPointReal", setpointreal)
    ∷ ("SetPointDiscrete", setpointdiscrete)
    ∷ []

abbrev or_unknown : Option DpType → DpType
or_unknown none = dp_type_unknown
or_unknown (some t) = t

unfoldable pub get_dp_type_from_string : String → DpType
get_dp_type_from_string s = or_unknown (lookup s dp_type_map)

-- `DpTypeMap.at`: `none` is std::out_of_range.
unfoldable pub dp_type_to_str : DpType → Option String
dp_type_to_str state = some "State"
dp_type_to_str stateq = some "StateQ"
dp_type_to_str stateqtime = some "StateQTime"
dp_type_to_str stateqtimeext = some "StateQTimeExt"
dp_type_to_str real = some "Real"
dp_type_to_str realq = some "RealQ"
dp_type_to_str realqtime = some "RealQTime"
dp_type_to_str realqtimeext = some "RealQTimeExt"
dp_type_to_str discrete = some "Discrete"
dp_type_to_str discreteq = some "DiscreteQ"
dp_type_to_str discreteqtime = some "DiscreteQTime"
dp_type_to_str discreteqtimeext = some "DiscreteQTimeExt"
dp_type_to_str statesup = some "StateSup"
dp_type_to_str statesupq = some "StateSupQ"
dp_type_to_str statesupqtime = some "StateSupQTime"
dp_type_to_str statesupqtimeext = some "StateSupQTimeExt"
dp_type_to_str command = some "Command"
dp_type_to_str setpointreal = some "SetPointReal"
dp_type_to_str setpointdiscrete = some "SetPointDiscrete"
dp_type_to_str dp_type_unknown = none
