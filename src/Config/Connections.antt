-- ===== src/Config/Connections.antt =====
-- The loop over "connections" in importProtocolConfig (src/tase2_client_config.cpp).
pub mod Accepted
use fledge_south_tase.Common.{
  ℕ, String, Bool, true, false, ◌||◌, List, [], ◌∷◌, ◌++◌, Option, none, some, if◌then◌else◌,
}
use fledge_south_tase.Common.Int.{ℤ, pos, leb_ℤ}
use fledge_south_tase.Json.{
  Json, bool, Result, ok, thrown, fault, ◌>>=◌, get_member, at_member, get_string, get_int,
}
use fledge_south_tase.Config.{Config, RedGroup, Externals, new_red_group}
use fledge_south_tase.Config.Osi.{import_json_connection_osi_config}

-- `portVal <= 0 || portVal >= 65636`
abbrev pub is_invalid_port : ℤ → Bool
is_invalid_port p = leb_ℤ p (pos 0) || leb_ℤ (pos 65636) p

abbrev pub read_osi : Option Json → RedGroup → Result RedGroup
read_osi none g = ok g
read_osi (some v) g = import_json_connection_osi_config v g

-- A "tls" that is no Boolean leaves TLS off.
abbrev pub read_tls : Option Json → RedGroup → RedGroup
read_tls (some (bool b)) g = record g { tls = b }
read_tls _ g = g

-- The group of an address and a port that passed.
unfoldable pub make_group : Json → String → Result (Option RedGroup)
make_group v srv_ip = do
  port ← get_int (← at_member "port" v)
  g ← read_osi (← get_member "osi" v) (record new_red_group { ip_addr = srv_ip; tcp_port = port })
  tls ← get_member "tls" v
  ok (some (read_tls tls g))

-- The port is checked only if it is there; `none` is a `continue`.
abbrev pub check_port : Json → String → Option Json → Result (Option RedGroup)
check_port v srv_ip none = make_group v srv_ip
check_port v srv_ip (some p) = do
  port_val ← get_int p
  if is_invalid_port port_val then ok none else make_group v srv_ip

abbrev pub check_ip : Externals → Json → Option Json → Result (Option RedGroup)
check_ip x v none = ok none
check_ip x v (some ip) = do
  srv_ip ← get_string ip
  port ← get_member "port" v
  if x.inet_pton srv_ip then check_port v srv_ip port else ok none

-- One round of the loop: the group that is added, if any.
unfoldable pub read_connection : Externals → Json → Result (Option RedGroup)
read_connection x v = do check_ip x v (← get_member "ip_addr" v)

abbrev pub add_connection : Config → Option RedGroup → Config
add_connection c none = c
add_connection c (some g) = record c { connections = c.connections ++ g ∷ [] }

unfoldable pub import_connection : Externals → Json → Config → Result Config
import_connection x v c = do g ← read_connection x v; ok (add_connection c g)
