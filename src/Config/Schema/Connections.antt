-- ===== src/Config/Schema/Connections.antt =====
-- A connection of the right shape fails no accessor (src/tase2_client_config.cpp).
use fledge_south_tase.Common.{String, Bool, true, false, Option, none, some, if◌then◌else◌}
use fledge_south_tase.Json.{Json, ok, find_member}
use fledge_south_tase.Json.Shape.{IsObject, IsInt, Has}
use fledge_south_tase.Json.NoFault.{
  NoFault, returns, NoFault-bind, get_string-NoFault, get_int-NoFault, get_member-NoFault,
  at_member-NoFault,
}
use fledge_south_tase.Config.{Config, RedGroup, Externals}
use fledge_south_tase.Config.Connections.{
  is_invalid_port, read_osi, make_group, check_port, check_ip, read_connection, import_connection,
}
use fledge_south_tase.Config.Schema.{IsAddress, IsConnection}
use fledge_south_tase.Config.Schema.Osi.{osi_config-NoFault}

read_osi-NoFault : (o : Option Json) (g : RedGroup) → NoFault (read_osi o g)
read_osi-NoFault none g = returns
read_osi-NoFault (some v) g = osi_config-NoFault v g

make_group-NoFault :
    (v : Json) (srv_ip : String)
    → IsObject v
    → Has IsInt (find_member "port" v)
    → NoFault (make_group v srv_ip)
unfolding make_group
make_group-NoFault v srv_ip object port = at_member-NoFault IsInt "port" v _ object port λ p is_int.
    NoFault-bind (get_int-NoFault p is_int) λ z. get_member-NoFault "osi" v _ object (
      NoFault-bind (read_osi-NoFault (find_member "osi" v) _)
        λ g. get_member-NoFault "tls" v _ object returns)

check_port-NoFault :
    (v : Json) (srv_ip : String) (o : Option Json)
    → IsObject v
    → Has IsInt (find_member "port" v)
    → Has IsInt o
    → NoFault (check_port v srv_ip o)
check_port-NoFault v srv_ip none object port h = absurd h
check_port-NoFault v srv_ip (some p) object port h =
    NoFault-bind (get_int-NoFault p h) λ z. tested (is_invalid_port z)
  where
    tested : (b : Bool) → NoFault (if b then ok none else make_group v srv_ip)
    tested true = returns
    tested false = make_group-NoFault v srv_ip object port

check_ip-NoFault :
    (x : Externals) (v : Json) (o : Option Json)
    → IsObject v
    → IsAddress v o
    → NoFault (check_ip x v o)
check_ip-NoFault x v none object h = returns
check_ip-NoFault x v (some ip) object (text, port) =
    NoFault-bind (get_string-NoFault ip text)
      λ srv_ip. get_member-NoFault "port" v _ object (tested srv_ip (x.inet_pton srv_ip))
  where
    tested :
        (srv_ip : String) (b : Bool)
        → NoFault (if b then check_port v srv_ip (find_member "port" v) else ok none)
    tested srv_ip true = check_port-NoFault v srv_ip (find_member "port" v) object port port
    tested srv_ip false = returns

pub import_connection-NoFault :
    (x : Externals) (v : Json) (c : Config) → IsConnection v → NoFault (import_connection x v c)
unfolding import_connection read_connection
import_connection-NoFault x v c (object, address) =
    NoFault-bind
      (get_member-NoFault "ip_addr" v _ object
        (check_ip-NoFault x v (find_member "ip_addr" v) object address))
      λ g. returns
