-- ===== src/Config/Connections/Accepted.antt =====
-- Which connections importProtocolConfig accepts (src/tase2_client_config.cpp).
use fledge_south_tase.Common.{
  ℕ, ◌≤◌, String, true, false, [], ◌∷◌, ◌++◌, Option, none, some, ◌≡◌, refl, subst, arith, All,
  All-append, if◌then◌else◌, inl, inr, Bool-cases,
}
use fledge_south_tase.Common.Int.{ℤ, pos, negsuc}
use fledge_south_tase.Common.Maps.{lookup}
use fledge_south_tase.Json.{
  Json, bool, int, str, obj, end, member, ok, ◌>>=◌, get_member, at_member, get_int,
}
use fledge_south_tase.Json.Ensures.{Ensures, Ensures-ok, Ensures-fault, Ensures-bind, Ensures-any}
use fledge_south_tase.Config.{Config, RedGroup, Externals, new_red_group}
use fledge_south_tase.Config.Osi.Laws.{
  IsValidOsi, new_osi_parameters-IsValidOsi, import_json_connection_osi_config-IsValidOsi,
}
use fledge_south_tase.Config.Connections.{
  is_invalid_port, read_osi, read_tls, make_group, check_port, check_ip, read_connection,
  add_connection, import_connection,
}

-- A port that the check lets through.
abbrev pub InRange : ℤ → Type 0
InRange z = (n : ℕ) × (z ≡ pos n) × (1 ≤ n) × (n ≤ 65635)

module _ (x : Externals) where
  pub record IsValidGroup (g : RedGroup) : Type 0 where
    pub address : x.inet_pton g.ip_addr ≡ true
    pub port : InRange g.tcp_port
    pub osi : IsValidOsi g.osi_parameters

  abbrev pub IsValidOption : Option RedGroup → Type 0
  IsValidOption none = Unit {0}
  IsValidOption (some g) = IsValidGroup g

  read_tls-IsValidGroup :
      (o : Option Json) (g : RedGroup) → IsValidGroup g → IsValidGroup (read_tls o g)
  read_tls-IsValidGroup (some (bool b)) g v = record {
    address = v.address;
    port = v.port;
    osi = v.osi;
  }
  read_tls-IsValidGroup o g v = v

  read_osi-IsValidGroup :
      (o : Option Json) (g : RedGroup) → IsValidGroup g → Ensures IsValidGroup (read_osi o g)
  read_osi-IsValidGroup none g v = Ensures-ok v
  read_osi-IsValidGroup (some j) g v = record {
    holds = λ h e.
        let (osi, _, ip, port, _) = import_json_connection_osi_config-IsValidOsi j g h v.osi e in
        record { address = rw ip v.address; port = rw port v.port; osi = osi };
  }

  -- Every port that can be read from the value passed the check.
  abbrev PortsInRange : Json → Type 0
  PortsInRange v = (p : Json) (z : ℤ) → at_member "port" v ≡ ok p → get_int p ≡ ok z → InRange z

  make_group-IsValidGroup :
      (v : Json) (ip : String)
      → x.inet_pton ip ≡ true
      → PortsInRange v
      → Ensures IsValidOption (make_group v ip)
  unfolding make_group
  make_group-IsValidGroup v ip good ports =
      Ensures-bind (λ p. at_member "port" v ≡ ok p) (record { holds = λ p e. e })
        λ p hp.
          Ensures-bind (λ z. get_int p ≡ ok z) (record { holds = λ z e. e })
            λ z hz. Ensures-any _ λ o.
              Ensures-bind IsValidGroup
                (read_osi-IsValidGroup o _ (record {
                  address = good;
                  port = ports p z hp hz;
                  osi = new_osi_parameters-IsValidOsi;
                }))
                λ g hg. Ensures-any _ λ t. Ensures-ok (read_tls-IsValidGroup t g hg)

  port-InRange : (z : ℤ) → is_invalid_port z ≡ false → InRange z
  port-InRange (pos n) h = (n, refl, ground arith, ground arith)
  port-InRange (negsuc n) h = ground arith

  check_port-IsValidGroup :
      (v : Json) (ip : String) (o : Option Json)
      → x.inet_pton ip ≡ true
      → get_member "port" v ≡ ok o
      → Ensures IsValidOption (check_port v ip o)
  unfolding ◌>>=◌
  check_port-IsValidGroup v ip none good e =
      make_group-IsValidGroup v ip good (λ p z h k. absurd (missing p h))
    where
      missing : (p : Json) → at_member "port" v ≡ ok p → ⊥
      missing p h = cc (rw e at h)
  check_port-IsValidGroup v ip (some (int z)) good e = elim (Bool-cases (is_invalid_port z)) [
    | inl bad ↦ rw bad (Ensures-ok tt)
    | inr fine ↦ rw fine (
        make_group-IsValidGroup v ip good
          λ p z' h k. subst InRange (same p z' h k) (port-InRange z fine))
  ]
    where
      same : (p : Json) (z' : ℤ) → at_member "port" v ≡ ok p → get_int p ≡ ok z' → z ≡ z'
      same p z' h k = ground (arith, rw e at h)
  check_port-IsValidGroup v ip (some p) good e = Ensures-fault

  read_connection-IsValidGroup : (v : Json) → Ensures IsValidOption (read_connection x v)
  unfolding read_connection
  read_connection-IsValidGroup v = Ensures-any _ λ o. checked o
    where
      tested :
          (ip : String) (o : Option Json)
          → get_member "port" v ≡ ok o
          → Ensures IsValidOption (if x.inet_pton ip then check_port v ip o else ok none)
      tested ip o e = elim (Bool-cases (x.inet_pton ip)) [
        | inl good ↦ rw good (check_port-IsValidGroup v ip o good e)
        | inr bad ↦ rw bad (Ensures-ok tt)
      ]

      checked : (o : Option Json) → Ensures IsValidOption (check_ip x v o)
      checked none = Ensures-ok tt
      checked (some ip) = Ensures-any _ λ srv_ip.
          Ensures-bind (λ o. get_member "port" v ≡ ok o) (record { holds = λ o e. e })
            λ o e. tested srv_ip o e

  abbrev pub HasValidConnections : Config → Type 0
  HasValidConnections c = All IsValidGroup c.connections

  pub import_connection-HasValidConnections :
      (v : Json) (c : Config)
      → HasValidConnections c
      → Ensures HasValidConnections (import_connection x v c)
  unfolding import_connection
  import_connection-HasValidConnections v c h =
      Ensures-bind IsValidOption (read_connection-IsValidGroup v) λ o g. Ensures-ok (added o g)
    where
      added : (o : Option RedGroup) → IsValidOption o → HasValidConnections (add_connection c o)
      added none g = h
      added (some r) g = All-append IsValidGroup c.connections (r ∷ []) h (g, tt)

-- The port test lets numbers through that are no ports: a connection with a valid address and a
-- port from 65536 to 65635, and nothing else configured, is added with that port.
pub import_connection_no_port :
    (x : Externals) (c : Config) (ip : String) (n : ℕ)
    → x.inet_pton ip ≡ true
    → 65536 ≤ n
    → n ≤ 65635
    → import_connection x (obj (member "ip_addr" (str ip) (member "port" (int (pos n)) end))) c
      ≡ ok (record c {
        connections = c.connections ++ record new_red_group { ip_addr = ip; tcp_port = pos n } ∷ [];
      })
unfolding import_connection read_connection make_group ◌>>=◌ lookup
import_connection_no_port x c ip n good lo hi = rw (good, small) refl
  where
    small : is_invalid_port (pos n) ≡ false
    small = ground arith
