-- ===== src/Connection/Thread/Handles/Quiet.antt =====
-- Calls that neither make nor destroy an endpoint or a client
-- (src/tase2_client_connection.cpp).
use fledge_south_tase.Common.{
  ℕ, String, Bool, true, false, List, [], ◌∷◌, ◌++◌, map, Option, none, some, ◌≡◌, refl, ◌∙◌,
  if◌then◌else◌, ◌||◌,
}
use mathlib.Core.List.{append-nil}
use fledge_south_tase.Common.Texts.{is_empty, ◌⧺◌}
use fledge_south_tase.Config.{Config, OsiParameters}
use fledge_south_tase.Connection.{
  Connection, Call, Library, set_remote_ap_title, set_local_ap_title, set_remote_addresses,
  set_local_addresses, dsts_destroy, data_set_destroy, tls_add_allowed_certificate,
  tls_add_ca_certificate, tls_set_own_key, tls_set_own_certificate,
}
use fledge_south_tase.Connection.Tls.{
  load, load_own, load_all, load_remote, load_ca, certificate_file, configure_tls,
}
use fledge_south_tase.Connection.Prepare.{osi_calls, address_calls}
use fledge_south_tase.Connection.Thread.{osi_again}
use fledge_south_tase.Connection.Thread.Handles.{events, events-append}

pub record IsQuiet (calls : List Call) : Type 0 where
  pub quiet : events calls ≡ []

pub IsQuiet-append :
    (front back : List Call) → IsQuiet front → IsQuiet back → IsQuiet (front ++ back)
IsQuiet-append front back p q = record {
  quiet = events-append front back ∙ rw (p.quiet, q.quiet) refl;
}

-- What quiet calls add.
pub events-quiet : (calls more : List Call) → IsQuiet more → events (calls ++ more) ≡ events calls
events-quiet calls more q = events-append calls more ∙ rw q.quiet (append-nil (events calls))

if-IsQuiet :
    (b : Bool) (front back : List Call)
    → IsQuiet front
    → IsQuiet back
    → IsQuiet (if b then front else back)
if-IsQuiet true front back p q = p
if-IsQuiet false front back p q = q

if_first-IsQuiet :
    (b : Bool) (r s : List Call × Bool)
    → IsQuiet r.0
    → IsQuiet s.0
    → IsQuiet (if◌then◌else◌ {A = List Call × Bool} b r s).0
if_first-IsQuiet true r s p q = p
if_first-IsQuiet false r s p q = q

-- A call of a kind that is quiet whatever its text is.
abbrev EachQuiet : (String → Call) → Type 0
EachQuiet call = (s : String) → IsQuiet (call s ∷ [])

load-IsQuiet :
    (l : Library) (call : String → Call) (loads : String → Bool) (file : String)
    → EachQuiet call
    → IsQuiet (load l call loads file).0
unfolding events
load-IsQuiet l call loads file q =
    if_first-IsQuiet (l.can_read file) (call file ∷ [], loads file) ([], false) (q file)
      (record { quiet = refl })

load_all-IsQuiet :
    (l : Library) (call : String → Call) (names : List String)
    → EachQuiet call
    → IsQuiet (load_all l call names)
unfolding load_all events
load_all-IsQuiet l call [] q = record { quiet = refl }
load_all-IsQuiet l call (name ∷ names) q =
    IsQuiet-append (load l call (λ s. true) (certificate_file l name)).0 (load_all l call names)
      (load-IsQuiet l call (λ s. true) (certificate_file l name) q)
      (load_all-IsQuiet l call names q)

load_own-IsQuiet : (l : Library) (config : Config) → IsQuiet (load_own l config).0
unfolding load_own events
load_own-IsQuiet l config =
    if_first-IsQuiet (is_empty config.own_certificate || is_empty config.private_key) ([], false)
      (key.0 ++ own.0, _) (record { quiet = refl })
      (IsQuiet-append key.0 own.0
        (load-IsQuiet l tls_set_own_key l.own_key_loads _ λ s. record { quiet = refl })
        (load-IsQuiet l tls_set_own_certificate l.own_certificate_loads _
          λ s. record { quiet = refl }))
  where
    key : List Call × Bool
    key = load l tls_set_own_key l.own_key_loads (l.data_dir ⧺ ("/etc/certs/" ⧺ config.private_key))

    own : List Call × Bool
    own =
        load l tls_set_own_certificate l.own_certificate_loads
          (certificate_file l config.own_certificate)

load_remote-IsQuiet : (l : Library) (names : List String) → IsQuiet (load_remote l names)
unfolding events
load_remote-IsQuiet l [] = record { quiet = refl }
load_remote-IsQuiet l (name ∷ names) = record {
  quiet =
      (load_all-IsQuiet l tls_add_allowed_certificate (name ∷ names)
        λ s. record { quiet = refl }).quiet;
}

load_ca-IsQuiet : (l : Library) (names : List String) → IsQuiet (load_ca l names)
unfolding events
load_ca-IsQuiet l [] = record { quiet = refl }
load_ca-IsQuiet l (name ∷ names) = record {
  quiet =
      (load_all-IsQuiet l tls_add_ca_certificate (name ∷ names) λ s. record { quiet = refl }).quiet;
}

pub configure_tls-IsQuiet : (l : Library) (config : Config) → IsQuiet (configure_tls l config).0
unfolding configure_tls
configure_tls-IsQuiet l config =
    IsQuiet-append (load_own l config).0 _ (load_own-IsQuiet l config) (
      IsQuiet-append (load_remote l config.remote_certificates) (load_ca l config.ca_certificates)
        (load_remote-IsQuiet l config.remote_certificates)
        (load_ca-IsQuiet l config.ca_certificates))

pub osi_calls-IsQuiet : (p : OsiParameters) → IsQuiet (osi_calls p)
unfolding osi_calls events
osi_calls-IsQuiet p =
    IsQuiet-append (remote ++ local)
      (set_remote_addresses p.remote_pselector p.remote_sselector p.local_tselector
        ∷ set_local_addresses p.local_pselector p.local_sselector p.remote_tselector
        ∷ [])
      (IsQuiet-append remote local (title-IsQuiet remote_empty _ (record { quiet = refl }))
        (title-IsQuiet local_empty _ (record { quiet = refl })))
      (record { quiet = refl })
  where
    remote_empty : Bool
    remote_empty = is_empty p.remote_ap_title

    local_empty : Bool
    local_empty = is_empty p.local_ap_title

    title : Bool → Call → List Call
    title b call = if b then [] else call ∷ []

    remote : List Call
    remote = title remote_empty (set_remote_ap_title p.remote_ap_title p.remote_ae_qualifier)

    local : List Call
    local = title local_empty (set_local_ap_title p.local_ap_title p.local_ae_qualifier)

    title-IsQuiet : (b : Bool) (call : Call) → IsQuiet (call ∷ []) → IsQuiet (title b call)
    title-IsQuiet b call q = if-IsQuiet b [] (call ∷ []) (record { quiet = refl }) q

pub address_calls-IsQuiet : (c : Connection) → IsQuiet (address_calls c)
unfolding events
address_calls-IsQuiet c =
    if-IsQuiet c.passive (_ ∷ []) (_ ∷ _ ∷ []) (record { quiet = refl }) (record { quiet = refl })

pub osi_again-IsQuiet : (c : Connection) → IsQuiet (osi_again c)
unfolding events
osi_again-IsQuiet c = go c.osi_parameters
  where
    go : (o : Option OsiParameters) → IsQuiet (elim o [ none ↦ [] | some p ↦ osi_calls p ])
    go none = record { quiet = refl }
    go (some p) = osi_calls-IsQuiet p

pub dsts_destroy-IsQuiet : (hs : List ℕ) → IsQuiet (map dsts_destroy hs)
unfolding events
dsts_destroy-IsQuiet [] = record { quiet = refl }
dsts_destroy-IsQuiet (h ∷ hs) = record { quiet = (dsts_destroy-IsQuiet hs).quiet }

pub data_set_destroy-IsQuiet : (hs : List ℕ) → IsQuiet (map data_set_destroy hs)
unfolding events
data_set_destroy-IsQuiet [] = record { quiet = refl }
data_set_destroy-IsQuiet (h ∷ hs) = record { quiet = (data_set_destroy-IsQuiet hs).quiet }
