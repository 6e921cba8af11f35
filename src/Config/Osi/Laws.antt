-- ===== src/Config/Osi/Laws.antt =====
-- The "osi" section of a connection (src/tase2_client_config.cpp): what an accepted section has.
use fledge_south_tase.Common.{
  ℕ, ◌≤◌, String, Bool, true, ◌||◌, Option, none, some, ◌≡◌, refl, arith, length, nat_eq,
}
use fledge_south_tase.Common.Texts.{replace_char, remove_char, all_chars, is_digit}
use fledge_south_tase.Json.{Json, str, obj, Result, ok}
use fledge_south_tase.Json.Ensures.{Ensures, Ensures-ok, Ensures-thrown, Ensures-bind, Ensures-any}
use fledge_south_tase.Config.{Selector, OsiParameters, RedGroup, new_osi_parameters}
use fledge_south_tase.Config.ParseSelector.{
  parse_osi_selector, parse_osi_pselector, parse_osi_sselector, parse_osi_tselector, selector_of,
}
use fledge_south_tase.Config.ParseSelector.Laws.{parse_osi_selector-bounds}
use fledge_south_tase.Config.Osi.{
  read_ap_title, read_selector, check_ap_title, import_json_connection_osi_selectors,
  import_json_connection_osi_config,
}

-- Digits and dots.
abbrev pub is_title_char : ℕ → Bool
is_title_char c = is_digit c || nat_eq c b'.'

all_chars-remove_char :
    (p : ℕ → Bool) (k : ℕ) (s : String)
    → all_chars p (remove_char k s) ≡ true
    → all_chars (λ c. p c || nat_eq c k) s ≡ true
unfolding all_chars remove_char
all_chars-remove_char p k String.[] h = refl
all_chars-remove_char p k (String.◌∷◌ c s) h = ground (arith, all_chars-remove_char p k s)

-- A title that is accepted is the given one with its commas turned into dots, and it has digits
-- and dots only.
pub check_ap_title-ok :
    (bad s title : String)
    → check_ap_title bad s ≡ ok title
    → (title ≡ replace_char b',' "." s) × (all_chars is_title_char title ≡ true)
unfolding check_ap_title
check_ap_title-ok bad s title h = ground (arith, all_chars-remove_char is_digit b'.' title)

-- A selector whose bytes fit in its array.
abbrev pub Fits : ℕ → Selector → Type 0
Fits n s = (s.size ≡ length s.value) × (s.size ≤ n)

pub record IsValidOsi (p : OsiParameters) : Type 0 where
  pub local_title : all_chars is_title_char p.local_ap_title ≡ true
  pub remote_title : all_chars is_title_char p.remote_ap_title ≡ true
  pub local_t : Fits 4 p.local_tselector
  pub remote_t : Fits 4 p.remote_tselector
  pub local_s : Fits 16 p.local_sselector
  pub remote_s : Fits 16 p.remote_sselector
  pub local_p : Fits 16 p.local_pselector
  pub remote_p : Fits 16 p.remote_pselector

pub new_osi_parameters-IsValidOsi : IsValidOsi new_osi_parameters
unfolding all_chars
new_osi_parameters-IsValidOsi = ground arith

read_ap_title-ok :
    (bf bad old : String) (o : Option Json)
    → all_chars is_title_char old ≡ true
    → Ensures (λ t. all_chars is_title_char t ≡ true) (read_ap_title bf bad old o)
read_ap_title-ok bf bad old none v = Ensures-ok v
read_ap_title-ok bf bad old (some (str s)) v = record {
  holds = λ t h. (check_ap_title-ok bad s t h).1;
}
read_ap_title-ok bf bad old o v = Ensures-thrown

selector_of-Fits :
    (input : String) (n : ℕ) → Ensures (Fits n) (selector_of (parse_osi_selector input n))
selector_of-Fits input n =
    Ensures-bind (λ bs. length bs ≤ n)
      (record { holds = λ bs e. (parse_osi_selector-bounds input n bs e).2 })
      λ bs le. Ensures-ok (refl, le)

read_selector-Fits :
    (parse : String → Result Selector) (n : ℕ) (bad : String) (old : Selector) (o : Option Json)
    → ((input : String) → Ensures (Fits n) (parse input))
    → Fits n old
    → Ensures (Fits n) (read_selector parse bad old o)
read_selector-Fits parse n bad old none fits v = Ensures-ok v
read_selector-Fits parse n bad old (some (str t)) fits v = fits t
read_selector-Fits parse n bad old o fits v = Ensures-thrown

psel-Fits : (input : String) → Ensures (Fits 16) (parse_osi_pselector input)
unfolding parse_osi_pselector
psel-Fits input = selector_of-Fits input 16

ssel-Fits : (input : String) → Ensures (Fits 16) (parse_osi_sselector input)
unfolding parse_osi_sselector
ssel-Fits input = selector_of-Fits input 16

tsel-Fits : (input : String) → Ensures (Fits 4) (parse_osi_tselector input)
unfolding parse_osi_tselector
tsel-Fits input = selector_of-Fits input 4

import_json_connection_osi_selectors-IsValidOsi :
    (v : Json) (p : OsiParameters)
    → IsValidOsi p
    → Ensures IsValidOsi (import_json_connection_osi_selectors v p)
unfolding import_json_connection_osi_selectors
import_json_connection_osi_selectors-IsValidOsi v p i = Ensures-any _ λ o.
    Ensures-bind (Fits 16) (read_selector-Fits _ 16 _ _ o psel-Fits i.local_p) λ lp hlp.
      Ensures-any _ λ o.
        Ensures-bind (Fits 16) (read_selector-Fits _ 16 _ _ o ssel-Fits i.local_s) λ ls hls.
          Ensures-any _ λ o.
            Ensures-bind (Fits 4) (read_selector-Fits _ 4 _ _ o tsel-Fits i.local_t) λ lt hlt.
              Ensures-any _ λ o.
                Ensures-bind (Fits 16) (read_selector-Fits _ 16 _ _ o psel-Fits i.remote_p)
                  λ rp hrp. Ensures-any _ λ o.
                    Ensures-bind (Fits 16) (read_selector-Fits _ 16 _ _ o ssel-Fits i.remote_s)
                      λ rs hrs. Ensures-any _ λ o.
                        Ensures-bind (Fits 4) (read_selector-Fits _ 4 _ _ o tsel-Fits i.remote_t)
                          λ rt hrt. Ensures-ok (record {
                            local_title = i.local_title;
                            remote_title = i.remote_title;
                            local_t = hlt;
                            remote_t = hrt;
                            local_s = hls;
                            remote_s = hrs;
                            local_p = hlp;
                            remote_p = hrp;
                          })

abbrev Enables : RedGroup → RedGroup → Type 0
Enables g h =
    IsValidOsi h.osi_parameters
    × (h.is_osi_parameters_enabled ≡ true)
    × (h.ip_addr ≡ g.ip_addr)
    × (h.tcp_port ≡ g.tcp_port)
    × (h.tls ≡ g.tls)

import_json_connection_osi_config-Enables :
    (v : Json) (g : RedGroup)
    → IsValidOsi g.osi_parameters
    → Ensures (Enables g) (import_json_connection_osi_config v g)
unfolding import_json_connection_osi_config
import_json_connection_osi_config-Enables (obj ms) g i = Ensures-any _ λ a. Ensures-any _ λ la.
    Ensures-any _ λ b. Ensures-any _ λ ra. Ensures-any _ λ o.
      Ensures-bind (λ t. all_chars is_title_char t ≡ true) (read_ap_title-ok _ _ _ o i.local_title)
        λ lt hl. Ensures-any _ λ o.
          Ensures-bind (λ t. all_chars is_title_char t ≡ true)
            (read_ap_title-ok _ _ _ o i.remote_title)
            λ rt hr.
              Ensures-bind IsValidOsi
                (import_json_connection_osi_selectors-IsValidOsi _ _ (record {
                  local_title = hl;
                  remote_title = hr;
                  local_t = i.local_t;
                  remote_t = i.remote_t;
                  local_s = i.local_s;
                  remote_s = i.remote_s;
                  local_p = i.local_p;
                  remote_p = i.remote_p;
                }))
                λ q hq. Ensures-ok (hq, refl, refl, refl, refl)
import_json_connection_osi_config-Enables v g i = Ensures-thrown

-- An "osi" section that is accepted enables the group's OSI parameters and leaves the group's
-- address, port and TLS flag alone; its titles have digits and dots only, and every selector's
-- size is the number of its bytes and fits in its array, if that held of the group before.
pub import_json_connection_osi_config-IsValidOsi :
    (v : Json) (g h : RedGroup)
    → IsValidOsi g.osi_parameters
    → import_json_connection_osi_config v g ≡ ok h
    → IsValidOsi h.osi_parameters
      × (h.is_osi_parameters_enabled ≡ true)
      × (h.ip_addr ≡ g.ip_addr)
      × (h.tcp_port ≡ g.tcp_port)
      × (h.tls ≡ g.tls)
import_json_connection_osi_config-IsValidOsi v g h i e =
    (import_json_connection_osi_config-Enables v g i).holds h e
