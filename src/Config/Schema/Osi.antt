-- ===== src/Config/Schema/Osi.antt =====
-- An "osi" section never fails an accessor, whatever it is: the import tests what it reads
-- (src/tase2_client_config.cpp).
use fledge_south_tase.Common.{
  ℕ, suc, String, Bool, true, false, List, [], ◌∷◌, ltb, leb, Option, none, some, if◌then◌else◌,
}
use fledge_south_tase.Common.Numbers.{Number, number, invalid_argument, out_of_range, stoul}
use fledge_south_tase.Common.Texts.{replace_char, remove_char, all_chars, is_digit}
use fledge_south_tase.Common.Tokens.{tokens}
use fledge_south_tase.Common.Int.{ℤ}
use fledge_south_tase.Json.{Json, int, str, obj, Result, ◌>>=◌, find_member, get_member}
use fledge_south_tase.Json.Shape.{IsObject}
use fledge_south_tase.Json.NoFault.{NoFault, returns, throws, NoFault-bind, get_member-NoFault}
use fledge_south_tase.Config.{Selector, OsiParameters, RedGroup}
use fledge_south_tase.Config.ParseSelector.{
  is_delimiter, starts_0x, byte_of, parse_byte, parse_tokens, parse_osi_selector, selector_of,
  parse_osi_pselector, parse_osi_sselector, parse_osi_tselector,
}
use fledge_south_tase.Config.Osi.{
  read_int, check_ap_title, read_ap_title, read_selector, import_json_connection_osi_selectors,
  import_json_connection_osi_config,
}

either-NoFault {ℓ} :
    {A : Type ℓ} (b : Bool) {r s : Result A} → NoFault r → NoFault s → NoFault (if b then r else s)
either-NoFault true h k = h
either-NoFault false h k = k

parse_byte-NoFault : (token : String) → NoFault (parse_byte token)
unfolding parse_byte
parse_byte-NoFault token = go (stoul (if starts_0x token then 16 else 10) token)
  where
    go : (n : Number ℕ) → NoFault (byte_of n)
    go (number ul) = either-NoFault (ltb 255 ul) throws returns
    go invalid_argument = throws
    go out_of_range = throws

parse_tokens-NoFault : (size count : ℕ) (ts : List String) → NoFault (parse_tokens size count ts)
unfolding parse_tokens
parse_tokens-NoFault size count [] = returns
parse_tokens-NoFault size count (t ∷ ts) = either-NoFault (leb size count) throws (
    NoFault-bind (parse_byte-NoFault t)
      λ b. NoFault-bind (parse_tokens-NoFault size (suc count) ts) λ bs. returns)

selector-NoFault :
    (input : String) (size : ℕ) → NoFault (selector_of (parse_osi_selector input size))
unfolding parse_osi_selector
selector-NoFault input size =
    NoFault-bind (parse_tokens-NoFault size 0 (tokens is_delimiter input)) λ bs. returns

read_selector-NoFault :
    (parse : String → Result Selector) (bad : String) (old : Selector) (o : Option Json)
    → ((s : String) → NoFault (parse s))
    → NoFault (read_selector parse bad old o)
read_selector-NoFault parse bad old none h = returns
read_selector-NoFault parse bad old (some (str s)) h = h s
read_selector-NoFault parse bad old (some _) h = throws

read_int-NoFault : (bad : String) (old : ℤ) (o : Option Json) → NoFault (read_int bad old o)
read_int-NoFault bad old none = returns
read_int-NoFault bad old (some (int z)) = returns
read_int-NoFault bad old (some _) = throws

read_ap_title-NoFault : (f b old : String) (o : Option Json) → NoFault (read_ap_title f b old o)
unfolding check_ap_title
read_ap_title-NoFault f b old none = returns
read_ap_title-NoFault f b old (some (str s)) =
    either-NoFault (all_chars is_digit (remove_char b'.' (replace_char b',' "." s))) returns throws
read_ap_title-NoFault f b old (some _) = throws

-- A member that the reader takes in any form.
read_member {ℓ κ} :
    {A : Type ℓ} {B : Type κ} (key : String) (v : Json) (read : Option Json → Result A)
    (k : A → Result B)
    → IsObject v
    → ((o : Option Json) → NoFault (read o))
    → ((a : A) → NoFault (k a))
    → NoFault (get_member key v >>= λ o. read o >>= k)
read_member key v read k h r n =
    get_member-NoFault key v _ h (NoFault-bind (r (find_member key v)) n)

pselector : (s : String) → NoFault (parse_osi_pselector s)
unfolding parse_osi_pselector
pselector s = selector-NoFault s 16

sselector : (s : String) → NoFault (parse_osi_sselector s)
unfolding parse_osi_sselector
sselector s = selector-NoFault s 16

tselector : (s : String) → NoFault (parse_osi_tselector s)
unfolding parse_osi_tselector
tselector s = selector-NoFault s 4

selectors-NoFault :
    (v : Json) (p : OsiParameters) → IsObject v → NoFault (import_json_connection_osi_selectors v p)
unfolding import_json_connection_osi_selectors
selectors-NoFault v p h =
    read_member _ v _ _ h (λ o. read_selector-NoFault _ _ _ o pselector)
      λ lp.
        read_member _ v _ _ h (λ o. read_selector-NoFault _ _ _ o sselector)
          λ ls.
            read_member _ v _ _ h (λ o. read_selector-NoFault _ _ _ o tselector)
              λ lt.
                read_member _ v _ _ h (λ o. read_selector-NoFault _ _ _ o pselector)
                  λ rp.
                    read_member _ v _ _ h (λ o. read_selector-NoFault _ _ _ o sselector)
                      λ rs.
                        read_member _ v _ _ h (λ o. read_selector-NoFault _ _ _ o tselector)
                          λ rt. returns

pub osi_config-NoFault : (v : Json) (g : RedGroup) → NoFault (import_json_connection_osi_config v g)
unfolding import_json_connection_osi_config
osi_config-NoFault (obj ms) g = read_member _ (obj ms) _ _ tt (read_int-NoFault _ _) λ la.
    read_member _ (obj ms) _ _ tt (read_int-NoFault _ _) λ ra.
      read_member _ (obj ms) _ _ tt (read_ap_title-NoFault _ _ _) λ lt.
        read_member _ (obj ms) _ _ tt (read_ap_title-NoFault _ _ _)
          λ rt. NoFault-bind (selectors-NoFault (obj ms) _ tt) λ q. returns
osi_config-NoFault _ g = throws
