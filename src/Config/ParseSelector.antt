-- ===== src/Config/ParseSelector.antt =====
-- parseOsiSelector and its three callers (src/tase2_client_config.cpp): the bytes of an OSI
-- selector, written as numbers between spaces, commas, dots or dashes.
pub mod Laws
pub mod Printing
use fledge_south_tase.Common.{
  ℕ, suc, ◌+◌, String, code, Bool, true, false, ◌||◌, ◌&&◌, List, [], ◌∷◌, ltb, leb, nat_eq, length,
  if◌then◌else◌,
}
use fledge_south_tase.Common.Numbers.{Number, number, invalid_argument, out_of_range, stoul}
use fledge_south_tase.Common.Tokens.{tokens}
use fledge_south_tase.Json.{Result, ok, thrown, ◌>>=◌}
use fledge_south_tase.Config.{Selector}

-- The delimiters " ,.-".
abbrev pub is_delimiter : ℕ → Bool
is_delimiter c = nat_eq c 32 || (nat_eq c b',' || (nat_eq c b'.' || nat_eq c b'-'))

-- strncmp (token, "0x", 2) == 0
abbrev pub starts_0x : String → Bool
starts_0x (String.◌∷◌ z (String.◌∷◌ x s)) = nat_eq (code z) b'0' && nat_eq (code x) b'x'
starts_0x s = false

abbrev pub byte_of : Number ℕ → Result ℕ
byte_of (number ul) =
    if ltb 255 ul then thrown "bad format for 'OSI Selector' (exceed a byte)" else ok ul
byte_of invalid_argument = thrown "bad format for 'OSI Selector' (not a byte)"
byte_of out_of_range = thrown "bad format for 'OSI Selector (exceed an int)'"

-- One token: decimal, or hexadecimal behind "0x".
unfoldable pub parse_byte : String → Result ℕ
parse_byte token = byte_of (stoul (if starts_0x token then 16 else 10) token)

-- The loop; `count` bytes are written already.
unfoldable pub parse_tokens : ℕ → ℕ → List String → Result (List ℕ)
parse_tokens size count [] = ok []
parse_tokens size count (token ∷ rest) =
    if leb size count
    then thrown "bad format for 'OSI Selector' (too many bytes)"
    else do b ← parse_byte token; bs ← parse_tokens size (suc count) rest; ok (b ∷ bs)

-- The bytes written; the code returns their number.
unfoldable pub parse_osi_selector : String → ℕ → Result (List ℕ)
unfolding parse_tokens
parse_osi_selector input size = parse_tokens size 0 (tokens is_delimiter input)

abbrev pub selector_of : Result (List ℕ) → Result Selector
selector_of r = do bs ← r; ok (record { size = length bs; value = bs })

unfoldable pub parse_osi_pselector : String → Result Selector
parse_osi_pselector input = selector_of (parse_osi_selector input 16)

unfoldable pub parse_osi_sselector : String → Result Selector
parse_osi_sselector input = selector_of (parse_osi_selector input 16)

unfoldable pub parse_osi_tselector : String → Result Selector
parse_osi_tselector input = selector_of (parse_osi_selector input 4)
