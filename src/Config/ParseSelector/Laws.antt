-- ===== src/Config/ParseSelector/Laws.antt =====
-- parseOsiSelector (src/tase2_client_config.cpp): its bounds, and reading back what is printed.
use fledge_south_tase.Common.{
  ℕ, suc, ◌+◌, ◌≤◌, ◌<◌, String, List, [], ◌∷◌, length, All, arith, ◌≡◌, leb, inl, inr, Bool-cases,
}
use fledge_south_tase.Common.Tokens.{tokens}
use fledge_south_tase.Json.{ok, bind-ok}
use fledge_south_tase.Config.ParseSelector.{
  is_delimiter, parse_byte, parse_tokens, parse_osi_selector,
}

parse_byte-lt : (t : String) (b : ℕ) → parse_byte t ≡ ok b → b < 256
unfolding parse_byte
parse_byte-lt t b h = ground arith

-- What a run of the loop that succeeds has written.
parse_tokens-bounds :
    (size count : ℕ) (ts : List String) (bs : List ℕ)
    → parse_tokens size count ts ≡ ok bs
    → (length bs ≡ length ts) × All (λ b. b < 256) bs × (count ≤ size → count + length bs ≤ size)
unfolding parse_tokens
parse_tokens-bounds size count [] bs h = ground arith
parse_tokens-bounds size count (t ∷ ts) bs h = elim (Bool-cases (leb size count)) [
  | inl full ↦ ground arith
  | inr room ↦
      let (b, eb, hb) = bind-ok (parse_byte t) _ (rw room at h) in
      let (cs, ec, hc) = bind-ok (parse_tokens size (suc count) ts) _ hb in
      ground (arith, parse_byte-lt t b eb, parse_tokens-bounds size (suc count) ts cs ec)
]

-- A selector that is accepted has one byte for each token of the text, every byte is below 256,
-- and the bytes fit in the array.
pub parse_osi_selector-bounds :
    (input : String) (size : ℕ) (bs : List ℕ)
    → parse_osi_selector input size ≡ ok bs
    → (length bs ≡ length (tokens is_delimiter input)) × All (λ b. b < 256) bs × (length bs ≤ size)
unfolding parse_osi_selector
parse_osi_selector-bounds input size bs h =
    ground (arith, parse_tokens-bounds size 0 (tokens is_delimiter input) bs h)
