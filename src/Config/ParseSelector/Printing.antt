-- ===== src/Config/ParseSelector/Printing.antt =====
-- Reading back a printed selector (parseOsiSelector, src/tase2_client_config.cpp). The printer is
-- not part of the plugin: it writes the bytes in decimal with one delimiter between them.
use mathlib.Core.Path.{ap₂}
use fledge_south_tase.Common.{
  ℕ, zero, suc, ◌+◌, ◌≤◌, ◌<◌, String, Char, code, Bool, true, false, ◌&&◌, not, List, [], ◌∷◌, map,
  length, All, arith, ◌≡◌, refl, ap, ◌∙◌, leb, nat_eq, inl, inr, Bool-cases,
}
use fledge_south_tase.Common.Texts.{◌⧺◌, all_chars, is_empty, to_string, nil-append}
use fledge_south_tase.Common.Tokens.{tokens, tokens_from-append, tokens_from_last}
use fledge_south_tase.Common.Numbers.{stoul}
use fledge_south_tase.Json.{Result, ok, thrown, fault, ◌>>=◌}
use fledge_south_tase.Config.ParseSelector.{
  is_delimiter, parse_byte, parse_tokens, parse_osi_selector,
}

pub print_selector : Char → List ℕ → String
print_selector sep [] = ""
print_selector sep (b ∷ []) = to_string b
print_selector sep (b ∷ c ∷ bs) = to_string b ⧺ String.◌∷◌ sep (print_selector sep (c ∷ bs))

-- A test of every number under a bound, by evaluation.
passes_under : (test : ℕ → Bool) → ℕ → Bool
passes_under test zero = true
passes_under test (suc bound) = passes_under test bound && test bound

passes_under-lt :
    (test : ℕ → Bool) (bound b : ℕ) → passes_under test bound ≡ true → b < bound → test b ≡ true
unfolding passes_under
passes_under-lt test zero b all small = absurd (omega arith)
passes_under-lt test (suc bound) b all small = ground (arith, passes_under-lt test bound b)

abbrev is_ok : ℕ → Result ℕ → Bool
is_ok b (ok n) = nat_eq n b
is_ok b _ = false

abbrev no_delimiter : String → Bool
no_delimiter = all_chars (λ k. not (is_delimiter k))

reads_back : ℕ → Bool
reads_back b =
    is_ok b (parse_byte (to_string b))
    && (no_delimiter (to_string b) && not (is_empty (to_string b)))

reads_back_table : passes_under reads_back 256 ≡ true
unfolding passes_under reads_back parse_byte stoul to_string all_chars
reads_back_table = refl

ok_of_is_ok : (b : ℕ) (r : Result ℕ) → is_ok b r ≡ true → r ≡ ok b
ok_of_is_ok b (ok n) h = ap ok (ground arith)
ok_of_is_ok b (thrown e) h = cc
ok_of_is_ok b fault h = cc

print_byte :
    (b : ℕ)
    → b < 256
    → (parse_byte (to_string b) ≡ ok b)
      × (no_delimiter (to_string b) ≡ true)
      × (is_empty (to_string b) ≡ false)
unfolding reads_back
print_byte b h = split (passes_under-lt reads_back 256 b reads_back_table h)
  where
    parts : (x y z : Bool) → (x && (y && not z)) ≡ true → (x ≡ true) × (y ≡ true) × (z ≡ false)
    parts x y z e = ground arith

    split :
        reads_back b ≡ true
        → (parse_byte (to_string b) ≡ ok b)
          × (no_delimiter (to_string b) ≡ true)
          × (is_empty (to_string b) ≡ false)
    split e =
        let (x, y, z) =
          parts (is_ok b (parse_byte (to_string b))) (no_delimiter (to_string b))
            (is_empty (to_string b)) e in
        (ok_of_is_ok b _ x, y, z)

-- The tokens of a printed selector are its bytes' texts.
tokens-print_selector :
    (sep : Char) (bs : List ℕ)
    → is_delimiter (code sep) ≡ true
    → All (λ b. b < 256) bs
    → tokens is_delimiter (print_selector sep bs) ≡ map to_string bs
unfolding print_selector tokens
tokens-print_selector sep [] cut h = refl
tokens-print_selector sep (b ∷ []) cut (h, _) =
    let (_, plain, full) = print_byte b h in
    tokens_from_last is_delimiter "" (to_string b) plain (rw nil-append full)
    ∙ ap (λ t. t ∷ []) (nil-append _)
tokens-print_selector sep (b ∷ c ∷ bs) cut (h, hs) =
    let (_, plain, full) = print_byte b h in
    tokens_from-append is_delimiter "" (to_string b) sep (print_selector sep (c ∷ bs)) plain cut
      (rw nil-append full)
    ∙ ap₂ ◌∷◌ (nil-append _) (tokens-print_selector sep (c ∷ bs) cut hs)

parse_tokens-print :
    (size count : ℕ) (bs : List ℕ)
    → All (λ b. b < 256) bs
    → count + length bs ≤ size
    → parse_tokens size count (map to_string bs) ≡ ok bs
unfolding parse_tokens ◌>>=◌
parse_tokens-print size count [] h le = refl
parse_tokens-print size count (b ∷ bs) (h, hs) le =
    let (e, _, _) = print_byte b h in
    let room : leb size count ≡ false = ground arith in
    rw (room, e, parse_tokens-print size (suc count) bs hs (omega arith))

-- Bytes that fit in a selector are read back as they were, whichever of the four delimiters
-- stands between their decimal texts.
pub parse_osi_selector-print_selector :
    (sep : Char) (size : ℕ) (bs : List ℕ)
    → is_delimiter (code sep) ≡ true
    → All (λ b. b < 256) bs
    → length bs ≤ size
    → parse_osi_selector (print_selector sep bs) size ≡ ok bs
unfolding parse_osi_selector
parse_osi_selector-print_selector sep size bs cut h le =
    rw (tokens-print_selector sep bs cut h) (parse_tokens-print size 0 bs h (omega arith))

-- One byte too many is an exception, whatever the first bytes are.
parse_tokens_full :
    (size count : ℕ) (bs : List ℕ)
    → All (λ b. b < 256) bs
    → count ≤ size
    → size < count + length bs
    → parse_tokens size count (map to_string bs)
      ≡ thrown "bad format for 'OSI Selector' (too many bytes)"
unfolding parse_tokens ◌>>=◌
parse_tokens_full size count [] h le lt = absurd (omega arith)
parse_tokens_full size count (b ∷ bs) (h, hs) le lt = elim (Bool-cases (leb size count)) [
  | inl full ↦ rw full
  | inr room ↦
      let (e, _, _) = print_byte b h in
      rw (room, e, parse_tokens_full size (suc count) bs hs (ground arith) (omega arith))
]

-- More bytes than the selector holds are refused with the exception for too many bytes.
pub parse_osi_selector_full :
    (sep : Char) (size : ℕ) (bs : List ℕ)
    → is_delimiter (code sep) ≡ true
    → All (λ b. b < 256) bs
    → size < length bs
    → parse_osi_selector (print_selector sep bs) size
      ≡ thrown "bad format for 'OSI Selector' (too many bytes)"
unfolding parse_osi_selector
parse_osi_selector_full sep size bs cut h lt =
    rw (tokens-print_selector sep bs cut h)
      (parse_tokens_full size 0 bs h (omega arith) (omega arith))
