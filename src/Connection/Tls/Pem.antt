-- ===== src/Connection/Tls/Pem.antt =====
-- Which names of certificates are taken for .pem files (src/tase2_client_connection.cpp).
use fledge_south_tase.Common.{
  ℕ, suc, ◌+◌, ◌-◌, ◌%◌, ◌^◌, ◌≤◌, ◌<◌, String, Bool, true, false, ◌&&◌, ◌||◌, Option, none, some,
  nat_eq, ◌≡◌, refl, arith, if◌then◌else◌,
}
use fledge_south_tase.Common.Texts.{text_length}
use fledge_south_tase.Connection.Tls.{starts_pem, rfind_pem, or_npos, is_pem}

-- The last four characters are ".pem".
unfoldable pub ends_pem : String → Bool
ends_pem String.[] = false
ends_pem (String.◌∷◌ c s) = (nat_eq (text_length s) 3 && starts_pem (String.◌∷◌ c s)) || ends_pem s

starts_pem-text_length : (s : String) → starts_pem s ≡ true → 4 ≤ text_length s
unfolding starts_pem text_length
starts_pem-text_length (String.◌∷◌ a (String.◌∷◌ b (String.◌∷◌ c (String.◌∷◌ d s)))) h = omega arith
starts_pem-text_length s h = cc

-- What rfind answers says of the end of the name.
abbrev SaysEnd : String → Option ℕ → Type 0
SaysEnd s none = ends_pem s ≡ false
SaysEnd s (some p) = (p + 4 ≤ text_length s) × (nat_eq (p + 4) (text_length s) ≡ ends_pem s)

rfind_pem-SaysEnd : (s : String) → SaysEnd s (rfind_pem s)
unfolding rfind_pem ends_pem text_length
rfind_pem-SaysEnd String.[] = refl
rfind_pem-SaysEnd (String.◌∷◌ c s) =
    go (rfind_pem s) (rfind_pem-SaysEnd s) (starts_pem (String.◌∷◌ c s)) refl
  where
    go :
        (o : Option ℕ)
        → SaysEnd s o
        → (b : Bool) → starts_pem (String.◌∷◌ c s) ≡ b
        → SaysEnd
            (String.◌∷◌ c s)
            (elim o [ some p ↦ some (suc p) | none ↦ if b then some 0 else none ])
    go (some p) (le, same) b e = (omega (arith, le), ground (arith, le, same))
    go none ends true e = (starts_pem-text_length (String.◌∷◌ c s) e, rw (e, ends) (ground arith))
    go none ends false e = rw (e, ends) (ground arith)

-- A name is taken for a .pem file exactly if its last four characters are ".pem", or if it has
-- three characters, whatever they are. The name is shorter than a size_t can tell.
pub is_pem-ends_pem :
    (name : String)
    → text_length name < 2 ^ 64 - 1
    → is_pem name ≡ (nat_eq (text_length name) 3 || ends_pem name)
unfolding is_pem
is_pem-ends_pem name short = go (rfind_pem name) (rfind_pem-SaysEnd name)
  where
    go :
        (o : Option ℕ)
        → SaysEnd name o
        → nat_eq (or_npos o) ((text_length name + 2 ^ 64 - 4) % 2 ^ 64)
          ≡ (nat_eq (text_length name) 3 || ends_pem name)
    go none ends = rw ends (ground arith)
    go (some p) (le, same) = rw (← same) (ground arith)
