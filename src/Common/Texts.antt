-- ===== src/Common/Texts.antt =====
-- Texts as the native `String`: the functions of the C++ standard library on std::string that the
-- code calls, by recursion on the characters. No text holds a NUL character.
use Prim.Native.Nat.{ℕ, zero, suc, ◌+◌, ◌/◌, ◌%◌}
use Prim.Native.Char.{Char, code}
use Prim.Native.String.{String, [], ◌∷◌}
use mathlib.Core.Bool.{Bool, true, false, ◌&&◌, ◌||◌}
use mathlib.Core.Path.{◌≡◌, refl, sym, ap, ◌∙◌, subst}
use mathlib.Core.Logic.{inl, inr}
use mathlib.Core.Option
use mathlib.Core.Option.{Option, none, some}
use text.Mathlib.TextLemmas.{nil-append, cons-append}
use native.Mathlib.Omega.{arith}
use fledge_south_tase.Common.Tests.{nat_eq, leb, if◌then◌else◌, Bool-cases}
pub use text.Mathlib.Text.{◌==◌}
pub use text.Mathlib.TextEquality.{eq_iff}
pub use text.Mathlib.TextPositions.{eq_refl}
pub use text.Mathlib.TextLemmas.{nil-append, cons-append, append_assoc}
pub use Prim.Native.String.{◌++◌ as ◌⧺◌}

-- A text joined from two with a separator between them, as `a + ":" + b`.
abbrev pub join : String → String → String → String
join a sep b = a ⧺ (sep ⧺ b)

-- std::string::empty
abbrev pub is_empty : String → Bool
is_empty [] = true
is_empty (c ∷ s) = false

abbrev pub starts_with : ℕ → String → Bool
starts_with k [] = false
starts_with k (c ∷ s) = nat_eq (code c) k

unfoldable pub text_length : String → ℕ
text_length [] = 0
text_length (c ∷ s) = suc (text_length s)

unfoldable pub has_char : ℕ → String → Bool
has_char k [] = false
has_char k (c ∷ s) = nat_eq (code c) k || has_char k s

-- std::string::find of one character; `none` is npos.
unfoldable pub find_char : ℕ → String → Option ℕ
find_char k [] = none
find_char k (c ∷ s) = if nat_eq (code c) k then some 0 else Option.map suc (find_char k s)

-- substr (0, n)
unfoldable pub take_text : ℕ → String → String
take_text zero s = ""
take_text (suc n) [] = ""
take_text (suc n) (c ∷ s) = c ∷ take_text n s

-- substr (n), within the text
unfoldable pub drop_text : ℕ → String → String
drop_text zero s = s
drop_text (suc n) [] = ""
drop_text (suc n) (c ∷ s) = drop_text n s

-- std::replace over the whole text
unfoldable pub replace_char : ℕ → Char → String → String
replace_char k d [] = ""
replace_char k d (c ∷ s) = (if nat_eq (code c) k then d else c) ∷ replace_char k d s

-- erase (remove (...))
unfoldable pub remove_char : ℕ → String → String
remove_char k [] = ""
remove_char k (c ∷ s) = let rest = remove_char k s in if nat_eq (code c) k then rest else c ∷ rest

unfoldable pub all_chars : (ℕ → Bool) → String → Bool
all_chars p [] = true
all_chars p (c ∷ s) = p (code c) && all_chars p s

abbrev pub is_digit : ℕ → Bool
is_digit c = leb b'0' c && leb c b'9'

-- The one digit text of a number below ten.
abbrev pub digit_text : ℕ → String
digit_text n =
    if nat_eq n 0
    then "0"
    else if nat_eq n 1
    then "1"
    else if nat_eq n 2
    then "2"
    else if nat_eq n 3
    then "3"
    else if nat_eq n 4
    then "4"
    else if nat_eq n 5
    then "5"
    else if nat_eq n 6
    then "6"
    else if nat_eq n 7
    then "7"
    else if nat_eq n 8
    then "8"
    else "9"

-- std::to_string of an unsigned number; the number itself is fuel enough for its digits.
to_string_from : ℕ → ℕ → String → String
to_string_from zero n acc = digit_text (n % 10) ⧺ acc
to_string_from (suc f) n acc =
    let rest = to_string_from f (n / 10) (digit_text (n % 10) ⧺ acc) in
    if nat_eq (n / 10) 0 then digit_text (n % 10) ⧺ acc else rest

unfoldable pub to_string : ℕ → String
unfolding to_string_from
to_string n = to_string_from n n ""

to_string_runs : to_string 10250 ≡ "10250"
unfolding to_string
to_string_runs = refl

pub has_char-append : (k : ℕ) (s t : String) → has_char k (s ⧺ t) ≡ (has_char k s || has_char k t)
unfolding has_char
has_char-append k [] t = ap (has_char k) (nil-append t)
has_char-append k (c ∷ s) t =
    ap (has_char k) (cons-append c s t) ∙ ground (arith, has_char-append k s t)

-- The first occurrence of a character that the first text lacks.
pub find_char-append :
    (k : ℕ) (s t : String) (c : Char)
    → has_char k s ≡ false
    → code c ≡ k
    → (p : ℕ) × (find_char k (s ⧺ (c ∷ t)) ≡ some p)
      × (take_text p (s ⧺ (c ∷ t)) ≡ s)
      × (drop_text (suc p) (s ⧺ (c ∷ t)) ≡ t)
unfolding has_char find_char take_text drop_text
find_char-append k [] t c h e = (0, rw nil-append (ground arith), refl, rw nil-append refl)
find_char-append k (d ∷ s) t c h e =
    let (p, found, front, back) = find_char-append k s t c (ground arith) e in
    (suc p, rw (cons-append) (ground arith), rw cons-append (ap (◌∷◌ d) front), rw cons-append back)

pub find_char-none : (k : ℕ) (s : String) → has_char k s ≡ false → find_char k s ≡ none
unfolding has_char find_char
find_char-none k [] h = refl
find_char-none k (c ∷ s) h = ground (arith, find_char-none k s)

-- What is found splits the text there.
pub find_char-some :
    (k : ℕ) (s : String) (p : ℕ)
    → find_char k s ≡ some p
    → (c : Char) × (code c ≡ k)
      × (s ≡ take_text p s ⧺ (c ∷ drop_text (suc p) s))
      × (has_char k (take_text p s) ≡ false)
unfolding has_char find_char take_text drop_text
find_char-some k [] p h = cc
find_char-some k (c ∷ s) p h = elim (Bool-cases (nat_eq (code c) k)) [
  | inl hit ↦ subst (Splits (c ∷ s)) (first hit) (c, ground arith, sym (nil-append _), refl)
  | inr miss ↦
      let (q, found, same) = (Option.map-eq-some_iff _ _).0 (later miss) in
      let (d, e, parts, clean) = find_char-some k s q found in
      subst (Splits (c ∷ s)) same (d, e, ap (◌∷◌ c) parts ∙ sym (cons-append _ _ _), ground arith)
]
  where
    Splits : String → ℕ → Type 0
    Splits u r =
        (d : Char) × (code d ≡ k)
        × (u ≡ take_text r u ⧺ (d ∷ drop_text (suc r) u))
        × (has_char k (take_text r u) ≡ false)

    first : nat_eq (code c) k ≡ true → 0 ≡ p
    first hit = ground arith

    later : nat_eq (code c) k ≡ false → Option.map suc (find_char k s) ≡ some p
    later miss = ground arith

pub text_length-append : (s t : String) → text_length (s ⧺ t) ≡ text_length s + text_length t
unfolding text_length
text_length-append [] t = omega (arith, ap text_length (nil-append t))
text_length-append (c ∷ s) t =
    omega (arith, ap text_length (cons-append c s t), text_length-append s t)

pub take_text-append : (s t : String) → take_text (text_length s) (s ⧺ t) ≡ s
unfolding text_length take_text
take_text-append [] t = refl
take_text-append (c ∷ s) t =
    ap (take_text (suc (text_length s))) (cons-append c s t)
    ∙ ap (λ u. c ∷ u) (take_text-append s t)
