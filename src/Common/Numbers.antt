-- ===== src/Common/Numbers.antt =====
-- The standard library's readers of numbers (std::stoul, std::stol, atoi) and strtok_r.
use Prim.Native.Nat.{ℕ, ◌+◌, ◌-◌, ◌*◌, ◌%◌, ◌^◌}
use Prim.Native.Char.{code}
use Prim.Native.String.{String, [], ◌∷◌}
use mathlib.Core.Bool.{Bool, true, false, ◌&&◌, ◌||◌}
use mathlib.Core.Option.{Option, none, some}
use fledge_south_tase.Common.Tests.{nat_eq, leb, ltb, if◌then◌else◌}
use fledge_south_tase.Common.Texts.{is_digit}
use fledge_south_tase.Common.Int.{ℤ, pos, neg}

-- isspace in the C locale
abbrev is_space : ℕ → Bool
is_space c = nat_eq c 32 || (leb 9 c && leb c 13)

unfoldable pub skip_spaces : String → String
skip_spaces [] = ""
skip_spaces (c ∷ s) = let rest = skip_spaces s in if is_space (code c) then rest else c ∷ s

-- An optional sign: whether it is a minus, and what follows.
unfoldable pub read_sign : String → Bool × String
read_sign [] = (false, "")
read_sign (c ∷ s) =
    if nat_eq (code c) b'-'
    then (true, s)
    else if nat_eq (code c) b'+'
    then (false, s)
    else (false, c ∷ s)

abbrev digit_in : ℕ → ℕ → Option ℕ
digit_in base d = if ltb d base then some d else none

unfoldable pub digit_value : ℕ → ℕ → Option ℕ
digit_value base c =
    if is_digit c
    then digit_in base (c - b'0')
    else if leb b'a' c && leb c b'z'
    then digit_in base (c - 87)
    else if leb b'A' c && leb c b'Z'
    then digit_in base (c - 55)
    else none

-- The longest run of digits at the front; `none` if there is none.
unfoldable pub read_digits : ℕ → Option ℕ → String → Option ℕ
unfolding digit_value
read_digits base acc [] = acc
read_digits base acc (c ∷ s) = elim (digit_value base (code c)) [
  | none ↦ acc
  | some d ↦ read_digits base (some (elim acc [ none ↦ d | some n ↦ n * base + d ])) s
]

-- In base 16 the prefix "0x" is passed over if a digit follows it.
unfoldable pub skip_prefix : ℕ → String → String
unfolding read_digits
skip_prefix base (z ∷ x ∷ s) = elim (read_digits base none s) [
  | none ↦ z ∷ x ∷ s
  | some n ↦
      if nat_eq base 16 && (nat_eq (code z) b'0' && (nat_eq (code x) b'x' || nat_eq (code x) b'X'))
      then s
      else z ∷ x ∷ s
]
skip_prefix base s = s

-- The conversion that strtol and strtoul share; `none` if no digits are found.
unfoldable pub read_number : ℕ → String → Option (Bool × ℕ)
unfolding skip_spaces read_sign skip_prefix read_digits
read_number base s =
    let (minus, rest) = read_sign (skip_spaces s) in
    elim (read_digits base none (skip_prefix base rest)) [ none ↦ none | some n ↦ some (minus, n) ]

pub data Number {ℓ} (A : Type ℓ) : Type ℓ where
  number : A → Number A
  invalid_argument out_of_range : Number A

-- std::stoul, for a 64-bit unsigned long; a minus sign negates modulo 2 ^ 64.
unfoldable pub stoul : ℕ → String → Number ℕ
unfolding read_number
stoul base s = elim (read_number base s) [
  | none ↦ invalid_argument
  | some (minus, n) ↦
      if leb (2 ^ 64) n then out_of_range else number (if minus then (2 ^ 64 - n) % 2 ^ 64 else n)
]

-- std::stol in base 10, for a 64-bit long.
unfoldable pub stol : String → Number ℤ
unfolding read_number
stol s = elim (read_number 10 s) [
  | none ↦ invalid_argument
  | some (minus, n) ↦
      if minus
      then (if ltb (2 ^ 63) n then out_of_range else number (neg n))
      else (if leb (2 ^ 63) n then out_of_range else number (pos n))
]

-- atoi, for texts whose number fits in an int; `none` where the C standard leaves it undefined.
unfoldable pub atoi : String → Option ℤ
unfolding read_number
atoi s = elim (read_number 10 s) [
  | none ↦ some (pos 0)
  | some (minus, n) ↦
      if minus
      then (if ltb (2 ^ 31) n then none else some (neg n))
      else (if leb (2 ^ 31) n then none else some (pos n))
]
