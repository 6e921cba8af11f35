-- ===== src/Common/Bits.antt =====
-- The binary or of two numbers.
use Prim.Native.Nat.{ℕ, zero, suc, ◌/◌, max, bit_or, digits, bit_or-bitwise}
use mathlib.Core.Path.{◌≡◌, sym, ◌∙◌}
use native.Mathlib.Omega.{arith}

-- With no digit set in the result there is none in the second number, for every count of digits.
digits_none : (n a b : ℕ) → digits (λ d. d) max n a b ≡ 0 → b ≡ 0
digits_none zero a b h = h
digits_none (suc n) zero b h = h
digits_none (suc n) (suc a) b h = omega (arith, digits_none n (suc a / 2) (b / 2) (omega arith))

pub bit_or_none : (a b : ℕ) → bit_or a b ≡ 0 → b ≡ 0
bit_or_none a b h = digits_none a a b (sym (bit_or-bitwise a b) ∙ h)
