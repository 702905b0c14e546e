-- ===== src/Decimal.antt =====
-- Decimal text of unbounded integers: what `math/big`'s `String` writes and `SetString(s, 10)`
-- reads. Amounts are kept as such text in the policy file and in the spend counters.
pub mod RoundTrip
mod Tests
use mathlib.Core.Option
use daxie.Prelude.{
  ℕ, zero, suc, ◌+◌, ◌-◌, ◌*◌, ◌/◌, ◌%◌, ◌≡◌, refl, Bool, true, false, ◌&&◌, Option, none, some, [],
  ◌∷◌, ◌≤◌, leb, ◌==◌, if◌then◌else◌,
}
use daxie.Prelude.Int.{ℤ, pos, negsuc}
use daxie.Prelude.Text.{Text, codes}

-- '0' to '9'
unfoldable pub is_digit : ℕ → Bool
is_digit c = leb b'0' c && leb c b'9'

-- The digits of `n` in front of `out`; `n` rounds are always enough.
unfoldable pub digits_from : ℕ → ℕ → Text → Text
digits_from zero n out = out
digits_from (suc f) n out =
    let rest = digits_from f (n / 10) ((b'0' + n % 10) ∷ out) in if n == 0 then out else rest

unfoldable pub format_nat : ℕ → Text
unfolding digits_from
format_nat n = if n == 0 then b'0' ∷ [] else digits_from n n []

-- `(*big.Int).String`
unfoldable pub format_int : ℤ → Text
unfolding format_nat
format_int (pos n) = format_nat n
format_int (negsuc n) = b'-' ∷ format_nat (n + 1)

-- Digits read behind the number `n`.
unfoldable pub scan : Text → ℕ → Option ℕ
unfolding is_digit
scan [] n = some n
scan (c ∷ s) n = let rest = scan s (n * 10 + (c - b'0')) in if is_digit c then rest else none

-- One digit or more.
unfoldable pub parse_nat : Text → Option ℕ
unfolding scan
parse_nat [] = none
parse_nat (c ∷ s) = scan (c ∷ s) 0

abbrev pub negate : ℕ → ℤ
negate zero = pos 0
negate (suc n) = negsuc n

-- `new(big.Int).SetString(s, 10)`: an optional sign and digits.
unfoldable pub set_string : Text → Option ℤ
unfolding parse_nat
set_string [] = none
set_string (c ∷ s) =
    if c == b'-'
    then Option.map negate (parse_nat s)
    else if c == b'+'
    then Option.map pos (parse_nat s)
    else Option.map pos (parse_nat (c ∷ s))
