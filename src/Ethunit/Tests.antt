-- ===== src/Ethunit/Tests.antt =====
-- Runs of the unit arithmetic on small inputs, and the theorems at concrete amounts.
use daxie.Prelude.{◌≡◌, ◌++◌, [], ◌∷◌, refl, some, arith}
use daxie.Prelude.Int.{pos, negsuc}
use daxie.Prelude.Results.{ok, err}
use daxie.Prelude.Text.{codes, trim_space, text_eq, to_lower}
use daxie.Decimal.{set_string, format_nat, format_int}
use daxie.Decimal.RoundTrip.{set_string-format_int}
use daxie.Ethunit.{
  parse_decimal_to_base, format_base, split_amount_unit, too_precise, negative_amount, malformed,
  parse_amount, eth, decimals, parse_unit, gwei,
}
use daxie.Ethunit.Parse.{amount_of, parse_exact, parse_excess_refused}
use daxie.Ethunit.RoundTrip.{parse-format}

parse_eth : parse_amount (codes " 1.5 ") eth ≡ ok (pos 1500000000000000000)
unfolding parse_amount set_string trim_space decimals
parse_eth = refl

parse_sub_wei : parse_decimal_to_base (codes "0.0000000001") 9 ≡ err too_precise
unfolding parse_decimal_to_base trim_space
parse_sub_wei = refl

parse_zeros : parse_decimal_to_base (codes ".5000") 2 ≡ ok (pos 50)
unfolding parse_decimal_to_base set_string trim_space
parse_zeros = refl

parse_negative : parse_decimal_to_base (codes "-1") 2 ≡ err negative_amount
unfolding parse_decimal_to_base trim_space
parse_negative = refl

parse_dots : parse_decimal_to_base (codes "1.2.3") 2 ≡ err malformed
unfolding parse_decimal_to_base trim_space
parse_dots = refl

format_minus : format_base (some (negsuc 1049)) 3 ≡ codes "-1.05"
unfolding format_base format_nat
format_minus = refl

split_test : split_amount_unit (codes "1.5ETH") ≡ (codes "1.5", codes "eth")
unfolding split_amount_unit trim_space to_lower
split_test = refl

unit_test : parse_unit (codes " Gwei") ≡ ok gwei
unfolding parse_unit trim_space to_lower text_eq
unit_test = refl

parse-format_example : parse_decimal_to_base (format_base (some (pos 1050)) 3) 3 ≡ ok (pos 1050)
parse-format_example = parse-format 1050 3

parse_exact_example :
    parse_decimal_to_base (codes "1" ++ b'.' ∷ codes "05") 3
    ≡ ok (pos (amount_of (codes "1") (codes "05") 3))
parse_exact_example = parse_exact b'1' [] (codes "05") 3 (omega arith) (omega arith) (omega arith)

parse_excess_refused_example :
    parse_decimal_to_base (codes "1" ++ b'.' ∷ codes "05") 1 ≡ err too_precise
parse_excess_refused_example =
    parse_excess_refused b'1' [] (codes "05") 1 (omega arith) (omega arith) (omega arith)
      (omega arith)

set_string-format_int_example : set_string (format_int (negsuc 4)) ≡ some (negsuc 4)
set_string-format_int_example = set_string-format_int (negsuc 4)
