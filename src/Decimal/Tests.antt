-- ===== src/Decimal/Tests.antt =====
-- Decimal text on small inputs.
use daxie.Prelude.{◌≡◌, refl, some, none}
use daxie.Prelude.Int.{pos, negsuc}
use daxie.Prelude.Text.{codes}
use daxie.Decimal.{set_string, format_int}

set_string_test : set_string (codes "-120") ≡ some (negsuc 119)
unfolding set_string
set_string_test = refl

format_test : format_int (pos 1000000000000000000) ≡ codes "1000000000000000000"
unfolding format_int
format_test = refl

no_digits_test : set_string (codes "+") ≡ none
unfolding set_string
no_digits_test = refl
