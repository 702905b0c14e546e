-- ===== src/Ethunit.antt =====
-- Exact unit arithmetic for Ether and token amounts (internal/ethunit/ethunit.go and units.go).
-- An amount is text in a unit of `scale` decimals; in memory it is a whole number of base units.
pub mod Digits
pub mod Parse
pub mod RoundTrip
mod Tests
use daxie.Prelude.{
  ℕ, zero, suc, ◌-◌, ◌/◌, ◌%◌, ◌^◌, ◌≡◌, refl, Bool, true, false, not, ◌&&◌, ◌||◌, Option, none,
  some, [], ◌∷◌, ◌++◌, ltb, leb, ◌==◌, if◌then◌else◌, length, take, drop, is_some,
}
use daxie.Prelude.Int.{ℤ, pos, negsuc}
use daxie.Prelude.Results.{Result, ok, err}
use daxie.Prelude.Text.{Text, codes, is_empty, to_lower, trim_space, text_eq}
use daxie.Decimal.{is_digit, format_nat, format_int, set_string}

-- `Unit` is an `int`: `other` is a value that names no unit.
pub data EthUnit : Type 0 where
  wei gwei eth : EthUnit
  other : ℕ → EthUnit

pub data AmountError : Type 0 where
  empty_amount negative_amount malformed too_precise invalid_unit unknown_unit : AmountError

unfoldable pub decimals : EthUnit → Option ℕ
decimals wei = some 0
decimals gwei = some 9
decimals eth = some 18
decimals (other _) = none

-- With the error goes the unit `Wei`, which the source returns beside it.
pub parse_unit : Text → Result AmountError EthUnit
parse_unit s =
    let u = to_lower (trim_space s) in
    if text_eq u (codes "wei")
    then ok wei
    else if text_eq u (codes "gwei")
    then ok gwei
    else if text_eq u (codes "eth") || text_eq u (codes "ether")
    then ok eth
    else err unknown_unit

abbrev pub ten_pow : ℕ → ℕ
ten_pow n = 10 ^ n

pub wei_per : EthUnit → ℕ
unfolding decimals
wei_per u = elim (decimals u) [ some d ↦ ten_pow d | none ↦ 1 ]

-- The loop of `SplitAmountUnit`: `at_start` is `i == 0`.
pub split_number : Bool → Text → Text × Text
split_number at_start [] = ([], [])
split_number at_start (c ∷ s) =
    let rest = split_number false s in
    if is_digit c || c == b'.' || ((c == b'+' || c == b'-') && at_start)
    then (c ∷ rest.0, rest.1)
    else ([], c ∷ s)

pub split_amount_unit : Text → Text × Text
unfolding split_number is_digit
split_amount_unit s =
    let (number, unit) = split_number true (trim_space s) in
    (trim_space number, to_lower (trim_space unit))

pub all_digits : Text → Bool
unfolding is_digit
all_digits [] = true
all_digits (c ∷ s) = is_digit c && all_digits s

pub is_digits : Text → Bool
unfolding all_digits
is_digits s = not (is_empty s) && all_digits s

-- What stands before and after the first '.', as by `strings.IndexByte`.
pub cut_dot : Text → Option (Text × Text)
cut_dot [] = none
cut_dot (c ∷ s) =
    let rest : Option (Text × Text) = elim (cut_dot s) [
      | none ↦ none
      | some (a, b) ↦ some (c ∷ a, b)
    ] in
    if c == b'.' then some ([], s) else rest

-- `strings.TrimLeft(s, "0")`
pub trim_left_zeros : Text → Text
trim_left_zeros [] = []
trim_left_zeros (c ∷ s) = if c == b'0' then trim_left_zeros s else c ∷ s

-- `strings.TrimRight(s, "0")`
pub trim_right_zeros : Text → Text
trim_right_zeros [] = []
trim_right_zeros (c ∷ s) =
    let rest = trim_right_zeros s in if is_empty rest && c == b'0' then [] else c ∷ rest

-- `for len(padded) < scaleN { padded += "0" }`, by the rounds left.
pub pad_right : ℕ → Text → Text
pad_right zero s = s
pad_right (suc k) s = pad_right k (s ++ b'0' ∷ [])

-- `for len(fracStr) < int(scale) { fracStr = "0" + fracStr }`
pub pad_left : ℕ → Text → Text
pad_left zero s = s
pad_left (suc k) s = pad_left k (b'0' ∷ s)

-- The fraction cut to the scale; digits past it must be zeros.
pub fit_fraction : Text → ℕ → Result AmountError Text
unfolding trim_left_zeros trim_right_zeros
fit_fraction frac scale =
    if ltb scale (length frac)
    then if not (is_empty (trim_right_zeros (trim_left_zeros (drop scale frac))))
      then err too_precise
      else ok (take scale frac)
    else ok frac

-- The digits put together and read.
pub combine : Text → Text → ℕ → Result AmountError ℤ
unfolding pad_right trim_left_zeros
combine int_part frac scale =
    let combined = trim_left_zeros (int_part ++ pad_right (scale - length frac) frac) in
    let digits : Text = if is_empty combined then b'0' ∷ [] else combined in
    elim (set_string digits) [ some z ↦ ok z | none ↦ err malformed ]

-- From the check of the digits on.
pub parse_parts : Text → Text → Bool → ℕ → Result AmountError ℤ
unfolding is_digits fit_fraction combine
parse_parts int_part frac has_dot scale =
    let int_digits : Text = if is_empty int_part then b'0' ∷ [] else int_part in
    if is_empty int_part && is_empty frac
    then err malformed
    else if not (is_digits int_digits) || (has_dot && not (is_empty frac) && not (is_digits frac))
    then err malformed
    else elim (fit_fraction frac scale) [
      | err e ↦ err e
      | ok fitted ↦ combine int_digits fitted scale
    ]

-- From the sign on.
pub parse_unsigned : Text → ℕ → Result AmountError ℤ
unfolding cut_dot parse_parts
parse_unsigned [] scale = err malformed
parse_unsigned (c ∷ s) scale = elim (cut_dot (c ∷ s)) [
  | none ↦ parse_parts (c ∷ s) [] false scale
  | some (a, b) ↦ if is_some (cut_dot b) then err malformed else parse_parts a b true scale
]

pub parse_trimmed : Text → ℕ → Result AmountError ℤ
unfolding parse_unsigned
parse_trimmed [] scale = err empty_amount
parse_trimmed (c ∷ s) scale =
    if c == b'+'
    then parse_unsigned s scale
    else if c == b'-'
    then err negative_amount
    else parse_unsigned (c ∷ s) scale

unfoldable pub parse_decimal_to_base : Text → ℕ → Result AmountError ℤ
unfolding parse_trimmed
parse_decimal_to_base decimal scale = parse_trimmed (trim_space decimal) scale

-- The magnitude in front of which a sign may stand.
pub format_magnitude : ℕ → ℕ → Text
unfolding pad_left trim_right_zeros
format_magnitude n scale =
    let q = n / ten_pow scale in
    let r = n % ten_pow scale in
    let frac = format_nat r in
    if scale == 0
    then format_nat n
    else if r == 0
    then format_nat q
    else format_nat q ++ b'.' ∷ trim_right_zeros (pad_left (scale - length frac) frac)

-- `none` is the nil pointer.
unfoldable pub format_base : Option ℤ → ℕ → Text
unfolding format_magnitude
format_base none scale = b'0' ∷ []
format_base (some (pos n)) scale = format_magnitude n scale
format_base (some (negsuc n)) scale = b'-' ∷ format_magnitude (suc n) scale

unfoldable pub parse_amount : Text → EthUnit → Result AmountError ℤ
unfolding parse_decimal_to_base
parse_amount decimal u = elim (decimals u) [
  | none ↦ err invalid_unit
  | some d ↦ parse_decimal_to_base decimal d
]

unfoldable pub format_amount : ℤ → EthUnit → Text
unfolding format_base
format_amount amount u = elim (decimals u) [
  | none ↦ format_int amount
  | some d ↦ format_base (some amount) d
]

pub parse_token_amount : Text → ℕ → Result AmountError ℤ
unfolding parse_decimal_to_base
parse_token_amount decimal token_decimals = parse_decimal_to_base decimal token_decimals

pub format_token_amount : Option ℤ → ℕ → Text
unfolding format_base
format_token_amount base token_decimals = format_base base token_decimals
