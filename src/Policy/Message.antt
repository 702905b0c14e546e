-- ===== src/Policy/Message.antt =====
-- The values of typed data and their coercions (internal/policy/recognizers.go).
use mathlib.Core.Option
use daxie.Prelude.{
  ℕ, ◌+◌, ◌-◌, ◌*◌, ◌^◌, Bool, true, false, ◌&&◌, ◌||◌, ◌==◌, Option, none, some, List, [], ◌∷◌,
  leb, ltb, if◌then◌else◌, length, drop,
}
use daxie.Prelude.Int.{ℤ, pos, negsuc}
use daxie.Prelude.Text.{Text, codes, text_eq, is_empty, trim_space, has_prefix}
use daxie.Decimal.{set_string, negate}
use daxie.Policy.Types.{Address}
use daxie.Policy.Stages.Amounts.{uint256_max}
use daxie.Policy.Body.{is_hex_digit}

-- The values of a message: nil, the types that the coercions read, and others. A float64 is its
-- truncation to an int64 and whether that is exact; a `big` may be a nil pointer.
mutual
  pub data Value : Type 0 where
    null other : Value
    text : Text → Value
    boolean : Bool → Value
    float : Bool → ℤ → Value
    int : ℤ → Value
    big : Option ℤ → Value
    address : Address → Value
    object : Fields → Value
    array : Items → Value

  pub data Fields : Type 0 where
    no_fields : Fields
    field : Text → Value → Fields → Fields

  pub data Items : Type 0 where
    no_items : Items
    item : Value → Items → Items

-- ── objects ──

-- The value under a key, and nil under a missing one.
unfoldable pub get : Fields → Text → Value
get no_fields key = null
get (field k v rest) key = let under = get rest key in if text_eq k key then v else under

unfoldable pub has_key : Fields → Text → Bool
has_key no_fields key = false
has_key (field k v rest) key = text_eq k key || has_key rest key

unfoldable pub field_count : Fields → ℕ
field_count no_fields = 0
field_count (field k v rest) = field_count rest + 1

unfoldable pub has_all : Fields → List Text → Bool
unfolding has_key
has_all m [] = true
has_all m (k ∷ ks) = has_key m k && has_all m ks

-- An object has each key once.
unfoldable pub has_exact_keys : Fields → List Text → Bool
unfolding has_all field_count
has_exact_keys m want = field_count m == length want && has_all m want

-- ── numbers ──

unfoldable pub hex_digit_value : ℕ → ℕ
hex_digit_value c =
    if leb c b'9' then c - b'0' else if leb b'a' c then c - b'a' + 10 else c - b'A' + 10

unfoldable pub scan_hex : Text → ℕ → Option ℕ
unfolding is_hex_digit hex_digit_value
scan_hex [] n = some n
scan_hex (c ∷ s) n =
    let rest = scan_hex s (n * 16 + hex_digit_value c) in if is_hex_digit c then rest else none

unfoldable pub parse_hex : Text → Option ℕ
unfolding scan_hex
parse_hex [] = none
parse_hex (c ∷ s) = scan_hex (c ∷ s) 0

-- `SetString(s, 16)`
unfoldable pub set_string_hex : Text → Option ℤ
unfolding parse_hex
set_string_hex [] = none
set_string_hex (c ∷ s) =
    if c == b'-'
    then Option.map negate (parse_hex s)
    else if c == b'+'
    then Option.map pos (parse_hex s)
    else Option.map pos (parse_hex (c ∷ s))

unfoldable pub has_hex_prefix : Text → Bool
unfolding has_prefix
has_hex_prefix s = has_prefix s (codes "0x") || has_prefix s (codes "0X")

-- `parseBigString`
unfoldable pub parse_big_string : Text → Option ℤ
unfolding set_string_hex set_string has_hex_prefix
parse_big_string s =
    let t = trim_space s in
    if is_empty t
    then none
    else if has_hex_prefix t
    then set_string_hex (drop 2 t)
    else set_string t

unfoldable pub big_value : Value → Option ℤ
unfolding parse_big_string
big_value (text s) = parse_big_string s
big_value (float exact n) = if exact then some n else none
big_value (int n) = some n
big_value (big n) = n
big_value null = none
big_value other = none
big_value (boolean b) = none
big_value (address a) = none
big_value (object m) = none
big_value (array xs) = none

unfoldable pub message_big : Fields → Text → Option ℤ
unfolding get big_value
message_big m key = big_value (get m key)

unfoldable pub bool_value : Value → Option Bool
unfolding text_eq
bool_value (boolean b) = some b
bool_value (text s) =
    if text_eq s (codes "true")
    then some true
    else if text_eq s (codes "false")
    then some false
    else none
bool_value _ = none

unfoldable pub message_bool : Fields → Text → Option Bool
unfolding get bool_value
message_bool m key = bool_value (get m key)

-- 0 for what is missing, no number, or outside of an int64.
unfoldable pub int64_or_zero : Option ℤ → ℤ
int64_or_zero none = pos 0
int64_or_zero (some (pos n)) = if ltb n (2 ^ 63) then pos n else pos 0
int64_or_zero (some (negsuc n)) = if ltb n (2 ^ 63) then negsuc n else pos 0

unfoldable pub read_chain_id : Fields → ℤ
unfolding message_big int64_or_zero
read_chain_id domain = int64_or_zero (message_big domain (codes "chainId"))

abbrev pub is_number : ℕ → ℤ → Bool
is_number n (pos m) = m == n
is_number n (negsuc m) = false

unfoldable pub is_max : Option ℤ → Bool
is_max none = false
is_max (some n) = is_number uint256_max n
