-- ===== src/Ethunit/Parse.antt =====
-- What `parseDecimalToBase` returns for the texts that spell an amount (internal/ethunit/ethunit.go).
use native.Mathlib.Nat.{pow-suc}
use daxie.Prelude.{
  ℕ, zero, suc, ◌+◌, ◌-◌, ◌*◌, ◌^◌, ◌≤◌, ◌<◌, ◌≡◌, refl, ap, sym, Bool, true, false, ◌∙◌, some, [],
  ◌∷◌, ◌++◌, arith, All, All-append, length, if◌then◌else◌, take, drop, lt→ltb,
}
use daxie.Prelude.Int.{pos}
use daxie.Prelude.Results.{ok, err}
use daxie.Prelude.Text.{Text, is_empty, is_space}
use daxie.Decimal.{set_string}
use daxie.Decimal.RoundTrip.{IsDigit, value, set_string-value}
use daxie.Ethunit.{
  too_precise, pad_right, trim_left_zeros, is_digits, fit_fraction, combine, parse_parts,
  parse_unsigned, parse_trimmed, parse_decimal_to_base,
}
use daxie.Ethunit.Digits.{
  value-append, value_shift, pad_right-eq-append, value-replicate, value-trim_left_zeros,
  trim_left_zeros-All, replicate-All, all_digits_lem, cut_dot-digits, cut_dot-append, IsInk,
  trim_space-ink, digits-IsInk, trim_zeros-value, trim_zeros-pos,
}

pow_add : (a b : ℕ) → 10 ^ (a + b) ≡ 10 ^ a * 10 ^ b
pow_add a zero = let e : a + 0 ≡ a = omega arith in rw e (omega arith)
pow_add a (suc b) =
    let e : a + suc b ≡ suc (a + b) = omega arith in
    rw (e, pow-suc 10 (a + b), pow-suc 10 b, pow_add a b) (omega arith)

-- The number of base units that a whole part and a fraction spell.
abbrev pub amount_of : Text → Text → ℕ → ℕ
amount_of int_part frac scale =
    value 0 int_part * 10 ^ scale + value 0 frac * 10 ^ (scale - length frac)

scaled : (v f l k t : ℕ) → t ≡ l * k → (v * l + f) * k ≡ v * t + f * k
scaled v f l k t e = rw e (omega arith)

value_combined :
    (i f : Text) (scale : ℕ)
    → length f ≤ scale
    → value 0 (i ++ pad_right (scale - length f) f) ≡ amount_of i f scale
value_combined i f scale h =
    let k = scale - length f in
    let e : length f + k ≡ scale = omega arith in
    rw (pad_right-eq-append k f, value-append i, value-append f, value-replicate k)
      (rw (value_shift f (value 0 i)) (
        scaled (value 0 i) (value 0 f) (10 ^ length f) (10 ^ k) (10 ^ scale)
          (ap (λ n. 10 ^ n) (sym e) ∙ pow_add (length f) k)))

read_trimmed :
    (s : Text)
    → All IsDigit s
    → set_string (if is_empty s then b'0' ∷ [] else s) ≡ some (pos (value 0 s))
read_trimmed [] h = set_string-value (b'0' ∷ []) (omega arith) ((omega arith, omega arith), tt)
read_trimmed (c ∷ s) h = set_string-value (c ∷ s) (omega arith) h

padded-All : (i f : Text) (k : ℕ) → All IsDigit i → All IsDigit f → All IsDigit (i ++ pad_right k f)
padded-All i f k hi hf =
    rw (pad_right-eq-append k f)
      (All-append IsDigit i _ hi (All-append IsDigit f _ hf (replicate-All k)))

pub combine_lem :
    (i f : Text) (scale : ℕ)
    → All IsDigit i
    → All IsDigit f
    → length f ≤ scale
    → combine i f scale ≡ ok (pos (amount_of i f scale))
unfolding combine
combine_lem i f scale hi hf h =
    let s = i ++ pad_right (scale - length f) f in
    rw
      (
        read_trimmed (trim_left_zeros s)
            (trim_left_zeros-All s (padded-All i f (scale - length f) hi hf)),
        combine,
      )
      (ap (λ n. ok (pos n)) (value-trim_left_zeros s ∙ value_combined i f scale h))

-- A fraction that is within the scale is kept whole.
pub fit_fraction-short : (f : Text) (scale : ℕ) → length f ≤ scale → fit_fraction f scale ≡ ok f
unfolding fit_fraction
fit_fraction-short f scale h = ground arith

is_digits_lem : (c : ℕ) (s : Text) → All IsDigit (c ∷ s) → is_digits (c ∷ s) ≡ true
unfolding is_digits
is_digits_lem c s h = all_digits_lem (c ∷ s) h

-- The digits pass the checks, whether or not a fraction stands behind the point.
pub parse_parts_lem :
    (c : ℕ) (i f : Text) (b : Bool) (scale : ℕ)
    → All IsDigit (c ∷ i)
    → All IsDigit f
    → parse_parts (c ∷ i) f b scale
      ≡ elim (fit_fraction f scale) [ err e ↦ err e | ok g ↦ combine (c ∷ i) g scale ]
unfolding parse_parts
parse_parts_lem c i [] true scale hi hf = rw (is_digits_lem c i hi)
parse_parts_lem c i [] false scale hi hf = rw (is_digits_lem c i hi)
parse_parts_lem c i (d ∷ f) false scale hi hf = rw (is_digits_lem c i hi)
parse_parts_lem c i (d ∷ f) true scale hi hf = rw (is_digits_lem c i hi, is_digits_lem d f hf)

parse_trimmed-digit :
    (c : ℕ) (s : Text) (scale : ℕ)
    → IsDigit c
    → parse_trimmed (c ∷ s) scale ≡ parse_unsigned (c ∷ s) scale
unfolding parse_trimmed
parse_trimmed-digit c s scale h = ground arith

point-IsInk : (f : Text) → All IsDigit f → All IsInk (b'.' ∷ f)
unfolding is_space
point-IsInk f h = (refl, digits-IsInk f h)

-- A text with no point.
pub parse_whole :
    (c : ℕ) (i : Text) (scale : ℕ)
    → All IsDigit (c ∷ i)
    → parse_decimal_to_base (c ∷ i) scale ≡ parse_parts (c ∷ i) [] false scale
unfolding parse_decimal_to_base parse_unsigned
parse_whole c i scale h =
    rw (trim_space-ink (c ∷ i) (digits-IsInk (c ∷ i) h), parse_trimmed-digit c i scale h.0)
      (rw (cut_dot-digits (c ∷ i) h, parse_unsigned))

pub parse_pointed :
    (c : ℕ) (i f : Text) (scale : ℕ)
    → All IsDigit (c ∷ i)
    → All IsDigit f
    → parse_decimal_to_base (c ∷ (i ++ b'.' ∷ f)) scale ≡ parse_parts (c ∷ i) f true scale
unfolding parse_decimal_to_base parse_unsigned
parse_pointed c i f scale hi hf =
    rw
      (
        trim_space-ink (c ∷ (i ++ b'.' ∷ f))
            (All-append IsInk (c ∷ i) (b'.' ∷ f) (digits-IsInk (c ∷ i) hi) (point-IsInk f hf)),
        parse_trimmed-digit c (i ++ b'.' ∷ f) scale hi.0,
      )
      (rw (cut_dot-append (c ∷ i) f hi, parse_unsigned) (rw (cut_dot-digits f hf)))

-- A whole part and a fraction within the scale are read as their exact number of base units.
pub parse_exact :
    (c : ℕ) (i f : Text) (scale : ℕ)
    → All IsDigit (c ∷ i)
    → All IsDigit f
    → length f ≤ scale
    → parse_decimal_to_base (c ∷ (i ++ b'.' ∷ f)) scale ≡ ok (pos (amount_of (c ∷ i) f scale))
parse_exact c i f scale hi hf h =
    rw (parse_pointed c i f scale hi hf, parse_parts_lem c i f true scale hi hf)
      (rw (fit_fraction-short f scale h) (combine_lem (c ∷ i) f scale hi hf h))

take-All : (n : ℕ) (f : Text) → All IsDigit f → All IsDigit (take n f)
take-All zero f h = tt
take-All (suc n) [] h = tt
take-All (suc n) (c ∷ f) h = (h.0, take-All n f h.1)

drop-All : (n : ℕ) (f : Text) → All IsDigit f → All IsDigit (drop n f)
drop-All zero f h = h
drop-All (suc n) [] h = tt
drop-All (suc n) (c ∷ f) h = drop-All n f h.1

length-take : (n : ℕ) (f : Text) → n < length f → length (take n f) ≡ n
length-take zero f h = refl
length-take (suc n) [] h = absurd (omega arith)
length-take (suc n) (c ∷ f) h = ap suc (length-take n f (omega arith))

-- Zeros past the scale are cut off: the amount is that of the digits within it.
pub parse_excess_zeros :
    (c : ℕ) (i f : Text) (scale : ℕ)
    → All IsDigit (c ∷ i)
    → All IsDigit f
    → scale < length f
    → value 0 (drop scale f) ≡ 0
    → parse_decimal_to_base (c ∷ (i ++ b'.' ∷ f)) scale
      ≡ ok (pos (amount_of (c ∷ i) (take scale f) scale))
unfolding fit_fraction
parse_excess_zeros c i f scale hi hf h z =
    let le : length (take scale f) ≤ scale = omega (arith, length-take scale f h) in
    rw
      (
        parse_pointed c i f scale hi hf ∙ parse_parts_lem c i f true scale hi hf,
        lt→ltb scale (length f) h,
      )
      (rw (trim_zeros-value (drop scale f) (drop-All scale f hf) z)
        (combine_lem (c ∷ i) (take scale f) scale hi (take-All scale f hf) le))

-- Any other digit past the scale is refused, never rounded.
pub parse_excess_refused :
    (c : ℕ) (i f : Text) (scale : ℕ)
    → All IsDigit (c ∷ i)
    → All IsDigit f
    → scale < length f
    → 0 < value 0 (drop scale f)
    → parse_decimal_to_base (c ∷ (i ++ b'.' ∷ f)) scale ≡ err too_precise
unfolding fit_fraction
parse_excess_refused c i f scale hi hf h p =
    rw
      (
        parse_pointed c i f scale hi hf ∙ parse_parts_lem c i f true scale hi hf,
        lt→ltb scale (length f) h,
      )
      (rw (trim_zeros-pos (drop scale f) (drop-All scale f hf) p))
