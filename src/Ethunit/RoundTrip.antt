-- ===== src/Ethunit/RoundTrip.antt =====
-- The print of an amount and its reading: `formatBase` and `parseDecimalToBase`
-- (internal/ethunit/ethunit.go).
use native.Mathlib.Nat.{pow-suc, div-add-mod', mod-lt}
use daxie.Prelude.{
  ℕ, zero, suc, ◌+◌, ◌-◌, ◌*◌, ◌/◌, ◌%◌, ◌^◌, ◌≤◌, ◌<◌, ◌≡◌, refl, ap, sym, false, ◌∙◌, some, [],
  ◌∷◌, ◌++◌, arith, All, All-append, inl, inr, Bool-cases, length, length-append, replicate, ◌==◌,
}
use daxie.Prelude.Int.{pos}
use daxie.Prelude.Results.{ok}
use daxie.Prelude.Text.{Text}
use daxie.Decimal.{digits_from, format_nat}
use daxie.Decimal.RoundTrip.{IsDigit, value, format_nat-All, value-format_nat, format_nat-ne-nil}
use daxie.Ethunit.{pad_left, trim_right_zeros, parse_decimal_to_base, format_base}
use daxie.Ethunit.Digits.{
  value-append, value-replicate, pad_left-eq-append, pad_right-trim_right_zeros, ten_pow_pos,
  trim_right_zeros-All, length-trim_right_zeros, replicate-All,
}
use daxie.Ethunit.Parse.{
  amount_of, combine_lem, parse_exact, parse_whole, parse_parts_lem, fit_fraction-short,
}

length-digits_from-le :
    (f n k : ℕ) (out : Text) → n < 10 ^ k → length (digits_from f n out) ≤ k + length out
unfolding digits_from
length-digits_from-le zero n k out h = omega arith
length-digits_from-le (suc f) n zero out h = let e : n ≡ 0 = omega arith in rw e (omega arith)
length-digits_from-le (suc f) n (suc k) out h = elim (Bool-cases (n == 0)) [
  | inl z ↦ rw z (omega arith)
  | inr p ↦
      let s : n / 10 < 10 ^ k = omega (arith, pow-suc 10 k) in
      rw p (omega (arith, length-digits_from-le f (n / 10) k ((b'0' + n % 10) ∷ out) s))
]

length-format_nat-le : (n k : ℕ) → n < 10 ^ k → 0 < k → length (format_nat n) ≤ k
unfolding format_nat
length-format_nat-le n k h p = elim (Bool-cases (n == 0)) [
  | inl z ↦ rw z (omega arith)
  | inr q ↦ rw q (omega (arith, length-digits_from-le n n k [] h))
]

length-replicate : (k : ℕ) → length (replicate {A = ℕ} k b'0') ≡ k
length-replicate zero = refl
length-replicate (suc k) = ap suc (length-replicate k)

length-pad_left : (k : ℕ) (s : Text) → length (pad_left k s) ≡ k + length s
length-pad_left k s =
    rw (pad_left-eq-append k s, length-append (replicate k b'0') s, length-replicate k)

value-pad_left : (k : ℕ) (s : Text) → value 0 (pad_left k s) ≡ value 0 s
value-pad_left k s =
    let e : 0 * 10 ^ k ≡ 0 = omega arith in
    rw (pad_left-eq-append k s, value-append (replicate k b'0') s 0, value-replicate k 0, e)

pad_left-All : (k : ℕ) (s : Text) → All IsDigit s → All IsDigit (pad_left k s)
pad_left-All k s h = rw (pad_left-eq-append k s) (All-append IsDigit _ s (replicate-All k) h)

-- Cut trailing zeros are worth nothing at the scale.
value-trim_right_zeros :
    (s : Text) (d : ℕ)
    → length s ≡ d
    → value 0 (trim_right_zeros s) * 10 ^ (d - length (trim_right_zeros s)) ≡ value 0 s
value-trim_right_zeros s d e =
    let t = trim_right_zeros s in
    sym (
      ap (value 0) (sym (pad_right-trim_right_zeros s d e))
      ∙ value-append t (replicate (d - length t) b'0') 0
      ∙ value-replicate (d - length t) (value 0 t))

parse_digits :
    (s : Text) (scale : ℕ)
    → 0 < length s
    → All IsDigit s
    → parse_decimal_to_base s scale ≡ ok (pos (amount_of s [] scale))
parse_digits [] scale p h = absurd (omega arith)
parse_digits (c ∷ i) scale p h =
    rw (parse_whole c i scale h, parse_parts_lem c i [] false scale h tt)
      (rw (fit_fraction-short [] scale (omega arith))
        (combine_lem (c ∷ i) [] scale h tt (omega arith)))

parse_point :
    (s f : Text) (scale : ℕ)
    → 0 < length s
    → All IsDigit s
    → All IsDigit f
    → length f ≤ scale
    → parse_decimal_to_base (s ++ b'.' ∷ f) scale ≡ ok (pos (amount_of s f scale))
parse_point [] f scale p hs hf h = absurd (omega arith)
parse_point (c ∷ i) f scale p hs hf h = parse_exact c i f scale hs hf h

whole_amount : (n k t : ℕ) → n * t + 0 * k ≡ n * t
whole_amount n k t = omega arith

-- The part behind the point of a printed amount.
fraction : ℕ → ℕ → Text
fraction r scale = trim_right_zeros (pad_left (scale - length (format_nat r)) (format_nat r))

module _ (r scale : ℕ) (p : 0 < scale) (h : r < 10 ^ scale) where
  padded_length : length (pad_left (scale - length (format_nat r)) (format_nat r)) ≡ scale
  padded_length =
      let le = length-format_nat-le r scale h p in
      length-pad_left (scale - length (format_nat r)) (format_nat r) ∙ omega (arith, le)

  value-fraction : value 0 (fraction r scale) * 10 ^ (scale - length (fraction r scale)) ≡ r
  unfolding fraction
  value-fraction =
      value-trim_right_zeros _ scale padded_length
      ∙ value-pad_left (scale - length (format_nat r)) (format_nat r)
      ∙ value-format_nat r

  fraction-All : All IsDigit (fraction r scale)
  unfolding fraction
  fraction-All = trim_right_zeros-All _ (pad_left-All _ _ (format_nat-All r))

  length-fraction : length (fraction r scale) ≤ scale
  unfolding fraction
  length-fraction = omega (
    arith,
    length-trim_right_zeros (pad_left (scale - length (format_nat r)) (format_nat r)),
    padded_length,
  )

-- The three ways in which a magnitude is printed.
parse_integer : (n scale : ℕ) → scale ≡ 0 → parse_decimal_to_base (format_nat n) scale ≡ ok (pos n)
parse_integer n scale z =
    parse_digits (format_nat n) scale (format_nat-ne-nil n) (format_nat-All n)
    ∙ ap (λ v. ok (pos v)) (rw (z, value-format_nat n) (omega arith))

parse_multiple :
    (n scale : ℕ)
    → n % 10 ^ scale ≡ 0
    → parse_decimal_to_base (format_nat (n / 10 ^ scale)) scale ≡ ok (pos n)
parse_multiple n scale z =
    let q = n / 10 ^ scale in
    parse_digits (format_nat q) scale (format_nat-ne-nil q) (format_nat-All q)
    ∙ ap (λ v. ok (pos v)) (rw (value-format_nat q) (omega (arith, div-add-mod' n (10 ^ scale), z)))

parse_mixed :
    (n scale : ℕ)
    → 0 < scale
    → parse_decimal_to_base
        (format_nat (n / 10 ^ scale) ++ b'.' ∷ fraction (n % 10 ^ scale) scale)
        scale
      ≡ ok (pos n)
parse_mixed n scale p =
    let q = n / 10 ^ scale in
    let r = n % 10 ^ scale in
    let small : r < 10 ^ scale = mod-lt n (ten_pow_pos scale) in
    parse_point (format_nat q) (fraction r scale) scale (format_nat-ne-nil q) (format_nat-All q)
      (fraction-All r scale p small) (length-fraction r scale p small)
    ∙ ap (λ v. ok (pos v))
        (rw (value-format_nat q, value-fraction r scale p small) (div-add-mod' n (10 ^ scale)))

-- Every amount is read back from its print, at every scale.
pub parse-format :
    (n scale : ℕ) → parse_decimal_to_base (format_base (some (pos n)) scale) scale ≡ ok (pos n)
unfolding format_base fraction
parse-format n scale = elim (Bool-cases (scale == 0)) [
  | inl z ↦ rw z (parse_integer n scale (ground arith))
  | inr p ↦ elim (Bool-cases (n % 10 ^ scale == 0)) [
    | inl z ↦ rw (p, z) (parse_multiple n scale (ground arith))
    | inr q ↦ rw (p, q) (parse_mixed n scale (ground arith))
  ]
]
