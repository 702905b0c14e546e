-- ===== src/Decimal/RoundTrip.antt =====
-- The decimal print of an integer and its reading (`String` and `SetString` of math/big).
use daxie.Prelude.{
  ℕ, zero, suc, ◌+◌, ◌-◌, ◌*◌, ◌/◌, ◌%◌, ◌≤◌, ◌<◌, ◌≡◌, refl, ◌∙◌, some, [], ◌∷◌, arith, All, ◌==◌,
  inl, inr, Bool-cases, length,
}
use daxie.Prelude.Int.{ℤ, pos, negsuc}
use daxie.Prelude.Text.{Text}
use daxie.Decimal.{digits_from, format_nat, format_int, scan, parse_nat, set_string}

abbrev pub IsDigit : ℕ → Type 0
IsDigit c = (b'0' ≤ c) × (c ≤ b'9')

-- The number that digits spell behind `n`.
abbrev pub value : ℕ → Text → ℕ
value n [] = n
value n (c ∷ s) = value (n * 10 + (c - b'0')) s

pub scan-value : (s : Text) (n : ℕ) → All IsDigit s → scan s n ≡ some (value n s)
unfolding scan
scan-value [] n h = refl
scan-value (c ∷ s) n (hc, hs) = ground (arith, scan-value s (n * 10 + (c - b'0')) hs)

pub value-digits_from : (f n : ℕ) (out : Text) → n ≤ f → value 0 (digits_from f n out) ≡ value n out
unfolding digits_from
value-digits_from zero n out h = let e : n ≡ 0 = omega arith in rw e
value-digits_from (suc f) n out h = elim (Bool-cases (n == 0)) [
  | inl z ↦ let e : n ≡ 0 = ground arith in rw (z, e)
  | inr p ↦
      let e : n / 10 * 10 + (b'0' + n % 10 - b'0') ≡ n = omega arith in
      rw p (value-digits_from f (n / 10) _ (omega arith) ∙ rw e)
]

pub digits_from-All : (f n : ℕ) (out : Text) → All IsDigit out → All IsDigit (digits_from f n out)
unfolding digits_from
digits_from-All zero n out h = h
digits_from-All (suc f) n out h = elim (Bool-cases (n == 0)) [
  | inl z ↦ rw z h
  | inr p ↦ rw p (digits_from-All f (n / 10) _ ((omega arith, omega arith), h))
]

-- The digits of a positive number put at least one digit in front.
pub length-digits_from :
    (f n : ℕ) (out : Text) → n ≤ f → 0 < n → length out < length (digits_from f n out)
unfolding digits_from
length-digits_from zero n out h p = absurd (omega arith)
length-digits_from (suc f) n out h p = elim (Bool-cases (n == 0)) [
  | inl z ↦ absurd (ground arith)
  | inr q ↦ rw q (longer f (n / 10) ((b'0' + n % 10) ∷ out) (omega arith))
]
  where
    longer : (g m : ℕ) (o : Text) → m ≤ g → length o ≤ length (digits_from g m o)
    longer zero m o k = omega arith
    longer (suc g) m o k = elim (Bool-cases (m == 0)) [
      | inl z ↦ rw z (omega arith)
      | inr q ↦ rw q (omega (arith, longer g (m / 10) ((b'0' + m % 10) ∷ o) (omega arith)))
    ]

pub format_nat-All : (n : ℕ) → All IsDigit (format_nat n)
unfolding format_nat
format_nat-All n = elim (Bool-cases (n == 0)) [
  | inl z ↦ rw z ((omega arith, omega arith), tt)
  | inr p ↦ rw p (digits_from-All n n [] tt)
]

pub value-format_nat : (n : ℕ) → value 0 (format_nat n) ≡ n
unfolding format_nat
value-format_nat n = elim (Bool-cases (n == 0)) [
  | inl z ↦ let e : n ≡ 0 = ground arith in rw (z, e)
  | inr p ↦ rw p (value-digits_from n n [] (omega arith))
]

pub format_nat-ne-nil : (n : ℕ) → 0 < length (format_nat n)
unfolding format_nat
format_nat-ne-nil n = elim (Bool-cases (n == 0)) [
  | inl z ↦ rw z (omega arith)
  | inr p ↦ rw p (length-digits_from n n [] (omega arith) (ground arith))
]

pub parse_nat-value : (s : Text) → 0 < length s → All IsDigit s → parse_nat s ≡ some (value 0 s)
unfolding parse_nat
parse_nat-value [] p h = absurd (omega arith)
parse_nat-value (c ∷ s) p h = scan-value (c ∷ s) 0 h

pub set_string-value :
    (s : Text) → 0 < length s → All IsDigit s → set_string s ≡ some (pos (value 0 s))
unfolding set_string
set_string-value [] p h = absurd (omega arith)
set_string-value (c ∷ s) p h = ground (arith, parse_nat-value (c ∷ s) p h)

pub set_string-format_nat : (n : ℕ) → set_string (format_nat n) ≡ some (pos n)
set_string-format_nat n =
    rw (set_string-value (format_nat n) (format_nat-ne-nil n) (format_nat-All n))
      (rw (value-format_nat n))

set_string-minus : (n : ℕ) → set_string (b'-' ∷ format_nat (n + 1)) ≡ some (negsuc n)
unfolding set_string
set_string-minus n =
    rw (parse_nat-value _ (format_nat-ne-nil (n + 1)) (format_nat-All (n + 1)))
      (rw (value-format_nat (n + 1)) (ground arith))

-- Every integer, of either sign and any size, is read back from the text that is written for it.
pub set_string-format_int : (z : ℤ) → set_string (format_int z) ≡ some z
unfolding format_int
set_string-format_int (pos n) = set_string-format_nat n
set_string-format_int (negsuc n) = set_string-minus n
