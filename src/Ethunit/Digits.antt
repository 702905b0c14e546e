-- ===== src/Ethunit/Digits.antt =====
-- Padding, trimming and reading digits, and where a text is cut (internal/ethunit/ethunit.go).
use mathlib.Core.List.{reverse, reverse-append, reverse-reverse}
use native.Mathlib.Nat.{pow-suc}
use daxie.Prelude.{
  subst, ℕ, zero, suc, ◌+◌, ◌-◌, ◌*◌, ◌^◌, ◌≤◌, ◌≡◌, ◌<◌, ◌≢◌, refl, ap, sym, true, false, ◌∙◌,
  none, some, [], ◌∷◌, ◌++◌, arith, All, All-append, ◌==◌, inl, inr, Bool-cases, ◌&&◌,
  if◌then◌else◌, length, replicate, append_assoc, append-nil,
}
use daxie.Prelude.Text.{Text, trim_space, trim_left, is_space, is_empty}
use daxie.Decimal.RoundTrip.{IsDigit, value}
use daxie.Ethunit.{pad_right, pad_left, trim_left_zeros, trim_right_zeros, cut_dot, all_digits}

pub value-append : (a b : Text) (n : ℕ) → value n (a ++ b) ≡ value (value n a) b
value-append [] b n = refl
value-append (c ∷ a) b n = value-append a b (n * 10 + (c - b'0'))

shift_step :
    (n d k l v w u : ℕ)
    → k ≡ l * 10
    → v ≡ (n * 10 + d) * l + w
    → u ≡ (0 * 10 + d) * l + w
    → v ≡ n * k + u
shift_step n d k l v w u e h g = rw (e, h, g) (omega arith)

pub value_shift : (s : Text) (n : ℕ) → value n s ≡ n * 10 ^ length s + value 0 s
value_shift [] n = omega arith
value_shift (c ∷ s) n =
    shift_step n (c - b'0') (10 ^ suc (length s)) (10 ^ length s) _ (value 0 s) _
      (pow-suc 10 (length s)) (value_shift s (n * 10 + (c - b'0')))
      (value_shift s (0 * 10 + (c - b'0')))

pub pad_right-eq-append : (k : ℕ) (s : Text) → pad_right k s ≡ s ++ replicate k b'0'
unfolding pad_right
pad_right-eq-append zero s = sym (append-nil s)
pad_right-eq-append (suc k) s =
    pad_right-eq-append k _ ∙ append_assoc s (b'0' ∷ []) (replicate k b'0')

pub value-replicate : (k n : ℕ) → value n (replicate k b'0') ≡ n * 10 ^ k
value-replicate zero n = omega arith
value-replicate (suc k) n = value-replicate k (n * 10 + 0) ∙ rw pow-suc (omega arith)

pub value-trim_left_zeros : (s : Text) → value 0 (trim_left_zeros s) ≡ value 0 s
unfolding trim_left_zeros
value-trim_left_zeros [] = refl
value-trim_left_zeros (c ∷ s) = elim (Bool-cases (c == b'0')) [
  | inl z ↦ let e : c ≡ b'0' = ground arith in rw (z, e) (value-trim_left_zeros s)
  | inr p ↦ rw p
]

pub trim_left_zeros-All : (s : Text) → All IsDigit s → All IsDigit (trim_left_zeros s)
unfolding trim_left_zeros
trim_left_zeros-All [] h = tt
trim_left_zeros-All (c ∷ s) h = ground (arith, trim_left_zeros-All s h.1)

pub replicate-All : (k : ℕ) → All IsDigit (replicate k b'0')
replicate-All zero = tt
replicate-All (suc k) = ((omega arith, omega arith), replicate-All k)

pub all_digits_lem : (s : Text) → All IsDigit s → all_digits s ≡ true
unfolding all_digits
all_digits_lem [] h = refl
all_digits_lem (c ∷ s) h = ground (arith, all_digits_lem s h.1)

drop_suc : (n m : ℕ) → suc n - suc m ≡ n - m
drop_suc n m = omega arith

put_back :
    (c : ℕ) (s t : Text)
    → t ++ replicate (length s - length t) b'0' ≡ s
    → let u : Text = if is_empty t && c == b'0' then [] else c ∷ t in
      u ++ replicate (suc (length s) - length u) b'0' ≡ c ∷ s
put_back c s [] h = elim (Bool-cases (c == b'0')) [
  | inl z ↦
      let e : suc (length s) - 0 ≡ suc (length s - 0) = omega arith in
      let d : c ≡ b'0' = ground arith in rw (z, e) (rw (h, d))
  | inr p ↦ rw p (ap (λ r. c ∷ r) (rw drop_suc h))
]
put_back c s (b ∷ t) h = ap (λ r. c ∷ r) (rw drop_suc h)

-- Trailing zeros that are cut are the ones that padding puts back.
pub pad_right-trim_right_zeros :
    (s : Text) (d : ℕ)
    → length s ≡ d
    → trim_right_zeros s ++ replicate (d - length (trim_right_zeros s)) b'0' ≡ s
unfolding trim_right_zeros
pad_right-trim_right_zeros [] d e = let z : d ≡ 0 = omega arith in rw z
pad_right-trim_right_zeros (c ∷ s) d e =
    rw (sym e) (put_back c s (trim_right_zeros s) (pad_right-trim_right_zeros s (length s) refl))

pub trim_right_zeros-All : (s : Text) → All IsDigit s → All IsDigit (trim_right_zeros s)
unfolding trim_right_zeros
trim_right_zeros-All [] h = tt
trim_right_zeros-All (c ∷ s) h = ground (arith, trim_right_zeros-All s h.1)

pub length-trim_right_zeros : (s : Text) → length (trim_right_zeros s) ≤ length s
unfolding trim_right_zeros
length-trim_right_zeros [] = omega arith
length-trim_right_zeros (c ∷ s) = ground (arith, length-trim_right_zeros s)

pub pad_left-eq-append : (k : ℕ) (s : Text) → pad_left k s ≡ replicate k b'0' ++ s
unfolding pad_left
pad_left-eq-append zero s = refl
pad_left-eq-append (suc k) s = pad_left-eq-append k (b'0' ∷ s) ∙ slide k s
  where
    slide : (j : ℕ) (t : Text) → replicate j b'0' ++ b'0' ∷ t ≡ b'0' ∷ (replicate j b'0' ++ t)
    slide zero t = refl
    slide (suc j) t = ap (λ u. b'0' ∷ u) (slide j t)

-- A text of digits holds no point.
pub cut_dot-digits : (s : Text) → All IsDigit s → cut_dot s ≡ none
unfolding cut_dot
cut_dot-digits [] h = refl
cut_dot-digits (c ∷ s) h = ground (arith, cut_dot-digits s h.1)

pub cut_dot-append : (s t : Text) → All IsDigit s → cut_dot (s ++ b'.' ∷ t) ≡ some (s, t)
unfolding cut_dot
cut_dot-append [] t h = ground arith
cut_dot-append (c ∷ s) t h = ground (arith, cut_dot-append s t h.1)

abbrev pub IsInk : ℕ → Type 0
IsInk c = is_space c ≡ false

trim_left-ink : (s : Text) → All IsInk s → trim_left s ≡ s
unfolding trim_left
trim_left-ink [] h = refl
trim_left-ink (c ∷ s) h = rw h.0

reverse-All : (s : Text) → All IsInk s → All IsInk (reverse s)
reverse-All [] h = tt
reverse-All (c ∷ s) h =
    subst (All IsInk) (sym (reverse-append (c ∷ []) s))
      (All-append IsInk (reverse s) (c ∷ []) (reverse-All s h.1) (h.0, tt))

-- Trimming leaves a text with no white space alone.
pub trim_space-ink : (s : Text) → All IsInk s → trim_space s ≡ s
unfolding trim_space
trim_space-ink s h =
    rw (trim_left-ink s h, trim_left-ink (reverse s) (reverse-All s h), reverse-reverse)

pub digits-IsInk : (s : Text) → All IsDigit s → All IsInk s
unfolding is_space
digits-IsInk [] h = tt
digits-IsInk (c ∷ s) h = (ground arith, digits-IsInk s h.1)

pub ten_pow_pos : (n : ℕ) → 0 < 10 ^ n
ten_pow_pos zero = omega arith
ten_pow_pos (suc n) = rw (pow-suc 10 n) (omega (arith, ten_pow_pos n))

product_pos : (d l w : ℕ) → 0 < d → 0 < l → d * l + w ≢ 0
product_pos d l w p q z = grind arith

lead_positive : (c : ℕ) (s : Text) → IsDigit c → c ≢ b'0' → value 0 (c ∷ s) ≢ 0
lead_positive c s h p z =
    product_pos (0 * 10 + (c - b'0')) (10 ^ length s) (value 0 s) (omega arith)
      (ten_pow_pos (length s)) (sym (value_shift s (0 * 10 + (c - b'0'))) ∙ z)

-- What is left of digits after their zeros are cut off is empty only if all are zeros.
pub trim_zeros-value :
    (s : Text)
    → All IsDigit s
    → value 0 s ≡ 0
    → is_empty (trim_right_zeros (trim_left_zeros s)) ≡ true
unfolding trim_left_zeros trim_right_zeros
trim_zeros-value [] h z = refl
trim_zeros-value (c ∷ s) h z = elim (Bool-cases (c == b'0')) [
  | inl e ↦ rw e (trim_zeros-value s h.1 (omega (arith, value_shift s (0 * 10 + (c - b'0')), z)))
  | inr p ↦ absurd (lead_positive c s h.0 (ground arith) z)
]

-- A text that does not begin with a zero digit keeps its first byte.
trim_right_zeros-cons :
    (c : ℕ) (s : Text) → c == b'0' ≡ false → is_empty (trim_right_zeros (c ∷ s)) ≡ false
unfolding trim_right_zeros
trim_right_zeros-cons c s h = ground arith

pub trim_zeros-pos :
    (s : Text)
    → All IsDigit s
    → 0 < value 0 s
    → is_empty (trim_right_zeros (trim_left_zeros s)) ≡ false
unfolding trim_left_zeros
trim_zeros-pos [] h p = absurd (omega arith)
trim_zeros-pos (c ∷ s) h p = elim (Bool-cases (c == b'0')) [
  | inl e ↦
      let d : c ≡ b'0' = ground arith in
      rw e (trim_zeros-pos s h.1 (subst (λ k. 0 < value (0 * 10 + (k - b'0')) s) d p))
  | inr q ↦ rw q (trim_right_zeros-cons c s q)
]
