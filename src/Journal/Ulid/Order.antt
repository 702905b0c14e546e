-- ===== src/Journal/Ulid/Order.antt =====
-- The order of identifiers as texts (internal/journal/id.go).
use daxie.Prelude.{
  ℕ, zero, suc, ◌+◌, ◌*◌, ◌/◌, ◌%◌, ◌^◌, ◌≡◌, ◌⊎◌, ◌≤◌, ◌<◌, refl, ap, inl, inr, Bool, true, ◌&&◌,
  ◌==◌, Bool-cases, some, List, [], ◌∷◌, ◌++◌, map, All, length, arith, ltb, ==_iff, some-injective,
}
use daxie.Prelude.Text.{Text, text_lt}
use daxie.Journal.Ulid.{
  crockford, byte_at, symbol, groups, Bytes, indices, encode_ulid, Entropy, pack, new_ulid,
}

-- ── the alphabet ──

-- Whether every byte of the text comes after `c`.
follows : ℕ → Text → Bool
follows c [] = true
follows c (d ∷ s) = ltb c d && follows c s

ascends : Text → Bool
unfolding follows
ascends [] = true
ascends (c ∷ s) = follows c s && ascends s

byte_at-follows : (c : ℕ) (s : Text) (j : ℕ) → follows c s ≡ true → j < length s → c < byte_at s j
unfolding follows byte_at
byte_at-follows c [] j h k = absurd (omega arith)
byte_at-follows c (d ∷ s) zero h k = ground arith
byte_at-follows c (d ∷ s) (suc j) h k = byte_at-follows c s j (ground arith) (omega arith)

byte_at-ascends :
    (s : Text) (i j : ℕ) → ascends s ≡ true → i < j → j < length s → byte_at s i < byte_at s j
unfolding ascends byte_at
byte_at-ascends [] i j h l k = absurd (omega arith)
byte_at-ascends (c ∷ s) i zero h l k = absurd (omega arith)
byte_at-ascends (c ∷ s) zero (suc j) h l k = byte_at-follows c s j (ground arith) (omega arith)
byte_at-ascends (c ∷ s) (suc i) (suc j) h l k =
    byte_at-ascends s i j (ground arith) (omega arith) (omega arith)

alphabet-ascends : ascends crockford ≡ true
unfolding ascends follows
alphabet-ascends = refl

symbol_mono : (i j : ℕ) → i < j → j < 32 → symbol i < symbol j
unfolding symbol
symbol_mono i j h k = byte_at-ascends crockford i j alphabet-ascends h k

-- ── digits ──

abbrev AreDigits : List ℕ → Type 0
AreDigits = All (λ (d : ℕ). d < 32)

-- The weight of a digit ahead of the list.
weight : List ℕ → ℕ
weight [] = 1
weight (d ∷ ds) = 32 * weight ds

value : List ℕ → ℕ
unfolding weight
value [] = 0
value (d ∷ ds) = d * weight ds + value ds

mul-le : (a b p : ℕ) → a ≤ b → a * p ≤ b * p
mul-le a b p h = grind arith

suc_mul : (d w : ℕ) → suc d * w ≡ d * w + w
suc_mul d w = grind arith

carry : (p d e v w : ℕ) → v < p → w < p → d * p + v < e * p + w → (d < e) ⊎ ((d ≡ e) × (v < w))
carry p d e v w h k l = elim (Bool-cases (ltb d e)) [
  | inl y ↦ inl (ground arith)
  | inr n ↦ elim (Bool-cases (d == e)) [
    | inl y ↦
        let same : d ≡ e = (==_iff d e).0 y in inr (same, omega (arith, ap (λ (t : ℕ). t * p) same))
    | inr m ↦ absurd (
        let above : suc e ≤ d = ground arith in
        let over : p + e * p ≤ d * p = grind (arith, mul-le (suc e) d p above) in omega arith)
  ]
]

value-lt : (ds : List ℕ) → AreDigits ds → value ds < weight ds
unfolding value weight
value-lt [] h = omega arith
value-lt (d ∷ ds) h =
    omega
      (arith, value-lt ds h.1, mul-le (suc d) 32 (weight ds) (ground arith), suc_mul d (weight ds))

weight-eq : (xs ys : List ℕ) → length xs ≡ length ys → weight xs ≡ weight ys
unfolding weight
weight-eq [] [] h = refl
weight-eq [] (y ∷ ys) h = absurd (omega arith)
weight-eq (x ∷ xs) [] h = absurd (omega arith)
weight-eq (x ∷ xs) (y ∷ ys) h = ap (λ w. 32 * w) (weight-eq xs ys (omega arith))

text_lt-digits :
    (xs ys us ws : List ℕ)
    → AreDigits xs
    → AreDigits ys
    → length xs ≡ length ys
    → value xs < value ys
    → text_lt (map symbol (xs ++ us)) (map symbol (ys ++ ws)) ≡ true
unfolding value text_lt
text_lt-digits [] [] us ws hx hy l v = absurd (omega arith)
text_lt-digits [] (y ∷ ys) us ws hx hy l v = absurd (omega arith)
text_lt-digits (x ∷ xs) [] us ws hx hy l v = absurd (omega arith)
text_lt-digits (x ∷ xs) (y ∷ ys) us ws hx hy l v =
    elim (carry (weight ys) x y (value xs) (value ys)
      (rw (← weight-eq xs ys (omega arith)) (value-lt xs hx.1)) (value-lt ys hy.1)
      (omega (arith, ap (λ w. x * w) (weight-eq xs ys (omega arith))))) [
        | inl less ↦ ground (arith, symbol_mono x y less hy.0)
        | inr tie ↦ rw tie.0 (
            ground (
              arith,
              text_lt-digits xs ys us ws hx.1 hy.1 (omega arith) tie.1,
              (==_iff (symbol y) (symbol y)).1 refl,
            ))
      ]

-- ── the time ──

leading : Bytes → List ℕ
unfolding groups
leading x = x.first / 32 ∷ (x.first % 32) ∷ groups x.a1 x.a2 x.a3 x.a4 x.a5

trailing : Bytes → List ℕ
unfolding groups
trailing x = groups x.b1 x.b2 x.b3 x.b4 x.b5 ++ groups x.c1 x.c2 x.c3 x.c4 x.c5

leading-value : (ms : ℕ) (e : Entropy) → ms < 2 ^ 48 → value (leading (pack ms e)) ≡ ms
unfolding value weight leading groups pack
leading-value ms e h = omega arith

leading-AreDigits : (ms : ℕ) (e : Entropy) → AreDigits (leading (pack ms e))
unfolding leading groups pack
leading-AreDigits ms e = omega arith

-- An identifier of an earlier millisecond comes before one of a later millisecond in the order of
-- texts, whatever their entropy, for times of 48 bits.
pub new_ulid-sorts :
    (s t : ℕ) (e f : Entropy) (id id' : Text)
    → s < t
    → t < 2 ^ 48
    → new_ulid s (some e) ≡ some id
    → new_ulid t (some f) ≡ some id'
    → text_lt id id' ≡ true
unfolding new_ulid encode_ulid indices leading trailing
new_ulid-sorts s t e f id id' h k p q =
    rw (← some-injective _ id p, ← some-injective _ id' q)
      (text_lt-digits (leading (pack s e)) (leading (pack t f)) (trailing (pack s e))
        (trailing (pack t f)) (leading-AreDigits s e) (leading-AreDigits t f) refl
        (omega (arith, leading-value s e (omega arith), leading-value t f k)))
