-- ===== src/Calldata/Words.antt =====
-- Words of calldata, written and read (internal/erc/erc.go against internal/abi/classify.go).
use daxie.Prelude.{
  ℕ, zero, suc, ◌+◌, ◌-◌, ◌*◌, ◌/◌, ◌%◌, ◌^◌, ◌≡◌, ◌≤◌, ◌<◌, refl, sym, ap, ◌∙◌, inl, inr, true,
  false, ◌==◌, Bool-cases, none, some, List, [], ◌∷◌, ◌++◌, take, drop, length, length-append,
  replicate, arith, ltb, if◌then◌else◌, ==_iff,
}
use daxie.Prelude.Int.{pos}
use daxie.Calldata.{word, all_zero, number_from, word_addr, word_big}
use daxie.Calldata.Erc.{bytes_from, number_bytes, left_pad, addr_word, uint_word}

-- ── numbers ──

number_from-bytes_from :
    (f n : ℕ) (acc : List ℕ) → n ≤ f → number_from 0 (bytes_from f n acc) ≡ number_from n acc
unfolding bytes_from number_from
number_from-bytes_from zero n acc h = ap (λ m. number_from m acc) (omega arith)
number_from-bytes_from (suc f) n acc h = elim (Bool-cases (n == 0)) [
  | inl z ↦ rw z (ap (λ m. number_from m acc) (sym ((==_iff n 0).0 z)))
  | inr p ↦ rw p (
      number_from-bytes_from f (n / 256) ((n % 256) ∷ acc) (ground arith)
      ∙ ap (λ m. number_from m acc) (omega arith))
]

number_from-zeros : (k : ℕ) (bs : List ℕ) → number_from 0 (replicate k 0 ++ bs) ≡ number_from 0 bs
unfolding number_from
number_from-zeros zero bs = refl
number_from-zeros (suc k) bs = number_from-zeros k bs

power : ℕ → ℕ
power zero = 1
power (suc k) = 256 * power k

bytes_from-length :
    (k f n : ℕ) (acc : List ℕ) → n < power k → length (bytes_from f n acc) ≤ k + length acc
unfolding bytes_from power
bytes_from-length k zero n acc h = omega arith
bytes_from-length zero (suc f) n acc h = elim (Bool-cases (n == 0)) [
  | inl z ↦ rw z (omega arith)
  | inr p ↦ absurd (ground arith)
]
bytes_from-length (suc k) (suc f) n acc h = elim (Bool-cases (n == 0)) [
  | inl z ↦ rw z (omega arith)
  | inr p ↦ rw p (omega (arith, bytes_from-length k f (n / 256) ((n % 256) ∷ acc) (omega arith)))
]

power-32 : power 32 ≡ 2 ^ 256
unfolding power
power-32 = refl

number_bytes-length : (n : ℕ) → n < 2 ^ 256 → length (number_bytes n) ≤ 32
unfolding number_bytes
number_bytes-length n h = omega (arith, bytes_from-length 32 n n [] (rw power-32 h))

replicate-length : (k : ℕ) → length {A = ℕ} (replicate k 0) ≡ k
replicate-length zero = refl
replicate-length (suc k) = ap suc (replicate-length k)

left_pad-length : (bs : List ℕ) → length bs ≤ 32 → length (left_pad bs) ≡ 32
unfolding left_pad
left_pad-length bs h =
    omega
      (arith, length-append (replicate (32 - length bs) 0) bs, replicate-length (32 - length bs))

pub uint_word-length : (n : ℕ) → n < 2 ^ 256 → length (uint_word (some (pos n))) ≡ 32
unfolding uint_word
uint_word-length n h = left_pad-length (number_bytes n) (number_bytes-length n h)

uint_word-value : (n : ℕ) → number_from 0 (uint_word (some (pos n))) ≡ n
unfolding uint_word left_pad number_bytes number_from
uint_word-value n =
    number_from-zeros (32 - length (bytes_from n n [])) (bytes_from n n [])
    ∙ number_from-bytes_from n n [] (omega arith)

pub addr_word-length : (a : List ℕ) → length a ≡ 20 → length (addr_word a) ≡ 32
unfolding addr_word
addr_word-length a h = left_pad-length a (omega arith)

-- ── positions ──

take-all : (w r : List ℕ) (n : ℕ) → length w ≡ n → take n (w ++ r) ≡ w
take-all [] r zero h = refl
take-all [] r (suc n) h = absurd (omega arith)
take-all (x ∷ w) r zero h = absurd (omega arith)
take-all (x ∷ w) r (suc n) h = ap (λ l. x ∷ l) (take-all w r n (omega arith))

drop-past : (w r : List ℕ) (n k : ℕ) → length w ≡ n → drop (n + k) (w ++ r) ≡ drop k r
drop-past [] r n k h = ap (λ m. drop m r) (omega arith)
drop-past (x ∷ w) r zero k h = absurd (omega arith)
drop-past (x ∷ w) r (suc n) k h =
    ap (λ m. drop m (x ∷ (w ++ r))) (suc_add n k) ∙ drop-past w r n k (omega arith)
  where
    suc_add : (n k : ℕ) → suc n + k ≡ suc (n + k)
    suc_add n k = omega arith

pub word-here : (w r : List ℕ) → length w ≡ 32 → word (w ++ r) 0 ≡ some w
unfolding word
word-here w r h =
    let fits : ltb (length (w ++ r)) (0 * 32 + 32) ≡ false = ground (arith, length-append w r) in
    rw fits (ap some (take-all w r 32 h))

pub word-past : (w r : List ℕ) (i : ℕ) → length w ≡ 32 → word (w ++ r) (suc i) ≡ word r i
unfolding word
word-past w r i h =
    let test : ltb (length (w ++ r)) (suc i * 32 + 32) ≡ ltb (length r) (i * 32 + 32) =
      ground (arith, length-append w r) in
    let place : drop (suc i * 32) (w ++ r) ≡ drop (i * 32) r =
      ap (λ m. drop m (w ++ r)) (step i) ∙ drop-past w r 32 (i * 32) h in
    ap (λ b. if b then none else some (take 32 (drop (suc i * 32) (w ++ r)))) test
    ∙ ap (λ l. if ltb (length r) (i * 32 + 32) then none else some (take 32 l)) place
  where
    step : (i : ℕ) → suc i * 32 ≡ 32 + i * 32
    step i = omega arith

-- ── the words that a command writes ──

pub addr_word-reads :
    (a : List ℕ)
    → length a ≡ 20
    → (all_zero (take 12 (addr_word a)) ≡ true) × (drop 12 (addr_word a) ≡ a)
unfolding addr_word left_pad all_zero
addr_word-reads a h = let k : 32 - length a ≡ 12 = omega arith in rw k (refl, refl)

pub big-here :
    (n : ℕ) (r : List ℕ) → n < 2 ^ 256 → word_big (uint_word (some (pos n)) ++ r) 0 ≡ some n
unfolding word_big
big-here n r h =
    rw (word-here (uint_word (some (pos n))) r (uint_word-length n h)) (ap some (uint_word-value n))

pub addr-here : (a : List ℕ) (r : List ℕ) → length a ≡ 20 → word_addr (addr_word a ++ r) 0 ≡ some a
unfolding word_addr
addr-here a r h =
    let p = addr_word-reads a h in
    rw (word-here (addr_word a) r (addr_word-length a h), p.0, p.1) refl

pub big-past : (w r : List ℕ) (i : ℕ) → length w ≡ 32 → word_big (w ++ r) (suc i) ≡ word_big r i
unfolding word_big
big-past w r i h = rw (word-past w r i h) refl

pub addr-past : (w r : List ℕ) (i : ℕ) → length w ≡ 32 → word_addr (w ++ r) (suc i) ≡ word_addr r i
unfolding word_addr
addr-past w r i h = rw (word-past w r i h) refl
