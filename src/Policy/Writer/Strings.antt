-- ===== src/Policy/Writer/Strings.antt =====
-- The strings that the writer of the policy body quotes, read as JSON reads them (jsonString of
-- internal/policy/file.go).
use daxie.Prelude.{
  ℕ, zero, suc, ◌+◌, ◌-◌, ◌*◌, ◌/◌, ◌%◌, ◌<◌, ◌≡◌, refl, sym, ap, ◌∙◌, inl, inr, Bool, false, ◌==◌,
  Bool-cases, Option, none, some, [], ◌∷◌, ◌++◌, append_assoc, arith, ltb, ==_iff, if◌then◌else◌,
  ltb→lt, drop,
}
use daxie.Prelude.Text.{Text}
use daxie.Policy.Writer.{hex_digit, escape, escape_all, json_string}

-- Where the reader of a string stands: in plain text, after a backslash, or before some hex digits,
-- with the value of those read.
pub data Mode : Type 0 where
  plain escaped : Mode
  hex : ℕ → ℕ → Mode

hex_value : ℕ → ℕ
hex_value c = if ltb c b'a' then c - b'0' else c - b'a' + 10

next : Mode → ℕ → Mode
unfolding hex_value
next plain c = if c == b'\\' then escaped else plain
next escaped c = if c == b'u' then hex 4 0 else plain
next (hex (suc (suc n)) acc) c = hex (suc n) (acc * 16 + hex_value c)
next (hex (suc zero) acc) c = plain
next (hex zero acc) c = plain

unescape : ℕ → ℕ
unescape c = if c == b'n' then 10 else if c == b'r' then 13 else if c == b't' then 9 else c

-- The character that a byte completes, if it does.
emit : Mode → ℕ → Option ℕ
unfolding unescape hex_value
emit plain c = if c == b'\\' then none else some c
emit escaped c = if c == b'u' then none else some (unescape c)
emit (hex (suc (suc n)) acc) c = none
emit (hex (suc zero) acc) c = some (acc * 16 + hex_value c)
emit (hex zero acc) c = none

ends : Mode → ℕ → Bool
ends plain c = c == b'"'
ends escaped c = false
ends (hex n acc) c = false

add : Option ℕ → Option (Text × Text) → Option (Text × Text)
add e none = none
add none (some p) = some p
add (some c) (some (s, rest)) = some (c ∷ s, rest)

-- The text up to the closing quote, and what follows it.
unfoldable pub read : Mode → Text → Option (Text × Text)
unfolding next emit ends add
read m [] = none
read m (c ∷ s) = let r = read (next m c) s in if ends m c then some ([], s) else add (emit m c) r

hex_value-digit : (d : ℕ) → d < 16 → hex_value (hex_digit d) ≡ d
unfolding hex_value hex_digit
hex_value-digit d h = ground arith

add-none : (x : Option (Text × Text)) → add none x ≡ x
unfolding add
add-none none = refl
add-none (some p) = refl

-- An escape of two characters.
read-pair :
    (c e v : ℕ) (rest : Text)
    → c ≡ v
    → emit escaped e ≡ some v
    → next escaped e ≡ plain
    → read plain (b'\\' ∷ e ∷ rest) ≡ add (some c) (read plain rest)
unfolding read ends
read-pair c e v rest p q n =
    rw (n, q) (add-none (add (some v) (read plain rest)))
    ∙ ap (λ x. add (some x) (read plain rest)) (sym p)

hex_pair :
    (c : ℕ)
    → c < 32
    → (0 + hex_value (hex_digit (c / 16))) * 16 + hex_value (hex_digit (c % 16)) ≡ c
hex_pair c h =
    omega (arith, hex_value-digit (c / 16) (omega arith), hex_value-digit (c % 16) (omega arith))

read-hex :
    (c : ℕ) (rest : Text)
    → c < 32
    → read plain (b'\\' ∷ b'u' ∷ b'0' ∷ b'0' ∷ hex_digit (c / 16) ∷ hex_digit (c % 16) ∷ rest)
      ≡ add (some c) (read plain rest)
unfolding read next emit ends
read-hex c rest h =
    add-none _
    ∙ add-none _
    ∙ add-none _
    ∙ add-none _
    ∙ add-none _
    ∙ ap (λ v. add (some v) (read plain rest)) (hex_pair c h)

read-plain :
    (c : ℕ) (rest : Text)
    → c == b'"' ≡ false
    → c == b'\\' ≡ false
    → read plain (c ∷ rest) ≡ add (some c) (read plain rest)
unfolding read next emit ends
read-plain c rest q b = rw (q, b) refl

read-escape : (c : ℕ) (rest : Text) → read plain (escape c ++ rest) ≡ add (some c) (read plain rest)
unfolding escape next emit unescape
read-escape c rest = elim (Bool-cases (c == b'"')) [
  | inl y ↦ rw y (read-pair c b'"' b'"' rest ((==_iff c b'"').0 y) refl refl)
  | inr quote ↦ rw quote (elim (Bool-cases (c == b'\\')) [
    | inl y ↦ rw y (read-pair c b'\\' b'\\' rest ((==_iff c b'\\').0 y) refl refl)
    | inr slash ↦ rw slash (elim (Bool-cases (c == 10)) [
      | inl y ↦ rw y (read-pair c b'n' 10 rest ((==_iff c 10).0 y) refl refl)
      | inr n ↦ rw n (elim (Bool-cases (c == 13)) [
        | inl y ↦ rw y (read-pair c b'r' 13 rest ((==_iff c 13).0 y) refl refl)
        | inr n ↦ rw n (elim (Bool-cases (c == 9)) [
          | inl y ↦ rw y (read-pair c b't' 9 rest ((==_iff c 9).0 y) refl refl)
          | inr n ↦ rw n (elim (Bool-cases (ltb c 32)) [
            | inl y ↦ rw y (read-hex c rest (ltb→lt c 32 y))
            | inr n ↦ rw n (read-plain c rest quote slash)
          ])
        ])
      ])
    ])
  ])
]

pub read-escape_all : (s rest : Text) → read plain (escape_all s ++ b'"' ∷ rest) ≡ some (s, rest)
unfolding escape_all read ends add
read-escape_all [] rest = refl
read-escape_all (c ∷ s) rest =
    ap (read plain) (append_assoc (escape c) (escape_all s) (b'"' ∷ rest))
    ∙ read-escape c (escape_all s ++ b'"' ∷ rest)
    ∙ ap (add (some c)) (read-escape_all s rest)

-- A string that the writer quotes, read as a JSON string, gives back the text and what follows it,
-- whatever both are.
pub read-json_string :
    (s rest : Text) → read plain (drop 1 (json_string s ++ rest)) ≡ some (s, rest)
unfolding json_string
read-json_string s rest =
    ap (read plain) (append_assoc (escape_all s) (b'"' ∷ []) rest) ∙ read-escape_all s rest
