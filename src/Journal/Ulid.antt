-- ===== src/Journal/Ulid.antt =====
-- Identifiers that sort by time (internal/journal/id.go; internal/policy/id.go has the same layout).
-- A mask and a shift to the right are a remainder and a quotient; disjoint bits are joined by `+`.
pub mod Order
use daxie.Prelude.{
  ℕ, ◌+◌, ◌*◌, ◌/◌, ◌%◌, ◌^◌, Option, none, some, List, [], ◌∷◌, ◌++◌, map, zero, suc,
}
use daxie.Prelude.Text.{Text, codes}

abbrev pub crockford : Text
crockford = codes "0123456789ABCDEFGHJKMNPQRSTVWXYZ"

-- The byte at an index, and 0 past the end, which no index reaches.
unfoldable pub byte_at : Text → ℕ → ℕ
byte_at [] i = 0
byte_at (c ∷ s) zero = c
byte_at (c ∷ s) (suc i) = byte_at s i

unfoldable pub symbol : ℕ → ℕ
unfolding byte_at
symbol i = byte_at crockford i

-- Five bytes as eight groups of five bits.
unfoldable pub groups : ℕ → ℕ → ℕ → ℕ → ℕ → List ℕ
groups a b c d e =
    a / 8
    ∷ ((a % 8) * 4 + b / 64)
    ∷ ((b % 64) / 2)
    ∷ ((b % 2) * 16 + c / 16)
    ∷ ((c % 16) * 2 + d / 128)
    ∷ ((d % 128) / 4)
    ∷ ((d % 4) * 8 + e / 32)
    ∷ (e % 32)
    ∷ []

-- The sixteen bytes of an identifier: the first of them, and three times five.
pub record Bytes : Type 0 where
  pub first : ℕ
  pub a1 : ℕ
  pub a2 : ℕ
  pub a3 : ℕ
  pub a4 : ℕ
  pub a5 : ℕ
  pub b1 : ℕ
  pub b2 : ℕ
  pub b3 : ℕ
  pub b4 : ℕ
  pub b5 : ℕ
  pub c1 : ℕ
  pub c2 : ℕ
  pub c3 : ℕ
  pub c4 : ℕ
  pub c5 : ℕ

-- The 26 indices into the alphabet.
unfoldable pub indices : Bytes → List ℕ
unfolding groups
indices x =
    x.first / 32
    ∷ (x.first % 32)
    ∷ (groups x.a1 x.a2 x.a3 x.a4 x.a5
        ++ (groups x.b1 x.b2 x.b3 x.b4 x.b5 ++ groups x.c1 x.c2 x.c3 x.c4 x.c5))

unfoldable pub encode_ulid : Bytes → Text
unfolding indices symbol
encode_ulid x = map symbol (indices x)

-- The ten bytes of entropy.
pub record Entropy : Type 0 where
  pub b1 : ℕ
  pub b2 : ℕ
  pub b3 : ℕ
  pub b4 : ℕ
  pub b5 : ℕ
  pub c1 : ℕ
  pub c2 : ℕ
  pub c3 : ℕ
  pub c4 : ℕ
  pub c5 : ℕ

-- The bytes of a time in milliseconds, of which the low 48 bits count, and the entropy.
unfoldable pub pack : ℕ → Entropy → Bytes
pack ms e = record {
  first = ms / 2 ^ 40 % 256;
  a1 = ms / 2 ^ 32 % 256;
  a2 = ms / 2 ^ 24 % 256;
  a3 = ms / 2 ^ 16 % 256;
  a4 = ms / 2 ^ 8 % 256;
  a5 = ms % 256;
  b1 = e.b1;
  b2 = e.b2;
  b3 = e.b3;
  b4 = e.b4;
  b5 = e.b5;
  c1 = e.c1;
  c2 = e.c2;
  c3 = e.c3;
  c4 = e.c4;
  c5 = e.c5;
}

-- `newULIDAt`: none if the entropy cannot be read.
unfoldable pub new_ulid : ℕ → Option Entropy → Option Text
unfolding pack encode_ulid
new_ulid ms none = none
new_ulid ms (some e) = some (encode_ulid (pack ms e))
