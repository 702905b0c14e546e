-- ===== src/Prelude/Results.antt =====
-- What a fallible call returns, with a type of errors.
use mathlib.Core.Path.{◌≡◌}

pub data Result (E A : Type 0) : Type 0 where
  ok : A → Result E A
  err : E → Result E A

module _ {E A : Type 0} where
  pub ok-injective : (a b : A) → ◌≡◌ {A = Result E A} (ok a) (ok b) → a ≡ b
  ok-injective a b e = cc

  pub err-ne-ok : (e : E) (a : A) → ◌≡◌ {A = Result E A} (err e) (ok a) → ⊥
  err-ne-ok e a h = cc
