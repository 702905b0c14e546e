-- ===== src/Prelude/Lists.antt =====
-- Lists over native numbers, and predicates on lists by recursion.
use Prim.Native.Nat.{ℕ, zero, suc, ◌+◌}
use mathlib.Core.Path.{◌≡◌}
use mathlib.Core.Bool.{Bool, true, false, ◌||◌}
use mathlib.Core.Logic.{inl, inr}
use mathlib.Core.Option.{Option, none, some}
use mathlib.Core.List.{List, [], ◌∷◌, ◌++◌}
use native.Mathlib.Omega.{arith}
use daxie.Prelude.Tests.{if◌then◌else◌, Bool-cases}

module _ {ℓ} {A : Type ℓ} where
  abbrev pub length : List A → ℕ
  length [] = 0
  length (x ∷ xs) = suc (length xs)

  abbrev pub take : ℕ → List A → List A
  take zero xs = []
  take (suc n) [] = []
  take (suc n) (x ∷ xs) = x ∷ take n xs

  abbrev pub drop : ℕ → List A → List A
  drop zero xs = xs
  drop (suc n) [] = []
  drop (suc n) (x ∷ xs) = drop n xs

  abbrev pub replicate : ℕ → A → List A
  replicate zero a = []
  replicate (suc n) a = a ∷ replicate n a

  -- Whether some element passes the test: a `for` loop that returns true at the first hit.
  abbrev pub any : (A → Bool) → List A → Bool
  any p [] = false
  any p (x ∷ xs) = p x || any p xs

  -- The first element that passes the test.
  abbrev pub find : (A → Bool) → List A → Option A
  find p [] = none
  find p (x ∷ xs) = if p x then some x else find p xs

  -- The elements that fail the test: the loop that skips with `continue`.
  abbrev pub reject : (A → Bool) → List A → List A
  reject p [] = []
  reject p (x ∷ xs) = if p x then reject p xs else x ∷ reject p xs

  pub length-append : (xs ys : List A) → length (xs ++ ys) ≡ length xs + length ys
  length-append [] ys = omega arith
  length-append (x ∷ xs) ys = omega (arith, length-append xs ys)

-- A predicate by recursion computes to tuples, which the tactics read and build.
module _ {ℓ κ} {A : Type ℓ} (P : A → Type κ) where
  abbrev pub All : List A → Type κ
  All [] = Unit
  All (x ∷ xs) = P x × All xs

  -- Some element of the list satisfies the predicate, with the element kept.
  pub data Exists : List A → Type (ℓ ⊔ κ) where
    here : {x : A} {xs : List A} → P x → Exists (x ∷ xs)
    there : {x : A} {xs : List A} → Exists xs → Exists (x ∷ xs)

  pub All-append : (xs ys : List A) → All xs → All ys → All (xs ++ ys)
  All-append [] ys _ hy = hy
  All-append (x ∷ xs) ys (px, hx) hy = (px, All-append xs ys hx hy)

module _ {ℓ} {A : Type ℓ} where
  pub any-true : (p : A → Bool) (xs : List A) → any p xs ≡ true → Exists (λ x. p x ≡ true) xs
  any-true p [] h = absurd (ff h)
    where
      ff : false ≡ true → ⊥
      ff e = cc
  any-true p (x ∷ xs) h = elim (Bool-cases (p x)) [
    | inl t ↦ Exists.here t
    | inr f ↦ Exists.there (any-true p xs (rw f at h))
  ]

  pub any-false : (p : A → Bool) (xs : List A) → any p xs ≡ false → All (λ x. p x ≡ false) xs
  any-false p [] h = tt
  any-false p (x ∷ xs) h = elim (Bool-cases (p x)) [
    | inl t ↦ absurd (tf (rw t at h))
    | inr f ↦ (f, any-false p xs (rw f at h))
  ]
    where
      tf : true ≡ false → ⊥
      tf e = cc

  -- What holds of an element under a test holds of some element.
  pub Exists-map {κ μ} :
      {P : A → Type κ} {Q : A → Type μ} (xs : List A)
      → ((x : A) → P x → Q x)
      → Exists P xs
      → Exists Q xs
  Exists-map [] f h = elim h [ ]
  Exists-map (x ∷ xs) f (Exists.here h) = Exists.here (f x h)
  Exists-map (x ∷ xs) f (Exists.there h) = Exists.there (Exists-map xs f h)

  pub All-map {κ μ} :
      {P : A → Type κ} {Q : A → Type μ} (xs : List A) → ((x : A) → P x → Q x) → All P xs → All Q xs
  All-map [] f h = tt
  All-map (x ∷ xs) f h = (f x h.0, All-map xs f h.1)

  -- What holds of everything holds of each element.
  pub All-always {κ} : {P : A → Type κ} (xs : List A) → ((x : A) → P x) → All P xs
  All-always [] h = tt
  All-always (x ∷ xs) h = (h x, All-always xs h)
