-- ===== src/Journal/Sort.antt =====
-- The two nested loops of `compact` (internal/journal/store_jsonl.go), which put the snapshot in
-- ascending order of sequence numbers.
pub mod Snapshot
use daxie.Prelude.{
  ℕ, zero, suc, ◌≡◌, ◌≢◌, ◌≤◌, refl, sym, ap, ◌∙◌, inl, inr, false, Bool-cases, Option, none, some,
  List, [], ◌∷◌, All, length, arith, ltb, leb, subst, if◌then◌else◌, false≢true,
}
use daxie.Prelude.Text.{Text, text_eq, text_eq_sound, text_eq_refl}
use daxie.Policy.Counter.Entries.{text_eq_ne}
use daxie.Journal.Record.{Record}
use daxie.Journal.Fold.{
  advance, newest_from, keep_later, fold_from, fold_latest, find_id, find_id-fold_latest,
}

-- The two records after one comparison: a smaller number moves to the position.
unfoldable pub lower : Record → Record → Record
lower x y = if ltb y.seq x.seq then y else x

unfoldable pub higher : Record → Record → Record
higher x y = if ltb y.seq x.seq then x else y

-- The inner loop at one position: the record that ends there, and the rest.
unfoldable pub select : Record → List Record → Record × List Record
unfolding lower higher
select x [] = (x, [])
select x (y ∷ ys) = let (m, rest) = select (lower x y) ys in (m, higher x y ∷ rest)

-- The outer loop; the fuel is the number of positions left.
unfoldable pub exchange : ℕ → List Record → List Record
exchange zero xs = xs
exchange (suc n) [] = []
exchange (suc n) (x ∷ xs) = let (m, rest) = select x xs in m ∷ exchange n rest

unfoldable pub sort_snapshot : List Record → List Record
sort_snapshot xs = exchange (length xs) xs

-- ── it loses and adds nothing ──

pub pair-elim :
    (x y : Record) (P : Record → Record → Type 0) → P x y → P y x → P (lower x y) (higher x y)
unfolding lower higher
pair-elim x y P h k = elim (Bool-cases (ltb y.seq x.seq)) [
  | inl less ↦ rw less k
  | inr more ↦ rw more h
]

select-length : (x : Record) (xs : List Record) → length (select x xs).1 ≡ length xs
unfolding select
select-length x [] = refl
select-length x (y ∷ ys) = ap suc (select-length (lower x y) ys)

module _ (P : Record → Type 0) where
  select-All :
      (x : Record) (xs : List Record) → All P (x ∷ xs) → All P ((select x xs).0 ∷ (select x xs).1)
  unfolding select
  select-All x [] h = h
  select-All x (y ∷ ys) h =
      let both = pair-elim x y (λ lo hi. P lo × P hi) (h.0, h.1.0) (h.1.0, h.0) in
      let r = select-All (lower x y) ys (both.0, h.1.1) in (r.0, (both.1, r.1))

  exchange-All : (n : ℕ) (xs : List Record) → All P xs → All P (exchange n xs)
  unfolding exchange
  exchange-All zero xs h = h
  exchange-All (suc n) [] h = tt
  exchange-All (suc n) (x ∷ xs) h =
      let r = select-All x xs h in (r.0, exchange-All n (select x xs).1 r.1)

-- ── it sorts ──

abbrev pub IsAscending : List Record → Type 0
IsAscending [] = Unit
IsAscending (x ∷ xs) = All (λ (y : Record). x.seq ≤ y.seq) xs × IsAscending xs

lower_bounds : (x y : Record) → ((lower x y).seq ≤ x.seq) × ((lower x y).seq ≤ (higher x y).seq)
unfolding lower higher
lower_bounds x y = ground arith

select-least :
    (x : Record) (xs : List Record)
    → ((select x xs).0.seq ≤ x.seq)
      × All (λ (y : Record). (select x xs).0.seq ≤ y.seq) (select x xs).1
unfolding select
select-least x [] = (omega arith, tt)
select-least x (y ∷ ys) =
    let r = select-least (lower x y) ys in
    let b = lower_bounds x y in (omega arith, (omega arith, r.1))

exchange-IsAscending : (n : ℕ) (xs : List Record) → length xs ≤ n → IsAscending (exchange n xs)
unfolding exchange
exchange-IsAscending zero [] h = tt
exchange-IsAscending zero (x ∷ xs) h = absurd (omega arith)
exchange-IsAscending (suc n) [] h = tt
exchange-IsAscending (suc n) (x ∷ xs) h = (
  exchange-All (λ (y : Record). (select x xs).0.seq ≤ y.seq) n (select x xs).1
      (select-least x xs).1,
  exchange-IsAscending n (select x xs).1 (omega (arith, select-length x xs)),
)

pub sort_snapshot-IsAscending : (xs : List Record) → IsAscending (sort_snapshot xs)
unfolding sort_snapshot
sort_snapshot-IsAscending xs = exchange-IsAscending (length xs) xs (omega arith)
