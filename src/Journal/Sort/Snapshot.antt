-- ===== src/Journal/Sort/Snapshot.antt =====
-- A compacted file stands for the same map (foldLatest of internal/journal/store.go, compact of
-- store_jsonl.go).
use daxie.Prelude.{
  ℕ, zero, suc, ◌≡◌, ◌≢◌, refl, sym, ap, ◌∙◌, inl, inr, false, Bool-cases, Option, none, some, List,
  [], ◌∷◌, All, length, leb, subst, false≢true,
}
use daxie.Prelude.Text.{Text, text_eq, text_eq_sound, text_eq_refl}
use daxie.Policy.Counter.Entries.{text_eq_ne}
use daxie.Journal.Record.{Record}
use daxie.Journal.Fold.{
  advance, newest_from, keep_later, fold_from, fold_latest, find_id, find_id-fold_latest,
}
use daxie.Journal.Sort.{lower, higher, select, exchange, sort_snapshot, pair-elim, select-All}

-- ── the newest record of each id is the same ──

abbrev pub Lacks : Text → List Record → Type 0
Lacks id = All (λ (r : Record). r.id ≢ id)

-- Each record has an id of its own.
abbrev pub IsApart : List Record → Type 0
IsApart [] = Unit
IsApart (r ∷ rs) = Lacks r.id rs × IsApart rs

pair-IsApart :
    (x y : Record) (ys : List Record) → IsApart (x ∷ y ∷ ys) → IsApart (lower x y ∷ higher x y ∷ ys)
pair-IsApart x y ys h =
    pair-elim x y (λ lo hi. IsApart (lo ∷ hi ∷ ys)) h
      (((λ e. h.0.0 (sym e)), h.1.0), (h.0.1, h.1.1))

select-IsApart :
    (x : Record) (xs : List Record) → IsApart (x ∷ xs) → IsApart ((select x xs).0 ∷ (select x xs).1)
unfolding select
select-IsApart x [] h = h
select-IsApart x (y ∷ ys) h =
    let pair = pair-IsApart x y ys h in
    let r = select-IsApart (lower x y) ys (pair.0.1, pair.1.1) in
    let n =
      select-All (λ (z : Record). z.id ≢ (higher x y).id) (lower x y) ys
        ((λ e. pair.0.0 (sym e)), pair.1.0) in
    (((λ e. n.0 (sym e)), r.0), (n.1, r.1))

advance-swap :
    (cur : Option Record) (id : Text) (a b : Record)
    → a.id ≢ b.id
    → advance id (advance id cur a) b ≡ advance id (advance id cur b) a
advance-swap cur id a b n = elim (Bool-cases (text_eq a.id id)) [
  | inl t ↦
      let f : text_eq b.id id ≡ false =
        rw (← text_eq_sound a.id id t) (text_eq_ne b.id a.id (λ e. n (sym e))) in
      rw (t, f) refl
  | inr f ↦ rw f refl
]

newest_from-select :
    (cur : Option Record) (id : Text) (x : Record) (xs : List Record)
    → IsApart (x ∷ xs)
    → newest_from cur id ((select x xs).0 ∷ (select x xs).1) ≡ newest_from cur id (x ∷ xs)
unfolding newest_from select
newest_from-select cur id x [] h = refl
newest_from-select cur id x (y ∷ ys) h =
    let pair = pair-IsApart x y ys h in
    let n =
      select-All (λ (z : Record). z.id ≢ (higher x y).id) (lower x y) ys
        ((λ e. pair.0.0 (sym e)), pair.1.0) in
    ap (λ c. newest_from c id (select (lower x y) ys).1)
      (advance-swap cur id (select (lower x y) ys).0 (higher x y) n.0)
    ∙ newest_from-select (advance id cur (higher x y)) id (lower x y) ys (pair.0.1, pair.1.1)
    ∙ ap (λ c. newest_from c id ys)
        (pair-elim x y
          (λ lo hi. advance id (advance id cur hi) lo ≡ advance id (advance id cur x) y)
          (advance-swap cur id y x h.0.0) refl)

newest_from-exchange :
    (cur : Option Record) (id : Text) (n : ℕ) (xs : List Record)
    → IsApart xs
    → newest_from cur id (exchange n xs) ≡ newest_from cur id xs
unfolding exchange newest_from
newest_from-exchange cur id zero xs h = refl
newest_from-exchange cur id (suc n) [] h = refl
newest_from-exchange cur id (suc n) (x ∷ xs) h =
    newest_from-exchange (advance id cur (select x xs).0) id n (select x xs).1
      (select-IsApart x xs h).1
    ∙ newest_from-select cur id x xs h

pub newest_from-sort_snapshot :
    (id : Text) (xs : List Record)
    → IsApart xs
    → newest_from none id (sort_snapshot xs) ≡ newest_from none id xs
unfolding sort_snapshot
newest_from-sort_snapshot id xs h = newest_from-exchange none id (length xs) xs h

-- ── a map is its own fold ──

Lacks-keep_later :
    (id : Text) (r : Record) (m : List Record) → r.id ≢ id → Lacks id m → Lacks id (keep_later r m)
unfolding keep_later
Lacks-keep_later id r [] n h = (n, tt)
Lacks-keep_later id r (x ∷ xs) n h = elim (Bool-cases (text_eq x.id r.id)) [
  | inl same ↦
      rw same
        (elim (Bool-cases (leb x.seq r.seq)) [ inl up ↦ rw up (n, h.1) | inr down ↦ rw down h ])
  | inr other ↦ rw other (h.0, Lacks-keep_later id r xs n h.1)
]

keep_later-IsApart : (r : Record) (m : List Record) → IsApart m → IsApart (keep_later r m)
unfolding keep_later
keep_later-IsApart r [] h = (tt, tt)
keep_later-IsApart r (x ∷ xs) h = elim (Bool-cases (text_eq x.id r.id)) [
  | inl same ↦ rw same (elim (Bool-cases (leb x.seq r.seq)) [
    | inl up ↦ rw up (subst (λ i. Lacks i xs) (text_eq_sound x.id r.id same) h.0, h.1)
    | inr down ↦ rw down h
  ])
  | inr other ↦ rw other (
    Lacks-keep_later x.id r xs
        (λ e. false≢true (sym other ∙ ap (text_eq x.id) e ∙ text_eq_refl x.id)) h.0,
    keep_later-IsApart r xs h.1,
  )
]

fold_from-IsApart : (acc rs : List Record) → IsApart acc → IsApart (fold_from acc rs)
unfolding fold_from
fold_from-IsApart acc [] h = h
fold_from-IsApart acc (r ∷ rs) h =
    fold_from-IsApart (keep_later r acc) rs (keep_later-IsApart r acc h)

newest_from-Lacks :
    (cur : Option Record) (id : Text) (xs : List Record) → Lacks id xs → newest_from cur id xs ≡ cur
unfolding newest_from
newest_from-Lacks cur id [] h = refl
newest_from-Lacks cur id (x ∷ xs) h = rw (text_eq_ne x.id id h.0) (newest_from-Lacks cur id xs h.1)

newest_from-find_id :
    (id : Text) (xs : List Record) → IsApart xs → newest_from none id xs ≡ find_id xs id
unfolding newest_from find_id
newest_from-find_id id [] h = refl
newest_from-find_id id (x ∷ xs) h = elim (Bool-cases (text_eq x.id id)) [
  | inl same ↦
      rw same (
        newest_from-Lacks (some x) id xs (subst (λ i. Lacks i xs) (text_eq_sound x.id id same) h.0))
  | inr other ↦ rw other (newest_from-find_id id xs h.1)
]

-- The compacted snapshot stands for the same records.
pub newest_from-snapshot :
    (id : Text) (rs : List Record)
    → newest_from none id (sort_snapshot (fold_latest rs)) ≡ newest_from none id rs
unfolding fold_latest
newest_from-snapshot id rs =
    let apart = fold_from-IsApart [] rs tt in
    newest_from-sort_snapshot id (fold_latest rs) apart
    ∙ newest_from-find_id id (fold_latest rs) apart
    ∙ find_id-fold_latest id rs
