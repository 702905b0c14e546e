-- ===== src/Journal/Fold.antt =====
-- The latest record of each id (foldLatest of internal/journal/store.go). The map is a list with one
-- record for each id.
use daxie.Prelude.{
  ℕ, ◌≡◌, refl, sym, ap, ◌∙◌, inl, inr, true, false, Bool-cases, Option, none, some, List, [], ◌∷◌,
  ◌++◌, arith, leb, ltb, if◌then◌else◌, false≢true,
}
use daxie.Prelude.Text.{Text, text_eq, text_eq_sound, text_eq_refl}
use daxie.Journal.Record.{Record}

-- `latest[r.ID] = r`, unless a record with a higher sequence number is there.
unfoldable pub keep_later : Record → List Record → List Record
keep_later r [] = r ∷ []
keep_later r (x ∷ xs) =
    if text_eq x.id r.id then (if leb x.seq r.seq then r else x) ∷ xs else x ∷ keep_later r xs

unfoldable pub fold_from : List Record → List Record → List Record
fold_from acc [] = acc
fold_from acc (r ∷ rs) = fold_from (keep_later r acc) rs

unfoldable pub fold_latest : List Record → List Record
fold_latest rs = fold_from [] rs

-- `latest[id]`
unfoldable pub find_id : List Record → Text → Option Record
find_id [] id = none
find_id (x ∷ xs) id = if text_eq x.id id then some x else find_id xs id

-- `readAll`'s running maximum.
unfoldable pub max_seq : ℕ → List Record → ℕ
max_seq m [] = m
max_seq m (r ∷ rs) = max_seq (if ltb m r.seq then r.seq else m) rs

-- ── the record that each id stands for, with no map ──

abbrev pub later : Option Record → Record → Record
later none r = r
later (some x) r = if leb x.seq r.seq then r else x

abbrev pub advance : Text → Option Record → Record → Option Record
advance id cur r = if text_eq r.id id then some (later cur r) else cur

unfoldable pub newest_from : Option Record → Text → List Record → Option Record
newest_from cur id [] = cur
newest_from cur id (r ∷ rs) = newest_from (advance id cur r) id rs

differ : (i j k : Text) → text_eq i j ≡ false → text_eq i k ≡ true → text_eq j k ≡ false
differ i j k f t = elim (Bool-cases (text_eq j k)) [
  | inl b ↦ absurd (
      false≢true
        (sym f ∙ ap (text_eq i) (text_eq_sound j k b ∙ sym (text_eq_sound i k t)) ∙ text_eq_refl i))
  | inr b ↦ b
]

find_id-keep_later :
    (id : Text) (r : Record) (m : List Record)
    → find_id (keep_later r m) id ≡ advance id (find_id m id) r
unfolding find_id keep_later
find_id-keep_later id r [] = refl
find_id-keep_later id r (x ∷ xs) = elim (Bool-cases (text_eq x.id r.id)) [
  | inl same ↦ ground (arith, ap (λ i. text_eq i id) (text_eq_sound x.id r.id same))
  | inr other ↦ ground (arith, find_id-keep_later id r xs, differ x.id r.id id other)
]

find_id-fold_from :
    (id : Text) (acc rs : List Record)
    → find_id (fold_from acc rs) id ≡ newest_from (find_id acc id) id rs
unfolding fold_from newest_from
find_id-fold_from id acc [] = refl
find_id-fold_from id acc (r ∷ rs) =
    find_id-fold_from id (keep_later r acc) rs
    ∙ ap (λ c. newest_from c id rs) (find_id-keep_later id r acc)

-- The map holds, for each id, the newest record of that id.
pub find_id-fold_latest :
    (id : Text) (rs : List Record) → find_id (fold_latest rs) id ≡ newest_from none id rs
unfolding fold_latest find_id
find_id-fold_latest id rs = find_id-fold_from id [] rs

pub newest_from-append :
    (cur : Option Record) (id : Text) (xs ys : List Record)
    → newest_from cur id (xs ++ ys) ≡ newest_from (newest_from cur id xs) id ys
unfolding newest_from
newest_from-append cur id [] ys = refl
newest_from-append cur id (x ∷ xs) ys = newest_from-append (advance id cur x) id xs ys
