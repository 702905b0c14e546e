-- ===== src/Policy/Counter/Entries.antt =====
-- Sums over the entries of a counter file, under the changes that the engine makes to the list
-- (internal/policy/counter.go).
use daxie.Prelude.{
  ◌+◌, ◌≤◌, ◌≡◌, ◌≢◌, refl, sym, ap, ◌∙◌, Bool, true, false, some, List, [], ◌∷◌, ◌++◌, arith, All,
  Bool-cases, inl, inr, find, reject, ltb,
}
use daxie.Prelude.Text.{Text, text_eq, text_eq_sound, text_eq_refl}
use daxie.Policy.Types.{Instant}
use daxie.Policy.Counter.{
  Entry, is_old, entry_wei, sum_entries, sum_others, insert_by_ts, sort_from, sort_entries_by_ts,
  update_first,
}

-- Entries that are old count for nothing, so pruning keeps the sum.
pub sum-reject :
    (now : Instant) (drop_it : Entry → Bool)
    → ((e : Entry) → drop_it e ≡ true → is_old e.ts now ≡ true)
    → (es : List Entry) → sum_entries (reject drop_it es) now ≡ sum_entries es now
unfolding sum_entries entry_wei
sum-reject now drop_it old [] = refl
sum-reject now drop_it old (e ∷ es) = elim (Bool-cases (drop_it e)) [
  | inl d ↦ rw (d, old e d) (sum-reject now drop_it old es ∙ omega arith)
  | inr k ↦ rw k (ap (λ n. entry_wei e now + n) (sum-reject now drop_it old es))
]

pub sum-append :
    (now : Instant) (xs ys : List Entry)
    → sum_entries (xs ++ ys) now ≡ sum_entries xs now + sum_entries ys now
unfolding sum_entries
sum-append now [] ys = omega arith
sum-append now (x ∷ xs) ys = omega (arith, sum-append now xs ys)

sum-insert :
    (now : Instant) (e : Entry) (xs : List Entry)
    → sum_entries (insert_by_ts e xs) now ≡ entry_wei e now + sum_entries xs now
unfolding sum_entries insert_by_ts
sum-insert now e [] = refl
sum-insert now e (x ∷ xs) = elim (Bool-cases (ltb e.ts x.ts)) [
  | inl before ↦ rw before
  | inr after ↦ rw after (omega (arith, sum-insert now e xs))
]

sum-sort_from :
    (now : Instant) (sorted es : List Entry)
    → sum_entries (sort_from sorted es) now ≡ sum_entries sorted now + sum_entries es now
unfolding sum_entries sort_from
sum-sort_from now sorted [] = omega arith
sum-sort_from now sorted (e ∷ es) =
    omega (arith, sum-sort_from now (insert_by_ts e sorted) es, sum-insert now e sorted)

pub sum-sort :
    (now : Instant) (es : List Entry) → sum_entries (sort_entries_by_ts es) now ≡ sum_entries es now
unfolding sort_entries_by_ts sum_entries
sum-sort now es = sum-sort_from now [] es ∙ omega arith

-- No two entries have one id.
abbrev pub Lacks : Text → List Entry → Type 0
Lacks id = All (λ (e : Entry). e.id ≢ id)

abbrev pub DistinctIds : List Entry → Type 0
DistinctIds [] = Unit
DistinctIds (e ∷ es) = Lacks e.id es × DistinctIds es

pub text_eq_ne : (s t : Text) → s ≢ t → text_eq s t ≡ false
text_eq_ne s t h = elim (Bool-cases (text_eq s t)) [
  | inl e ↦ absurd (h (text_eq_sound s t e))
  | inr n ↦ n
]

pub sum_others-Lacks :
    (now : Instant) (id : Text) (es : List Entry)
    → Lacks id es
    → sum_others es now id ≡ sum_entries es now
unfolding sum_others sum_entries
sum_others-Lacks now id [] h = refl
sum_others-Lacks now id (e ∷ es) h =
    rw (text_eq_ne e.id id h.0) (ap (λ n. entry_wei e now + n) (sum_others-Lacks now id es h.1))

pub find-Lacks :
    (p : Entry → Bool) (id : Text) (es : List Entry) (x : Entry)
    → Lacks id es
    → find p es ≡ some x
    → x.id ≢ id
find-Lacks p id [] x h f = cc
find-Lacks p id (e ∷ es) x h f = elim (Bool-cases (p e)) [
  | inl hit ↦ ground (arith, h.0)
  | inr miss ↦ find-Lacks p id es x h.1 (ground arith)
]

-- The window is the sum without an entry, and that entry.
pub sum-split :
    (now : Instant) (p : Entry → Bool) (es : List Entry) (x : Entry)
    → DistinctIds es
    → find p es ≡ some x
    → sum_entries es now ≡ sum_others es now x.id + entry_wei x now
unfolding sum_others sum_entries
sum-split now p [] x d h = cc
sum-split now p (e ∷ es) x d h = elim (Bool-cases (p e)) [
  | inl hit ↦ ground (arith, sum_others-Lacks now e.id es d.0, text_eq_refl e.id)
  | inr miss ↦
      let f : find p es ≡ some x = ground arith in
      let differ : e.id ≢ x.id = λ same. find-Lacks p e.id es x d.0 f (sym same) in
      rw (text_eq_ne e.id x.id differ) (omega (arith, sum-split now p es x d.1 f))
]

-- A write to the first entry that a test finds changes the sum by that entry alone.
pub sum-update_first :
    (now : Instant) (p : Entry → Bool) (f : Entry → Entry) (es : List Entry) (x : Entry)
    → find p es ≡ some x
    → sum_entries (update_first p f es) now + entry_wei x now
      ≡ sum_entries es now + entry_wei (f x) now
unfolding sum_entries update_first
sum-update_first now p f [] x h = cc
sum-update_first now p f (e ∷ es) x h = elim (Bool-cases (p e)) [
  | inl hit ↦ let same : e ≡ x = ground arith in rw (hit, same) (omega arith)
  | inr miss ↦ rw miss (omega (arith, sum-update_first now p f es x (ground arith)))
]

-- Leaving entries out makes the sum no larger.
pub sum_others-le :
    (now : Instant) (id : Text) (es : List Entry) → sum_others es now id ≤ sum_entries es now
unfolding sum_others sum_entries
sum_others-le now id [] = omega arith
sum_others-le now id (e ∷ es) = elim (Bool-cases (text_eq e.id id)) [
  | inl hit ↦ rw hit (omega (arith, sum_others-le now id es))
  | inr miss ↦ rw miss (omega (arith, sum_others-le now id es))
]
