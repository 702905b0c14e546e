-- ===== src/Policy/Counter/Ids.antt =====
-- The ids of a counter file under a debit and a pruning (internal/policy/counter.go).
use daxie.Prelude.{
  ◌≡◌, ◌≢◌, refl, sym, ◌∙◌, subst, inl, inr, Bool, true, false, ◌&&◌, Bool-cases, ℕ, Option, List,
  [], ◌∷◌, ◌++◌, All, All-append, reject, ltb, if◌then◌else◌, is_some,
}
use daxie.Policy.Types.{Instant}
use daxie.Policy.Counter.{
  Candidate, Entry, CounterFile, insert_by_ts, sort_from, sort_entries_by_ts, update_first,
  debit_entries, with_candidate, prune_counter, find_entry_by_nonce, same_nonce,
}
use daxie.Policy.Counter.Entries.{Lacks, DistinctIds}

module _ (P : Entry → Type 0) where
  pub All-reject : (q : Entry → Bool) (es : List Entry) → All P es → All P (reject q es)
  All-reject q [] h = tt
  All-reject q (e ∷ es) h = elim (Bool-cases (q e)) [
    | inl drop_it ↦ rw drop_it (All-reject q es h.1)
    | inr keep ↦ rw keep (h.0, All-reject q es h.1)
  ]

  All-insert : (e : Entry) (es : List Entry) → P e → All P es → All P (insert_by_ts e es)
  unfolding insert_by_ts
  All-insert e [] p h = (p, tt)
  All-insert e (x ∷ xs) p h = elim (Bool-cases (ltb e.ts x.ts)) [
    | inl before ↦ rw before (p, h)
    | inr after ↦ rw after (h.0, All-insert e xs p h.1)
  ]

  pub All-update_first :
      (p : Entry → Bool) (f : Entry → Entry) (es : List Entry)
      → ((e : Entry) → P e → P (f e))
      → All P es
      → All P (update_first p f es)
  unfolding update_first
  All-update_first p f [] k h = tt
  All-update_first p f (e ∷ es) k h = elim (Bool-cases (p e)) [
    | inl hit ↦ rw hit (k e h.0, h.1)
    | inr miss ↦ rw miss (h.0, All-update_first p f es k h.1)
  ]

reject-DistinctIds :
    (q : Entry → Bool) (es : List Entry) → DistinctIds es → DistinctIds (reject q es)
reject-DistinctIds q [] h = tt
reject-DistinctIds q (e ∷ es) h = elim (Bool-cases (q e)) [
  | inl drop_it ↦ rw drop_it (reject-DistinctIds q es h.1)
  | inr keep ↦
      rw keep (All-reject (λ (x : Entry). x.id ≢ e.id) q es h.0, reject-DistinctIds q es h.1)
]

insert-DistinctIds :
    (e : Entry) (es : List Entry) → Lacks e.id es → DistinctIds es → DistinctIds (insert_by_ts e es)
unfolding insert_by_ts
insert-DistinctIds e [] n h = (tt, tt)
insert-DistinctIds e (x ∷ xs) n h = elim (Bool-cases (ltb e.ts x.ts)) [
  | inl before ↦ rw before (n, h)
  | inr after ↦ rw after (
    All-insert (λ (y : Entry). y.id ≢ x.id) e xs (λ q. n.0 (sym q)) h.0,
    insert-DistinctIds e xs n.1 h.1,
  )
]

-- No entry of the second list has the id of one of the first.
Apart : List Entry → List Entry → Type 0
Apart xs [] = Unit
Apart xs (e ∷ es) = Lacks e.id xs × Apart xs es

Apart-insert :
    (e : Entry) (xs es : List Entry) → Apart xs es → Lacks e.id es → Apart (insert_by_ts e xs) es
unfolding Apart
Apart-insert e xs [] a n = tt
Apart-insert e xs (y ∷ ys) a n = (
  All-insert (λ (x : Entry). x.id ≢ y.id) e xs (λ q. n.0 (sym q)) a.0,
  Apart-insert e xs ys a.1 n.1,
)

sort_from-DistinctIds :
    (sorted es : List Entry)
    → DistinctIds sorted
    → DistinctIds es
    → Apart sorted es
    → DistinctIds (sort_from sorted es)
unfolding sort_from Apart
sort_from-DistinctIds sorted [] d h a = d
sort_from-DistinctIds sorted (e ∷ es) d h a =
    sort_from-DistinctIds (insert_by_ts e sorted) es (insert-DistinctIds e sorted a.0 d) h.1
      (Apart-insert e sorted es a.1 h.0)

Apart-nil : (es : List Entry) → Apart [] es
unfolding Apart
Apart-nil [] = tt
Apart-nil (e ∷ es) = (tt, Apart-nil es)

snoc-DistinctIds :
    (es : List Entry) (e : Entry) → DistinctIds es → Lacks e.id es → DistinctIds (es ++ e ∷ [])
snoc-DistinctIds [] e h n = (tt, tt)
snoc-DistinctIds (x ∷ xs) e h n = (
  All-append (λ (y : Entry). y.id ≢ x.id) xs (e ∷ []) h.0 ((λ q. n.0 (sym q)), tt),
  snoc-DistinctIds xs e h.1 n.1,
)

update_first-DistinctIds :
    (p : Entry → Bool) (f : Entry → Entry) (es : List Entry)
    → ((e : Entry) → (f e).id ≡ e.id)
    → DistinctIds es
    → DistinctIds (update_first p f es)
unfolding update_first
update_first-DistinctIds p f [] k h = tt
update_first-DistinctIds p f (e ∷ es) k h = elim (Bool-cases (p e)) [
  | inl hit ↦ rw hit (subst (λ i. Lacks i es) (sym (k e)) h.0, h.1)
  | inr miss ↦ rw miss (
    All-update_first (λ (y : Entry). y.id ≢ e.id) p f es (λ y n q. n (sym (k y) ∙ q)) h.0,
    update_first-DistinctIds p f es k h.1,
  )
]

either-DistinctIds :
    (b : Bool) (xs ys : List Entry)
    → DistinctIds xs
    → DistinctIds ys
    → DistinctIds (if b then xs else ys)
either-DistinctIds true xs ys hx hy = hx
either-DistinctIds false xs ys hx hy = hy

-- A debit under an id that the file does not have keeps the ids distinct.
pub debit_entries-DistinctIds :
    (cf : CounterFile) (is_rbf : Bool) (n : Option ℕ) (cand : Candidate) (fresh : Entry)
    → Lacks fresh.id cf.entries
    → DistinctIds cf.entries
    → DistinctIds (debit_entries cf is_rbf n cand fresh)
unfolding debit_entries sort_entries_by_ts
debit_entries-DistinctIds cf is_rbf n cand fresh new h =
    either-DistinctIds (is_rbf && is_some (find_entry_by_nonce cf n)) _ _
      (update_first-DistinctIds (λ e. same_nonce e.account_nonce n) (with_candidate cand) cf.entries
        (λ e. refl) h)
      (sort_from-DistinctIds [] (cf.entries ++ fresh ∷ []) tt
        (snoc-DistinctIds cf.entries fresh h new) (Apart-nil _))

pub prune_counter-DistinctIds :
    (cf : CounterFile) (now : Instant)
    → DistinctIds cf.entries
    → DistinctIds (prune_counter cf now).entries
unfolding prune_counter
prune_counter-DistinctIds cf now h = reject-DistinctIds _ cf.entries h
