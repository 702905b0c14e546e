-- ===== src/Journal/Nonce/Loop.antt =====
-- The loops over the latest records and over the sources of a nonce (journalNext and maxU64 of
-- internal/journal/nonce.go).
use daxie.Prelude.{
  ℕ, ◌+◌, ◌≡◌, ◌≤◌, ◌<◌, refl, sym, inl, inr, true, ◌&&◌, Bool-cases, some, List, [], ◌∷◌, All,
  arith, if◌then◌else◌, leb, subst, some-injective,
}
use daxie.Prelude.Text.{Text, text_eq}
use daxie.Journal.Record.{Record, consumes_nonce}
use daxie.Journal.Fold.{fold_from, fold_latest, keep_later, find_id}
use daxie.Journal.Store.{u64}
use daxie.Journal.Nonce.{Tally, no_tally, count, tally, next_of}

-- The loop takes the record in.
abbrev pub Taken : (Text → Text) → Text → Record → Type 0
Taken to_address addr r = text_eq (to_address r.from) addr && consumes_nonce r.status ≡ true

module _ (to_address : Text → Text) (addr : Text) where
  step : Tally → Record → Tally
  unfolding count
  step t r = if text_eq (to_address r.from) addr && consumes_nonce r.status then count t r else t

  step_grows :
      (t : Tally) (r : Record) (k : ℕ)
      → t.seen ≡ true
      → k ≤ t.max_nonce
      → ((step t r).seen ≡ true) × (k ≤ (step t r).max_nonce)
  unfolding step count
  step_grows t r k s h =
      elim (Bool-cases (text_eq (to_address r.from) addr && consumes_nonce r.status)) [
        | inl y ↦ rw y (refl, ground arith)
        | inr n ↦ rw n (s, h)
      ]

  tally_grows :
      (t : Tally) (rs : List Record) (k : ℕ)
      → t.seen ≡ true
      → k ≤ t.max_nonce
      → ((tally to_address addr t rs).seen ≡ true) × (k ≤ (tally to_address addr t rs).max_nonce)
  unfolding tally step
  tally_grows t [] k s h = (s, h)
  tally_grows t (r ∷ rs) k s h = let g = step_grows t r k s h in tally_grows (step t r) rs k g.0 g.1

  step_takes :
      (t : Tally) (r : Record)
      → Taken to_address addr r
      → ((step t r).seen ≡ true) × (r.nonce ≤ (step t r).max_nonce)
  unfolding step count
  step_takes t r h = rw h (refl, ground arith)

  tally_takes :
      (t : Tally) (rs : List Record) (id : Text) (r : Record)
      → find_id rs id ≡ some r
      → Taken to_address addr r
      → ((tally to_address addr t rs).seen ≡ true)
        × (r.nonce ≤ (tally to_address addr t rs).max_nonce)
  unfolding find_id tally step
  tally_takes t [] id r e h = cc
  tally_takes t (x ∷ xs) id r e h = elim (Bool-cases (text_eq x.id id)) [
    | inl same ↦
        let x_eq : x ≡ r = some-injective x r (rw same at e) in
        let taken = step_takes t x (subst (Taken to_address addr) (sym x_eq) h) in
        subst
          (λ (y : Record).
            ((tally to_address addr (step t x) xs).seen ≡ true)
            × (y.nonce ≤ (tally to_address addr (step t x) xs).max_nonce))
          x_eq (tally_grows (step t x) xs x.nonce taken.0 taken.1)
    | inr other ↦ tally_takes (step t x) xs id r (rw other at e) h
  ]

  step_bounded :
      (t : Tally) (r : Record)
      → r.nonce + 1 < u64
      → t.max_nonce + 1 < u64
      → (step t r).max_nonce + 1 < u64
  unfolding step count
  step_bounded t r h b =
      elim (Bool-cases (text_eq (to_address r.from) addr && consumes_nonce r.status)) [
        | inl y ↦ rw y (ground arith)
        | inr n ↦ rw n b
      ]

  tally_bounded :
      (t : Tally) (rs : List Record)
      → All (λ (r : Record). r.nonce + 1 < u64) rs
      → t.max_nonce + 1 < u64
      → (tally to_address addr t rs).max_nonce + 1 < u64
  unfolding tally step
  tally_bounded t [] h b = b
  tally_bounded t (r ∷ rs) h b = tally_bounded (step t r) rs h.1 (step_bounded t r h.0 b)

  -- The next nonce lies above that of each record that the loop takes in.
  pub next_of-lt :
      (rs : List Record) (id : Text) (r : Record)
      → All (λ (r : Record). r.nonce + 1 < u64) rs
      → find_id rs id ≡ some r
      → Taken to_address addr r
      → r.nonce < next_of to_address (tally to_address addr no_tally rs)
  next_of-lt rs id r b e h =
      let t = tally_takes no_tally rs id r e h in
      let top = tally_bounded no_tally rs b (omega arith) in rw t.0 (omega arith)

All-keep_later :
    (P : Record → Type 0) (r : Record) (m : List Record) → P r → All P m → All P (keep_later r m)
unfolding keep_later
All-keep_later P r [] p h = (p, tt)
All-keep_later P r (x ∷ xs) p h = elim (Bool-cases (text_eq x.id r.id)) [
  | inl same ↦
      rw same
        (elim (Bool-cases (leb x.seq r.seq)) [ inl up ↦ rw up (p, h.1) | inr down ↦ rw down h ])
  | inr other ↦ rw other (h.0, All-keep_later P r xs p h.1)
]

All-fold_from :
    (P : Record → Type 0) (acc rs : List Record) → All P acc → All P rs → All P (fold_from acc rs)
unfolding fold_from
All-fold_from P acc [] a h = a
All-fold_from P acc (r ∷ rs) a h =
    All-fold_from P (keep_later r acc) rs (All-keep_later P r acc h.0 a) h.1

pub All-fold_latest : (P : Record → Type 0) (rs : List Record) → All P rs → All P (fold_latest rs)
unfolding fold_latest
All-fold_latest P rs h = All-fold_from P [] rs tt h
