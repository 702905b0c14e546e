-- ===== src/Policy/Candidates/Shrinking.antt =====
-- What an entry counts for, when one of its candidates changes (internal/policy/policy.go and
-- counter.go).
use daxie.Prelude.{
  ℕ, ◌≤◌, ◌≡◌, refl, Bool, true, Option, none, some, List, [], ◌∷◌, if◌then◌else◌, arith, All,
  All-map, Bool-cases, inl, inr,
}
use daxie.Prelude.Int.{ℤ, pos, negsuc}
use daxie.Prelude.Text.{Text}
use daxie.Decimal.{set_string}
use daxie.Policy.Types.{Instant}
use daxie.Policy.Counter.{
  Candidate, Entry, is_released, all_released, entry_all_released, raise_to, gas_of, max_over,
  max_value_wei, max_gas_wei, entry_wei, update_primary, update_first, sum_entries, update_last,
  update_last_live,
}
use daxie.Policy.Candidates.{commit_candidate, release_candidate}

-- One round of the loops of `maxValueWei` and `maxGasWei`.
abbrev pub round : (Candidate → Option ℤ) → ℕ → Candidate → ℕ
round amount m c = if is_released c.state then m else raise_to m (amount c)

-- A change of one candidate that can only lower what the loops find.
pub record Shrinks (f : Candidate → Candidate) (c : Candidate) : Type 0 where
  pub stays_released : is_released c.state ≡ true → is_released (f c).state ≡ true
  pub value_shrinks :
      (m : ℕ)
      → round (λ d. set_string d.value_wei) m (f c) ≤ round (λ d. set_string d.value_wei) m c
  pub gas_shrinks : (m : ℕ) → round gas_of m (f c) ≤ round gas_of m c

raise_to_mono : (m n : ℕ) (z : Option ℤ) → m ≤ n → raise_to m z ≤ raise_to n z
unfolding raise_to
raise_to_mono m n none h = h
raise_to_mono m n (some (pos v)) h = ground arith
raise_to_mono m n (some (negsuc v)) h = h

round_mono :
    (amount : Candidate → Option ℤ) (m n : ℕ) (c : Candidate)
    → m ≤ n
    → round amount m c ≤ round amount n c
round_mono amount m n c h = ground (arith, raise_to_mono m n (amount c) h)

max_over_mono :
    (amount : Candidate → Option ℤ) (cs : List Candidate) (m n : ℕ)
    → m ≤ n
    → max_over amount m cs ≤ max_over amount n cs
unfolding max_over
max_over_mono amount [] m n h = h
max_over_mono amount (c ∷ cs) m n h =
    max_over_mono amount cs (round amount m c) (round amount n c) (round_mono amount m n c h)

module _ (amount : Candidate → Option ℤ) (f : Candidate → Candidate) where
  Lowers : Candidate → Type 0
  Lowers c = (m : ℕ) → round amount m (f c) ≤ round amount m c

  max_over-update_last :
      (cs : List Candidate) (m : ℕ)
      → All Lowers cs
      → max_over amount m (update_last f cs) ≤ max_over amount m cs
  unfolding max_over update_last Lowers
  max_over-update_last [] m h = omega arith
  max_over-update_last (c ∷ []) m h = h.0 m
  max_over-update_last (c ∷ d ∷ cs) m h = max_over-update_last (d ∷ cs) (round amount m c) h.1

  max_over-update_last_live :
      (cs : List Candidate) (m : ℕ)
      → All Lowers cs
      → max_over amount m (update_last_live f cs) ≤ max_over amount m cs
  unfolding max_over update_last_live Lowers
  max_over-update_last_live [] m h = omega arith
  max_over-update_last_live (c ∷ cs) m h = grind (
    arith,
    max_over-update_last_live cs (round amount m c) h.1,
    max_over_mono amount cs (round amount m (f c)) (round amount m c) (h.0 m),
  )

all_released-update_last :
    (f : Candidate → Candidate) (cs : List Candidate)
    → All (λ c. is_released c.state ≡ true → is_released (f c).state ≡ true) cs
    → all_released cs ≡ true
    → all_released (update_last f cs) ≡ true
unfolding all_released update_last
all_released-update_last f [] h r = refl
all_released-update_last f (c ∷ []) h r = ground (arith, h.0)
all_released-update_last f (c ∷ d ∷ cs) h r =
    ground (arith, all_released-update_last f (d ∷ cs) h.1)

-- An entry whose primary candidate shrinks counts for no more.
pub entry_wei-update_primary :
    (f : Candidate → Candidate) (e : Entry) (now : Instant)
    → All (Shrinks f) e.candidates
    → entry_wei (update_primary f e) now ≤ entry_wei e now
unfolding entry_wei update_primary entry_all_released max_value_wei max_gas_wei Lowers
entry_wei-update_primary f e now h =
    let cs = e.candidates in
    let value = λ (c : Candidate). set_string c.value_wei in
    elim (Bool-cases (all_released cs)) [
      | inl gone ↦
          ground
            (arith, all_released-update_last f cs (All-map cs (λ c s. s.stays_released) h) gone)
      | inr live ↦ ground (
        arith,
        max_over-update_last_live value f cs 0 (All-map cs (λ c s. s.value_shrinks) h),
        max_over-update_last_live gas_of f cs 0 (All-map cs (λ c s. s.gas_shrinks) h),
      )
    ]

-- ── the three changes ──

pub commit-Shrinks : (hash : Text) (c : Candidate) → Shrinks (commit_candidate hash) c
unfolding commit_candidate gas_of
commit-Shrinks hash c = record {
  stays_released = λ h. ground arith;
  value_shrinks = λ m. ground arith;
  gas_shrinks = λ m. ground arith;
}

pub release-Shrinks : (c : Candidate) → Shrinks release_candidate c
unfolding release_candidate gas_of raise_to
release-Shrinks c = record {
  stays_released = λ h. ground arith;
  value_shrinks = λ m. ground arith;
  gas_shrinks = λ m. ground arith;
}

-- A change of one entry that only shrinks keeps the window from growing.
pub sum-update_primary :
    (now : Instant) (p : Entry → Bool) (f : Candidate → Candidate) (es : List Entry)
    → All (λ e. All (Shrinks f) e.candidates) es
    → sum_entries (update_first p (update_primary f) es) now ≤ sum_entries es now
unfolding sum_entries update_first
sum-update_primary now p f [] h = omega arith
sum-update_primary now p f (e ∷ es) h =
    ground (arith, entry_wei-update_primary f e now h.0, sum-update_primary now p f es h.1)
