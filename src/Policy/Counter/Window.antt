-- ===== src/Policy/Counter/Window.antt =====
-- What a debit does to the window (internal/policy/counter.go; `debitCounter` in policy.go).
use daxie.Prelude.{
  ℕ, ◌+◌, ◌≤◌, ◌≡◌, refl, ◌∙◌, Bool, true, false, ◌&&◌, Option, some, List, [], ◌∷◌, ◌++◌,
  if◌then◌else◌, arith, ltb, is_some,
}
use daxie.Prelude.Int.{ℤ}
use daxie.Decimal.{set_string, format_nat}
use daxie.Decimal.RoundTrip.{set_string-format_nat}
use daxie.Policy.Types.{Instant}
use daxie.Policy.Counter.{
  Candidate, Entry, CounterFile, is_released, is_old, all_released, entry_all_released, raise_to,
  gas_of, max_over, max_value_wei, max_gas_wei, entry_wei, sum_entries, sum_others,
  find_entry_by_nonce, same_nonce, debit_entries, with_candidate, reserved_candidate,
}
use daxie.Policy.Counter.Entries.{DistinctIds, sum-append, sum-sort, sum-split, sum-update_first}

max_over-append :
    (amount : Candidate → Option ℤ) (m : ℕ) (cs : List Candidate) (c : Candidate)
    → is_released c.state ≡ false
    → max_over amount m (cs ++ c ∷ []) ≡ raise_to (max_over amount m cs) (amount c)
unfolding max_over
max_over-append amount m [] c h = rw h
max_over-append amount m (d ∷ cs) c h =
    max_over-append amount (if is_released d.state then m else raise_to m (amount d)) cs c h

all_released-append :
    (cs : List Candidate) (c : Candidate)
    → is_released c.state ≡ false
    → all_released (cs ++ c ∷ []) ≡ false
unfolding all_released
all_released-append [] c h = rw h
all_released-append (d ∷ cs) c h = ground (arith, all_released-append cs c h)

-- The larger of a counted amount and a new one.
abbrev pub merge : ℕ → ℕ → ℕ
merge m v = if ltb m v then v else m

raise-format_nat : (m v : ℕ) → raise_to m (set_string (format_nat v)) ≡ merge m v
unfolding raise_to
raise-format_nat m v = rw (set_string-format_nat v)

max_value-with :
    (e : Entry) (v g : ℕ)
    → max_value_wei (with_candidate (reserved_candidate v g) e) ≡ merge (max_value_wei e) v
unfolding max_value_wei reserved_candidate
max_value-with e v g =
    max_over-append (λ c. set_string c.value_wei) 0 e.candidates (reserved_candidate v g) refl
    ∙ raise-format_nat _ v

max_gas-with :
    (e : Entry) (v g : ℕ)
    → max_gas_wei (with_candidate (reserved_candidate v g) e) ≡ merge (max_gas_wei e) g
unfolding max_gas_wei reserved_candidate gas_of
max_gas-with e v g =
    max_over-append gas_of 0 e.candidates (reserved_candidate v g) refl ∙ raise-format_nat _ g

released-with :
    (e : Entry) (v g : ℕ) → entry_all_released (with_candidate (reserved_candidate v g) e) ≡ false
unfolding entry_all_released reserved_candidate
released-with e v g = all_released-append e.candidates (reserved_candidate v g) refl

entry_wei-with :
    (e : Entry) (v g : ℕ) (now : Instant)
    → entry_wei (with_candidate (reserved_candidate v g) e) now
      ≤ merge (max_value_wei e) v + merge (max_gas_wei e) g
unfolding entry_wei
entry_wei-with e v g now =
    ground (arith, released-with e v g, max_value-with e v g, max_gas-with e v g)

not_old_now : (now : Instant) → is_old now now ≡ false
unfolding is_old
not_old_now now = ground arith

max_value-one :
    (v g : ℕ) → max_over (λ c. set_string c.value_wei) 0 (reserved_candidate v g ∷ []) ≡ v
unfolding max_over reserved_candidate
max_value-one v g = raise-format_nat 0 v ∙ ground arith

max_gas-one : (v g : ℕ) → max_over gas_of 0 (reserved_candidate v g ∷ []) ≡ g
unfolding max_over reserved_candidate gas_of
max_gas-one v g = raise-format_nat 0 g ∙ ground arith

released-one : (v g : ℕ) → all_released (reserved_candidate v g ∷ []) ≡ false
unfolding all_released reserved_candidate
released-one v g = refl

-- A new entry that is debited now counts its value and its worst-case gas.
entry_wei-fresh :
    (e : Entry) (v g : ℕ) (now : Instant)
    → e.ts ≡ now
    → e.candidates ≡ reserved_candidate v g ∷ []
    → entry_wei e now ≡ v + g
unfolding entry_wei entry_all_released max_value_wei max_gas_wei
entry_wei-fresh e v g now ts cs =
    ground (arith, not_old_now now, max_value-one v g, max_gas-one v g, released-one v g)

sum-one : (e : Entry) (now : Instant) → sum_entries (e ∷ []) now ≡ entry_wei e now
unfolding sum_entries
sum-one e now = omega arith

-- A debit that is no replacement, made now, adds the value and the worst-case gas to the window.
pub debit_entries-fresh :
    (cf : CounterFile) (is_rbf : Bool) (nonce : Option ℕ) (fresh : Entry) (v g : ℕ) (now : Instant)
    → is_rbf && is_some (find_entry_by_nonce cf nonce) ≡ false
    → fresh.ts ≡ now
    → fresh.candidates ≡ reserved_candidate v g ∷ []
    → sum_entries (debit_entries cf is_rbf nonce (reserved_candidate v g) fresh) now
      ≡ sum_entries cf.entries now + (v + g)
unfolding debit_entries
debit_entries-fresh cf is_rbf n fresh v g now h ts cs = rw h (
    sum-sort now (cf.entries ++ fresh ∷ [])
    ∙ sum-append now cf.entries (fresh ∷ [])
    ∙ omega (arith, sum-one fresh now, entry_wei-fresh fresh v g now ts cs))

-- Where ids are distinct, a debit that replaces an entry counts at most the larger of the two values and of the two gas
-- amounts in its place.
pub debit_entries-replace :
    (cf : CounterFile) (nonce : Option ℕ) (fresh x : Entry) (v g : ℕ) (now : Instant)
    → DistinctIds cf.entries
    → find_entry_by_nonce cf nonce ≡ some x
    → sum_entries (debit_entries cf true nonce (reserved_candidate v g) fresh) now
      ≤ sum_others cf.entries now x.id + (merge (max_value_wei x) v + merge (max_gas_wei x) g)
unfolding debit_entries find_entry_by_nonce
debit_entries-replace cf nonce fresh x v g now d f = rw f (
    omega (
      arith,
      sum-split now (λ e. same_nonce e.account_nonce nonce) cf.entries x d f,
      sum-update_first now (λ e. same_nonce e.account_nonce nonce)
          (with_candidate (reserved_candidate v g)) cf.entries x f,
      entry_wei-with x v g now,
    ))
