-- ===== src/Policy/Counter.antt =====
-- The rolling 24-hour spend counter of one account on one network (internal/policy/counter.go).
pub mod Entries
pub mod Window
pub mod Ids
use daxie.Prelude.{
  ℕ, ◌+◌, Bool, true, false, not, ◌&&◌, ◌==◌, Option, none, some, List, [], ◌∷◌, ◌++◌, ltb, find,
  reject, if◌then◌else◌, is_some,
}
use daxie.Prelude.Int.{ℤ, pos, negsuc, ltb_ℤ}
use daxie.Prelude.Text.{Text, text_eq}
use daxie.Decimal.{set_string, format_nat, format_int}
use daxie.Policy.Types.{Instant, day}

-- `other` is a state that no constant of the source names.
pub data CandidateState : Type 0 where
  reserved committed released replaced : CandidateState
  other : Text → CandidateState

pub record Candidate : Type 0 where
  pub tx_hash : Text
  pub value_wei : Text
  pub gas_max_wei : Text
  pub gas_actual_wei : Option Text
  pub state : CandidateState

pub record Entry : Type 0 where
  pub id : Text
  pub ts : Instant
  pub account_nonce : Option ℕ
  pub kind : Text
  pub asset : Text
  pub candidates : List Candidate

pub record CounterFile : Type 0 where
  pub version : ℕ
  pub policy_nonce : ℕ
  pub network : Text
  pub from : Text
  pub entries : List Entry

abbrev pub counter_version : ℕ
counter_version = 1

abbrev pub is_released : CandidateState → Bool
is_released released = true
is_released reserved = false
is_released committed = false
is_released replaced = false
is_released (other _) = false

-- `ts.Before(now − 24h)`, for a timestamp that parses.
unfoldable pub is_old : Instant → Instant → Bool
is_old ts now = not (ts == 0) && ltb (ts + day) now

unfoldable pub all_released : List Candidate → Bool
all_released [] = true
all_released (c ∷ cs) = is_released c.state && all_released cs

unfoldable pub entry_all_released : Entry → Bool
unfolding all_released
entry_all_released e = all_released e.candidates

-- The larger of `m` and an amount that was read, which may be negative or not a number.
unfoldable pub raise_to : ℕ → Option ℤ → ℕ
raise_to m none = m
raise_to m (some (pos v)) = if ltb m v then v else m
raise_to m (some (negsuc v)) = m

-- The gas that counts for a candidate: the settled amount, if there is one.
unfoldable pub gas_of : Candidate → Option ℤ
gas_of c = elim c.gas_actual_wei [ some s ↦ set_string s | none ↦ set_string c.gas_max_wei ]

unfoldable pub max_over : (Candidate → Option ℤ) → ℕ → List Candidate → ℕ
max_over amount m [] = m
max_over amount m (c ∷ cs) =
    max_over amount (if is_released c.state then m else raise_to m (amount c)) cs

unfoldable pub max_value_wei : Entry → ℕ
unfolding max_over
max_value_wei e = max_over (λ c. set_string c.value_wei) 0 e.candidates

unfoldable pub max_gas_wei : Entry → ℕ
unfolding max_over gas_of
max_gas_wei e = max_over gas_of 0 e.candidates

-- What one entry adds to the window.
unfoldable pub entry_wei : Entry → Instant → ℕ
entry_wei e now =
    if is_old e.ts now
    then 0
    else if entry_all_released e
    then 0
    else max_value_wei e + max_gas_wei e

unfoldable pub sum_entries : List Entry → Instant → ℕ
sum_entries [] now = 0
sum_entries (e ∷ es) now = entry_wei e now + sum_entries es now

unfoldable pub sum_window : CounterFile → Instant → ℕ
unfolding sum_entries
sum_window cf now = sum_entries cf.entries now

unfoldable pub sum_others : List Entry → Instant → Text → ℕ
sum_others [] now exclude_id = 0
sum_others (e ∷ es) now exclude_id =
    (if text_eq e.id exclude_id then 0 else entry_wei e now) + sum_others es now exclude_id

unfoldable pub sum_window_excluding : CounterFile → Instant → Text → ℕ
unfolding sum_others
sum_window_excluding cf now exclude_id = sum_others cf.entries now exclude_id

unfoldable pub is_terminal_candidate : Candidate → CandidateState → Bool
is_terminal_candidate c released = true
is_terminal_candidate c replaced = true
is_terminal_candidate c committed = is_some c.gas_actual_wei
is_terminal_candidate c reserved = false
is_terminal_candidate c (other _) = false

unfoldable pub all_terminal : List Candidate → Bool
unfolding is_terminal_candidate
all_terminal [] = true
all_terminal (c ∷ cs) = is_terminal_candidate c c.state && all_terminal cs

unfoldable pub all_candidates_terminal : Entry → Bool
unfolding all_terminal
all_candidates_terminal e = all_terminal e.candidates

-- Old entries whose candidates are all finished are dropped.
unfoldable pub prune_counter : CounterFile → Instant → CounterFile
prune_counter cf now = record cf {
  entries = reject (λ e. is_old e.ts now && all_candidates_terminal e) cf.entries;
}

unfoldable pub find_entry : CounterFile → Text → Option Entry
find_entry cf id = find (λ e. text_eq e.id id) cf.entries

unfoldable pub same_nonce : Option ℕ → Option ℕ → Bool
same_nonce none n = false
same_nonce (some a) none = false
same_nonce (some a) (some b) = a == b

unfoldable pub find_entry_by_nonce : CounterFile → Option ℕ → Option Entry
unfolding same_nonce
find_entry_by_nonce cf nonce = find (λ e. same_nonce e.account_nonce nonce) cf.entries

-- Put in front of the first entry that is later: a stable insertion.
unfoldable pub insert_by_ts : Entry → List Entry → List Entry
insert_by_ts e [] = e ∷ []
insert_by_ts e (x ∷ xs) = if ltb e.ts x.ts then e ∷ x ∷ xs else x ∷ insert_by_ts e xs

unfoldable pub sort_from : List Entry → List Entry → List Entry
sort_from sorted [] = sorted
sort_from sorted (e ∷ es) = sort_from (insert_by_ts e sorted) es

-- Oldest first, entries of one instant in their order: `sort.SliceStable`.
unfoldable pub sort_entries_by_ts : List Entry → List Entry
unfolding insert_by_ts sort_from
sort_entries_by_ts es = sort_from [] es

-- A write through the pointer that `findEntryByNonce` returns.
unfoldable pub update_first : (Entry → Bool) → (Entry → Entry) → List Entry → List Entry
update_first p f [] = []
update_first p f (e ∷ es) = if p e then f e ∷ es else e ∷ update_first p f es

abbrev pub with_candidate : Candidate → Entry → Entry
with_candidate c e = record e { candidates = e.candidates ++ c ∷ [] }

-- What `debitCounter` appends.
unfoldable pub reserved_candidate : ℕ → ℕ → Candidate
reserved_candidate value gas = record {
  tx_hash = [];
  value_wei = format_nat value;
  gas_max_wei = format_nat gas;
  gas_actual_wei = none;
  state = reserved;
}

-- The entries after a debit: an RBF request with a known nonce adds a candidate to its entry, and
-- any other request a new entry.
unfoldable pub debit_entries : CounterFile → Bool → Option ℕ → Candidate → Entry → List Entry
unfolding same_nonce
debit_entries cf is_rbf nonce cand fresh =
    if is_rbf && is_some (find_entry_by_nonce cf nonce)
    then update_first (λ e. same_nonce e.account_nonce nonce) (with_candidate cand) cf.entries
    else sort_entries_by_ts (cf.entries ++ fresh ∷ [])

-- Writes to the last candidate that is not released.
unfoldable pub update_last_live : (Candidate → Candidate) → List Candidate → List Candidate
update_last_live f [] = []
update_last_live f (c ∷ cs) =
    let later = c ∷ update_last_live f cs in
    if not (all_released cs) then later else if is_released c.state then c ∷ cs else f c ∷ cs

unfoldable pub update_last : (Candidate → Candidate) → List Candidate → List Candidate
update_last f [] = []
update_last f (c ∷ []) = f c ∷ []
update_last f (c ∷ d ∷ cs) = c ∷ update_last f (d ∷ cs)

-- A write through the pointer that `primaryCandidate` returns: the last candidate that is not
-- released, or else the last one.
unfoldable pub update_primary : (Candidate → Candidate) → Entry → Entry
unfolding all_released update_last_live update_last
update_primary f e = record e {
  candidates =
      if all_released e.candidates
      then update_last f e.candidates
      else update_last_live f e.candidates;
}
