-- ===== src/Policy/Transitions.antt =====
-- What follows a reservation: commit, release, settlement, and the list of orphans
-- (internal/policy/policy.go and orphan.go).
pub mod Lifecycle
pub mod Windows
pub mod Spend
pub mod Replacement
use daxie.Prelude.{Bool, ℕ, Option, none, some, if◌then◌else◌}
use daxie.Prelude.Results.{Result, ok, err}
use daxie.Prelude.Text.{Text, text_eq, is_empty}
use daxie.Policy.Types.{Address, Instant, zero_address}
use daxie.Policy.Counter.{CounterFile, Candidate, Entry, find_entry, update_first, update_primary}
use daxie.Policy.Reservation
use daxie.Policy.Reservation.{
  Reservation, Log, find_id, commit_reservation, settle_reservation, release_reservation,
}
use daxie.Policy.Candidates.{commit_candidate, release_candidate, settle_candidate}
use daxie.Policy.Store.{
  Error, Env, Action, ◌>>=◌, ◌>>◌, pure, raise, expect, load_counter, write_counter, read_log,
  write_log, transition,
}

-- The entries after the closure has written to the entry with this id.
unfoldable pub change_entry : Text → (Candidate → Candidate) → CounterFile → CounterFile
change_entry id f cf = record cf {
  entries = update_first (λ e. text_eq e.id id) (update_primary f) cf.entries;
}

unfoldable change_found :
    Env
    → Reservation
    → Instant
    → (Candidate → Candidate)
    → Text
    → CounterFile
    → Option Entry
    → Action (Unit {0})
unfolding change_entry
change_found env r now f id cf none = pure tt
change_found env r now f id cf (some _) =
    write_counter env r.network r.account (change_entry id f cf) now

unfoldable change_counter :
    Env → Reservation → Instant → (Candidate → Candidate) → Text → Action (Unit {0})
unfolding change_found
change_counter env r now f id = do
  expect env.net_lock
  cf ← load_counter r.network r.account
  change_found env r now f id cf (find_entry cf id)

found_in : Text → Result Error Log → Option Reservation
found_in id (ok log) = find_id log id
found_in id (err _) = none

-- The record under an id, or none when the log cannot be read.
unfoldable lookup : Env → Text → Action (Option Reservation)
unfolding found_in
lookup env id st = (ok (found_in id ((expect env.log_lock >> read_log) st).0), st)

unfoldable counter_of :
    Env → Text → Instant → (Candidate → Candidate) → Option Reservation → Action (Unit {0})
unfolding change_counter
counter_of env id now f none = pure tt
counter_of env id now f (some r) =
    if text_eq r.account zero_address then pure tt else change_counter env r now f id

unfoldable pub counter_transition :
    Env → Text → Instant → (Candidate → Candidate) → Action (Unit {0})
unfolding lookup counter_of
counter_transition env id now f =
    if is_empty id then pure tt else do r ← lookup env id; counter_of env id now f r

unfoldable pub commit : Env → Instant → Text → Text → Action (Unit {0})
unfolding counter_transition
commit env now id hash = do
  transition env id (commit_reservation hash)
  counter_transition env id now (commit_candidate hash)

unfoldable release_found : Env → Log → Option Reservation → Action (Unit {0})
release_found env log none = pure tt
release_found env log (some r) = elim (release_reservation r) [
  | none ↦ pure tt
  | some r' ↦ write_log env log r'
]

unfoldable pub release_log : Env → Text → Action (Unit {0})
unfolding release_found
release_log env id = do expect env.log_lock; log ← read_log; release_found env log (find_id log id)

unfoldable pub release : Env → Instant → Text → Action (Unit {0})
unfolding release_log counter_transition
release env now id =
    if is_empty id
    then pure tt
    else do release_log env id; counter_transition env id now release_candidate

-- A nil amount is 0.
unfoldable pub settle_actual : Env → Instant → Text → ℕ → Bool → Action (Unit {0})
unfolding counter_transition
settle_actual env now id actual reverted = do
  transition env id (settle_reservation actual reverted)
  counter_transition env id now (settle_candidate actual reverted)

unfoldable pub list_orphans : Env → Action Log
list_orphans env = do expect env.log_lock; log ← read_log; pure (Reservation.orphans log)
