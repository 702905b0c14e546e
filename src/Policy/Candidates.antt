-- ===== src/Policy/Candidates.antt =====
-- What a commit, a release and a settlement do to the candidate of a counter entry, and to the
-- window (internal/policy/policy.go, the closures that `Commit`, `Release` and `SettleActual` hand
-- to `counterTransition`).
pub mod Shrinking
pub mod Settlement
use daxie.Prelude.{ℕ, Bool, true, false, Option, none, some, if◌then◌else◌}
use daxie.Prelude.Text.{Text, codes}
use daxie.Decimal.{format_int}
use daxie.Policy.Counter
use daxie.Policy.Counter.{Candidate, CandidateState, is_released}
use daxie.Policy.Reservation.{settled_gas}

unfoldable pub commit_candidate : Text → Candidate → Candidate
commit_candidate hash c =
    if is_released c.state then c else record c { state = CandidateState.committed; tx_hash = hash }

release_state : CandidateState → CandidateState
release_state CandidateState.reserved = CandidateState.released
release_state CandidateState.committed = CandidateState.committed
release_state CandidateState.released = CandidateState.released
release_state CandidateState.replaced = CandidateState.replaced
release_state (CandidateState.other s) = CandidateState.other s

-- Only a reserved candidate is released.
unfoldable pub release_candidate : Candidate → Candidate
unfolding release_state
release_candidate c = record c { state = release_state c.state }

unfoldable pub settle_candidate : ℕ → Bool → Candidate → Candidate
settle_candidate actual reverted c = record c {
  gas_actual_wei = some (format_int (settled_gas actual c.gas_actual_wei c.gas_max_wei));
  value_wei = if reverted then codes "0" else c.value_wei;
}
