-- ===== src/Policy/Tests/Records.antt =====
-- The log, the candidates and the transitions on a small store (internal/policy/reservation.go,
-- counter.go and policy.go).
use daxie.Prelude.{◌≡◌, ◌+◌, ◌≤◌, ℕ, refl, true, false, some, none, [], ◌∷◌}
use daxie.Prelude.Int.{pos}
use daxie.Prelude.Results.{ok}
use daxie.Prelude.Text.{Text, codes, text_eq}
use daxie.Decimal.{set_string}
use daxie.Policy.Types.{Detail, Decision, Code}
use daxie.Policy.Counter.{
  CounterFile, Entry, Candidate, sum_entries, sum_others, debit_entries, reserved_candidate,
  find_entry_by_nonce, same_nonce, max_value_wei, max_gas_wei,
}
use daxie.Policy.Candidates.Settlement.{settled_gas_bounds}
use daxie.Policy.Reservation
use daxie.Policy.Reservation.{
  Reservation, Log, Line, find_id, load_all, put, append_and_compact, compacted, is_terminal,
  settled_gas, commit_reservation, settle_reservation,
}
use daxie.Policy.Reservation.Log.{load_all-append_and_compact}
use daxie.Policy.Retry.{WindowEntry, refine_retry_after, first_fit, total_wei, sort_window}
use daxie.Policy.Limits.{exceeds}
use daxie.Policy.Store.{Env, Store, Error, read_counter}
use daxie.Policy.Reserve.Agreement.{calm}
use daxie.Policy.Transitions.{commit, release, settle_actual}
use daxie.Policy.Transitions.Lifecycle.{committed-kept}
use daxie.Policy.Tests.Data.{noon, record_one, store, committed_store}

abbrev one : Text
one = codes "r1"

abbrev two : Text
two = codes "r2"

abbrev record_two : Reservation
record_two = record record_one { id = two }

abbrev committed_one : Reservation
committed_one = record record_one { state = Reservation.committed }

-- ── the log ──

load_all-append_and_compact_example :
    load_all (append_and_compact (record_one ∷ []) record_two)
    ≡ some (compacted (record_one ∷ []) record_two)
load_all-append_and_compact_example =
    load_all-append_and_compact (record_one ∷ []) record_two refl (refl, tt, tt)

-- ── the transitions ──

transitions :
    (commit calm noon one (codes "0xhash") store
      ≡ (ok tt, (commit calm noon one (codes "0xhash") store).1))
    × (settle_actual calm noon one 3 true store
        ≡ (ok tt, (settle_actual calm noon one 3 true store).1))
unfolding commit settle_actual daxie.Policy.Store.transition daxie.Policy.Store.apply_transition
    daxie.Policy.Store.read_log daxie.Policy.Store.write_log daxie.Policy.Store.load_counter
    daxie.Policy.Store.read_counter daxie.Policy.Store.fill_names daxie.Policy.Store.write_counter
    load_all put find_id text_eq daxie.Policy.Transitions.counter_transition append_and_compact
    compacted commit_reservation is_terminal settle_reservation daxie.Policy.Counter.find_entry
transitions = (refl, refl)

committed-kept_example : (release calm noon one committed_store).1.log ≡ committed_store.log
unfolding load_all put find_id text_eq
committed-kept_example =
    committed-kept calm noon one committed_store (committed_one ∷ []) committed_one refl refl refl

-- ── amounts ──

settled_gas_bounds_example :
    (n : ℕ) × (settled_gas 7 (some (codes "4")) (codes "5") ≡ pos n) × (n ≤ 7) × (n ≤ 5) × (n ≤ 4)
unfolding set_string
settled_gas_bounds_example = settled_gas_bounds 7 5 (some (codes "4")) (codes "5") (4, refl) refl

abbrev over : Decision
over = record {
  allowed = false;
  code = some Code.day_limit;
  violations = [];
  retry_after = none;
  detail = some (Detail.over_day (codes "40") (codes "35") (codes "35") 9);
}

-- The earlier debit has to age out: a day after it was made.
refined_to :
    (refine_retry_after over 35 (record { ts = noon; wei = 35 } ∷ [])).retry_after ≡ some 259200
unfolding refine_retry_after daxie.Policy.Retry.sort_window daxie.Policy.Retry.total_wei
    daxie.Policy.Retry.first_fit set_string daxie.Policy.Limits.exceeds
refined_to = refl

-- ── the walk of retry_after ──

abbrev younger : WindowEntry
younger = record { ts = noon + 5; wei = 20 }

abbrev older : WindowEntry
older = record { ts = noon; wei = 30 }

walk :
    first_fit (total_wei (younger ∷ older ∷ [])) 10 (pos 40) (sort_window (younger ∷ older ∷ []))
    ≡ some older
unfolding first_fit total_wei sort_window exceeds
walk = refl
