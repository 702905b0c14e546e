-- ===== src/Policy/Tests/Runs.antt =====
-- Runs of the engine's operations on a small store (internal/policy/policy.go).
use daxie.Prelude.{
  ◌≡◌, ◌≢◌, ℕ, refl, sym, ap, false≢true, Bool, true, false, Option, some, none, List, [], ◌∷◌,
}
use daxie.Prelude.Results.{Result, ok, err}
use daxie.Prelude.Text.{Text, codes, text_eq}
use daxie.Policy.Types.{Policy, Check, Decision, effective_kind, zero_address}
use daxie.Policy.Limits.{resolve_limits, parse_limit}
use daxie.Policy.Stages.Amounts.{is_gasless}
use daxie.Policy.Stages.Amounts.Passing.{Within}
use daxie.Policy.Reservation.{Reservation, find_id, load_all, orphans, put, Log}
use daxie.Policy.Counter.{find_entry_by_nonce, same_nonce}
use daxie.Policy.Retry.{RbfContext}
use daxie.Policy.Store.{Error, Env, Store, read_counter}
use daxie.Policy.Store.Inversion.{held}
use daxie.Policy.Engine.{aggregate_window, network_accounts, window_for, this_debit, superseded}
use daxie.Policy.Reserve.{
  Call, reserve, engine_evaluate, new_reservation, no_reservation, denied_error,
}
use daxie.Policy.Reserve.Agreement.{calm, refused-reserve, allowed-reserve}
use daxie.Policy.Reserve.Budget.{HasDistinctIds, reserve-Within}
use daxie.Policy.Reserve.Durable.{reserve-HasDistinctIds, reserve-logged}
use daxie.Policy.Tests.Data.{
  policy, send, bump, permit, call, store, noon, alice, bob, net, counter, record_one,
}

-- 35 is spent in each of the two accounts; the second transaction of 35 would come to 105.
abbrev pub lone : Call
lone = record call { hooked = [] }

abbrev pub outcome : Call → Check → Result Error Reservation × Store
outcome k c = reserve calm k (ok (some policy)) c store

abbrev checked : Call → Check → Result Error Decision × Store
checked k c = engine_evaluate calm k (ok (some policy)) c store

abbrev no_space : Env
no_space = record calm { counter_write = some Error.state_error }

abbrev decision : Decision → Result Error Decision → Decision
decision d (ok x) = x
decision d (err _) = d

abbrev refusal : Decision
refusal = decision daxie.Policy.Evaluate.allow (checked call send).0

abbrev grant : Decision
grant = decision daxie.Policy.Evaluate.allow (checked lone send).0

abbrev permit_grant : Decision
permit_grant = decision daxie.Policy.Evaluate.allow (checked call permit).0

abbrev bump_rbf : RbfContext
bump_rbf = record { superseded_id = codes "r1"; account = alice; merged_env = 39 }

pub runs :
    (outcome lone send ≡ (ok (new_reservation lone send), (outcome lone send).1))
    × (outcome call bump ≡ (ok (new_reservation call bump), (outcome call bump).1))
    × (checked call send ≡ (ok refusal, store))
    × (refusal.allowed ≡ false)
    × (checked lone send ≡ (ok grant, store))
    × (grant.allowed ≡ true)
    × (checked call permit ≡ (ok permit_grant, store))
    × (permit_grant.allowed ≡ true)
    × (reserve no_space lone (ok (some policy)) send store
        ≡ (err Error.state_error, (reserve no_space lone (ok (some policy)) send store).1))
    × (window_for (network_accounts (alice ∷ bob ∷ []) alice) bump counter noon store
        ≡ (ok (35, some bump_rbf), store))
unfolding reserve engine_evaluate daxie.Policy.Evaluate.evaluate daxie.Policy.Evaluate.all_stages
    daxie.Policy.Evaluate.stage_destination daxie.Policy.Evaluate.collect
    daxie.Policy.Evaluate.compose_denial daxie.Policy.Evaluate.pick_winner
    daxie.Policy.Evaluate.rank daxie.Policy.Evaluate.retry_of daxie.Policy.Evaluate.verdict
    daxie.Policy.Stages.Destination.stage_denylist daxie.Policy.Stages.Destination.match_pin
    daxie.Policy.Stages.Destination.stage_allowlist daxie.Policy.Stages.Destination.on_allowlist
    daxie.Policy.Stages.Destination.stage_no_allowlist
    daxie.Policy.Stages.Destination.stage_pin_drift daxie.Policy.Stages.Destination.dest_role
    daxie.Policy.Stages.Destination.in_self daxie.Policy.Stages.Destination.is_token_or_approval
    daxie.Policy.Stages.Messages.stage_typed_data
    daxie.Policy.Stages.Messages.stage_unknown_calldata
    daxie.Policy.Stages.Messages.contract_addr_allowlisted
    daxie.Policy.Stages.Messages.contract_allow_match
    daxie.Policy.Stages.Messages.has_chain_mismatch daxie.Policy.Stages.Messages.says_allow
    daxie.Policy.Stages.Messages.typed_allow_match daxie.Policy.Stages.Amounts.stage_per_tx
    daxie.Policy.Stages.Amounts.stage_daily daxie.Policy.Stages.Amounts.stage_gas_cap
    daxie.Policy.Stages.Amounts.stage_unlimited daxie.Policy.Stages.Amounts.token_hard_deny
    daxie.Policy.Stages.Amounts.token_of daxie.Policy.Stages.Amounts.is_gasless
    daxie.Policy.Stages.Amounts.is_approval daxie.Policy.Stages.Amounts.is_unlimited_amount
    daxie.Policy.Types.effective_kind daxie.Policy.Types.lower_hex
    daxie.Policy.Limits.resolve_limits daxie.Policy.Limits.exceeds daxie.Policy.Limits.is_null
    daxie.Policy.Limits.override_limit daxie.Policy.Limits.parse_limit daxie.Decimal.digits_from
    daxie.Decimal.format_int daxie.Decimal.format_nat daxie.Decimal.is_digit daxie.Decimal.parse_nat
    daxie.Decimal.scan daxie.Decimal.set_string daxie.Prelude.Text.equal_fold
    daxie.Prelude.Text.text_eq daxie.Prelude.Text.to_lower daxie.Prelude.Text.has_prefix
    daxie.Prelude.Text.is_space daxie.Prelude.Text.lower_byte daxie.Prelude.Text.trim_left
    daxie.Prelude.Text.trim_space daxie.Policy.Reserve.reserve_active
    daxie.Policy.Reserve.reserve_window daxie.Policy.Reserve.after_verdict
    daxie.Policy.Reserve.write_both daxie.Policy.Reserve.write_reservation
    daxie.Policy.Reserve.debit_counter daxie.Policy.Reserve.fresh_entry
    daxie.Policy.Reserve.new_reservation daxie.Policy.Reserve.refine
    daxie.Policy.Reserve.refine_with daxie.Policy.Reserve.check_window
    daxie.Policy.Reserve.check_active daxie.Policy.Reserve.denied_error
    daxie.Policy.Engine.add_account daxie.Policy.Engine.add_accounts
    daxie.Policy.Engine.network_accounts daxie.Policy.Engine.window_of
    daxie.Policy.Engine.aggregate_window daxie.Policy.Engine.merged_envelope
    daxie.Policy.Engine.this_debit daxie.Policy.Engine.superseded daxie.Policy.Engine.window_with
    daxie.Policy.Engine.window_for daxie.Policy.Store.read_counter daxie.Policy.Store.fill_names
    daxie.Policy.Store.load_counter daxie.Policy.Store.save_counter daxie.Policy.Store.write_counter
    daxie.Policy.Store.read_log daxie.Policy.Store.save_log daxie.Policy.Store.write_log
    daxie.Policy.Retry.window_entries daxie.Policy.Retry.total_wei daxie.Policy.Retry.sort_window
    daxie.Policy.Retry.first_fit daxie.Policy.Retry.refine_retry_after daxie.Policy.Counter.is_old
    daxie.Policy.Counter.all_released daxie.Policy.Counter.entry_all_released
    daxie.Policy.Counter.raise_to daxie.Policy.Counter.gas_of daxie.Policy.Counter.max_over
    daxie.Policy.Counter.max_value_wei daxie.Policy.Counter.max_gas_wei
    daxie.Policy.Counter.entry_wei daxie.Policy.Counter.sum_entries daxie.Policy.Counter.sum_window
    daxie.Policy.Counter.sum_others daxie.Policy.Counter.sum_window_excluding
    daxie.Policy.Counter.prune_counter daxie.Policy.Counter.find_entry_by_nonce
    daxie.Policy.Counter.same_nonce daxie.Policy.Counter.debit_entries
    daxie.Policy.Counter.update_first daxie.Policy.Counter.is_terminal_candidate
    daxie.Policy.Counter.all_terminal daxie.Policy.Counter.all_candidates_terminal
    daxie.Policy.Counter.insert_by_ts daxie.Policy.Counter.sort_from
    daxie.Policy.Counter.sort_entries_by_ts daxie.Policy.Counter.reserved_candidate
    daxie.Policy.Reservation.load_all daxie.Policy.Reservation.load_from
    daxie.Policy.Reservation.all_blank daxie.Policy.Reservation.put
    daxie.Policy.Reservation.compacted daxie.Policy.Reservation.append_and_compact
    daxie.Policy.Reservation.is_terminal daxie.Policy.Reservation.terminal_state
    daxie.Policy.Reservation.find_id
runs = (refl, refl, refl, refl, refl, refl, refl, refl, refl, refl)

gas_costs : (is_gasless (effective_kind send) ≡ false) × (is_gasless (effective_kind bump) ≡ false)
unfolding is_gasless effective_kind
gas_costs = (refl, refl)

ids_differ : codes "r1" ≢ codes "r2"
unfolding text_eq
ids_differ e = false≢true (sym (ap (text_eq (codes "r1")) e))

reserve-Within_example :
    (t : ℕ) × (aggregate_window net (network_accounts [] alice) noon none (outcome lone send).1
      ≡ (ok t, (outcome lone send).1))
    × Within (resolve_limits policy net).max_day t
unfolding read_counter
reserve-Within_example =
    reserve-Within calm lone policy send store (new_reservation lone send) (outcome lone send).1
      refl gas_costs.0 (λ e. cc) (tt, tt) runs.0

refused-reserve_example :
    reserve calm call (ok (some policy)) send store ≡ (err (denied_error refusal), store)
refused-reserve_example = refused-reserve calm call policy send store store refusal runs.2 runs.3

allowed-reserve_example :
    (st : Store) × (reserve calm lone (ok (some policy)) send store
      ≡ (ok (new_reservation lone send), st))
unfolding load_all put
allowed-reserve_example =
    allowed-reserve lone policy send store store grant (record_one ∷ []) gas_costs.0 refl runs.4
      runs.5

reserve-HasDistinctIds_example : HasDistinctIds (held (outcome lone send).1 net alice)
unfolding read_counter
reserve-HasDistinctIds_example =
    reserve-HasDistinctIds calm lone policy send store (new_reservation lone send)
      (outcome lone send).1 gas_costs.0 (ids_differ, tt) (tt, tt) runs.0

reserve-logged_example :
    (log : Log) × (load_all (outcome lone send).1.log ≡ some log)
    × (find_id log (codes "r2") ≡ some (new_reservation lone send))
    × (find_id (orphans log) (codes "r2") ≡ some (new_reservation lone send))
reserve-logged_example =
    reserve-logged calm lone policy send store (new_reservation lone send) (outcome lone send).1
      gas_costs.0 refl runs.0
