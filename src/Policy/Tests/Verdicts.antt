-- ===== src/Policy/Tests/Verdicts.antt =====
-- Verdicts of the pipeline on concrete requests (internal/policy/evaluate.go).
use daxie.Prelude.{
  ◌≡◌, ◌≢◌, ◌⊎◌, ◌+◌, refl, Bool, true, false, Option, some, none, Exists, arith, [], ◌∷◌,
}
use daxie.Prelude.Text.{codes, text_eq, to_lower, equal_fold}
use daxie.Decimal.{set_string}
use daxie.Policy.Types
use daxie.Policy.Types.{effective_kind, lower_hex, Violation, Policy, spend_wei, max_fee_per_gas}
use daxie.Policy.Limits.{resolve_limits, parse_limit}
use daxie.Policy.Stages.{is_unlimited_amount, token_hard_deny}
use daxie.Policy.Stages.Destination.{is_token_or_approval}
use daxie.Policy.Stages.Destination.Passing.{Pins, Own}
use daxie.Policy.Stages.Messages.Passing.{AdmitsCall, TrustsContract}
use daxie.Policy.Stages.Amounts.Passing.{Within}
use daxie.Policy.Stages.Messages.{says_allow, has_chain_mismatch}
use daxie.Policy.Stages.Amounts.{token_of, is_gasless, is_approval}
use daxie.Policy.Evaluate.{evaluate}
use daxie.Policy.Evaluate.Safety.{allowed-Within, allowed-on_allowlist, allowed-call_admitted}
use daxie.Policy.Evaluate.Precedence.{IsTop, refusal_precedence}
use daxie.Policy.Tests.Data.{policy, send, ens_send, approval, call_bob, mail, noon}

-- The requests that the policy allows, with 65 spent, and one that it refuses with 66 spent.
verdicts :
    ((evaluate policy send 65 noon).allowed ≡ true)
    × ((evaluate policy ens_send 65 noon).allowed ≡ true)
    × ((evaluate policy approval 65 noon).allowed ≡ true)
    × ((evaluate policy call_bob 65 noon).allowed ≡ true)
    × ((evaluate policy mail 65 noon).allowed ≡ true)
    × ((evaluate policy send 66 noon).allowed ≡ false)
    × ((evaluate policy send 66 noon).code ≡ some Types.day_limit)
unfolding evaluate daxie.Policy.Evaluate.all_stages daxie.Policy.Evaluate.stage_destination
    daxie.Policy.Evaluate.collect daxie.Policy.Evaluate.compose_denial
    daxie.Policy.Evaluate.pick_winner daxie.Policy.Evaluate.rank daxie.Policy.Evaluate.retry_of
    daxie.Policy.Evaluate.verdict daxie.Policy.Stages.Destination.stage_denylist
    daxie.Policy.Stages.Destination.match_pin daxie.Policy.Stages.Destination.stage_allowlist
    daxie.Policy.Stages.Destination.on_allowlist daxie.Policy.Stages.Destination.stage_no_allowlist
    daxie.Policy.Stages.Destination.stage_pin_drift daxie.Policy.Stages.Destination.dest_role
    daxie.Policy.Stages.Destination.in_self daxie.Policy.Stages.Destination.is_token_or_approval
    daxie.Policy.Stages.Messages.stage_typed_data
    daxie.Policy.Stages.Messages.stage_unknown_calldata
    daxie.Policy.Stages.Messages.contract_addr_allowlisted
    daxie.Policy.Stages.Messages.contract_allow_match
    daxie.Policy.Stages.Messages.has_chain_mismatch daxie.Policy.Stages.Messages.says_allow
    daxie.Policy.Stages.Messages.typed_allow_match daxie.Policy.Stages.Amounts.stage_per_tx
    daxie.Policy.Stages.Amounts.stage_daily daxie.Policy.Stages.Amounts.stage_gas_cap
    daxie.Policy.Stages.Amounts.stage_unlimited daxie.Policy.Stages.Amounts.token_hard_deny
    daxie.Policy.Stages.Amounts.token_of daxie.Policy.Stages.Amounts.is_gasless
    daxie.Policy.Stages.Amounts.is_approval daxie.Policy.Stages.Amounts.is_unlimited_amount
    Types.effective_kind lower_hex resolve_limits daxie.Policy.Limits.exceeds
    daxie.Policy.Limits.is_null daxie.Policy.Limits.override_limit daxie.Policy.Limits.parse_limit
    daxie.Decimal.digits_from daxie.Decimal.format_int daxie.Decimal.format_nat
    daxie.Decimal.is_digit daxie.Decimal.parse_nat daxie.Decimal.scan daxie.Decimal.set_string
    daxie.Prelude.Text.equal_fold text_eq daxie.Prelude.Text.to_lower daxie.Prelude.Text.has_prefix
    daxie.Prelude.Text.is_space daxie.Prelude.Text.lower_byte daxie.Prelude.Text.trim_left
    daxie.Prelude.Text.trim_space
verdicts = (refl, refl, refl, refl, refl, refl, refl)

allowed-Within_example :
    Within (resolve_limits policy send.network).max_tx (spend_wei send + Types.max_gas_wei send)
    × Within
        (resolve_limits policy send.network).max_day
        (65 + (spend_wei send + Types.max_gas_wei send))
    × ((max_fee_per_gas send ≡ 0)
        ⊎ Within (resolve_limits policy send.network).max_gas_price (max_fee_per_gas send))
unfolding is_gasless effective_kind
allowed-Within_example = allowed-Within policy send 65 noon refl refl verdicts.0

allowed-on_allowlist_example :
    Exists (Pins send.dest) policy.allowlist
    ⊎ (((resolve_limits policy send.network).include_self ≡ true) × Own policy send.dest)
unfolding resolve_limits equal_fold to_lower
allowed-on_allowlist_example = allowed-on_allowlist policy send 65 noon refl refl refl verdicts.0

allowed-call_admitted_example :
    TrustsContract policy (resolve_limits policy call_bob.network) call_bob
    ⊎ Exists (AdmitsCall call_bob) policy.contracts_allowed
allowed-call_admitted_example = allowed-call_admitted policy call_bob 65 noon refl refl verdicts.3

refusal_precedence_example :
    (top : Violation) × ((evaluate policy send 66 noon).code ≡ some top.code)
    × ((evaluate policy send 66 noon).detail ≡ some top.detail)
    × IsTop top (evaluate policy send 66 noon).violations
refusal_precedence_example = refusal_precedence policy send 66 noon verdicts.5
