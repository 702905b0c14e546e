-- ===== src/Policy/Stages/Amounts.antt =====
-- Stages 6 to 8: the limit for one transaction, unlimited approvals, the rolling daily limit and
-- the gas cap (internal/policy/evaluate.go; the sentinels are in recognizers.go).
pub mod Passing
use daxie.Prelude.{
  ℕ, ◌+◌, ◌-◌, ◌^◌, Bool, true, false, not, ◌&&◌, ◌||◌, ◌==◌, Option, none, some, List, [], ◌∷◌,
  if◌then◌else◌, get_or,
}
use daxie.Prelude.Int.{ℤ}
use daxie.Prelude.Text.{Text, is_empty, to_lower, equal_fold}
use daxie.Decimal.{format_int, format_nat}
use daxie.Policy.Types.{
  Policy, TokenRule, Check, Kind, Instant, day, rfc3339, lower_hex, effective_kind, spend_wei,
  max_gas_wei, max_fee_per_gas, Code, Reason, Detail, Violation,
}
use daxie.Policy.Limits.{ResolvedLimits, exceeds}

abbrev pub uint256_max : ℕ
uint256_max = 2 ^ 256 - 1

abbrev pub uint160_max : ℕ
uint160_max = 2 ^ 160 - 1

abbrev pub uint96_max : ℕ
uint96_max = 2 ^ 96 - 1

unfoldable pub is_unlimited_amount : Option ℕ → Bool
is_unlimited_amount none = false
is_unlimited_amount (some amount) =
    amount == uint256_max || amount == uint160_max || amount == uint96_max

tx_check : Option ℤ → ℕ → Text → Option Violation
tx_check none attempted network = none
tx_check (some l) attempted network =
    if exceeds attempted l
    then some (record {
      code = Code.tx_limit;
      detail = Detail.over_tx (format_int l) (format_nat attempted) network;
    })
    else none

unfoldable pub is_gasless : Kind → Bool
is_gasless Kind.permit = true
is_gasless Kind.unknown = false
is_gasless Kind.transfer = false
is_gasless Kind.approve = false

unfoldable pub stage_per_tx : ResolvedLimits → Check → Kind → Option Violation
unfolding tx_check is_gasless
stage_per_tx lim req kind =
    if is_gasless kind
    then none
    else tx_check lim.max_tx (spend_wei req + max_gas_wei req) req.network

-- The first rule for the token decides.
unfoldable pub token_hard_deny : List TokenRule → Text → Text → Bool
token_hard_deny [] network token = false
token_hard_deny (t ∷ ts) network token =
    if equal_fold t.network network && equal_fold t.address token
    then not (get_or t.allow_unlimited true)
    else token_hard_deny ts network token

unfoldable pub is_approval : Kind → Bool
is_approval Kind.approve = true
is_approval Kind.permit = true
is_approval Kind.unknown = false
is_approval Kind.transfer = false

unfoldable pub token_of : Check → Text
token_of req =
    let token = to_lower req.token in if is_empty token then to_lower req.asset else token

unlimited_violation : Check → Reason → Violation
unlimited_violation req reason = record {
  code = Code.unlimited_unacked;
  detail = Detail.token_spender reason (token_of req) (lower_hex req.dest);
}

unfoldable pub stage_unlimited : Policy → Check → Kind → Option Violation
unfolding is_approval unlimited_violation
stage_unlimited p req kind =
    if not (is_approval kind)
    then none
    else if not req.unlimited && not (is_unlimited_amount req.token_amt)
    then none
    else if token_hard_deny p.tokens req.network (token_of req)
    then some (unlimited_violation req Reason.hard_denied)
    else if not req.acked
    then some (unlimited_violation req Reason.not_acked)
    else none

day_check : Option ℤ → ℕ → ℕ → Instant → Option Violation
day_check none used debit now = none
day_check (some l) used debit now =
    if exceeds (used + debit) l
    then some (record {
      code = Code.day_limit;
      detail =
          Detail.over_day (format_int l) (format_nat used) (format_nat debit) (rfc3339 (now + day));
    })
    else none

unfoldable pub stage_daily : ResolvedLimits → Check → ℕ → Instant → Option Violation
unfolding day_check is_gasless
stage_daily lim req spent_window now =
    if is_gasless (effective_kind req)
    then none
    else day_check lim.max_day spent_window (spend_wei req + max_gas_wei req) now

gas_check : Option ℤ → ℕ → Option Violation
gas_check none attempted = none
gas_check (some cap) attempted =
    if attempted == 0
    then none
    else if exceeds attempted cap
    then some (record {
      code = Code.gas_cap;
      detail = Detail.over_gas (format_int cap) (format_nat attempted);
    })
    else none

unfoldable pub stage_gas_cap : ResolvedLimits → Check → Option Violation
unfolding gas_check
stage_gas_cap lim req = gas_check lim.max_gas_price (max_fee_per_gas req)
