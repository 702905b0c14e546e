-- ===== src/Policy/Evaluate.antt =====
-- The pure pipeline `Evaluate` and the choice of the verdict's code (internal/policy/evaluate.go).
pub mod Passing
pub mod Safety
pub mod Precedence
use daxie.Prelude.{
  ℕ, Bool, true, false, Option, none, some, List, [], ◌∷◌, ◌++◌, if◌then◌else◌, ltb, is_some,
}
use daxie.Prelude.Text.{Text}
use daxie.Policy.Types
use daxie.Policy.Types.{
  Policy, Check, Kind, Instant, effective_kind, Code, Detail, Violation, Decision,
}
use daxie.Policy.Limits.{ResolvedLimits, resolve_limits}
use daxie.Policy.Stages.{
  stage_denylist, stage_allowlist, stage_no_allowlist, stage_pin_drift, stage_typed_data,
  stage_unknown_calldata, stage_per_tx, stage_unlimited, stage_daily, stage_gas_cap,
}

-- The precedence table; a code that is not in it sorts last.
unfoldable pub rank : Code → ℕ
rank Code.allowlist = 1
rank Code.no_allowlist = 1
rank Code.pin_drift = 2
rank Code.typed_data = 3
rank Code.contract_call = 3
rank Code.unlimited_unacked = 4
rank Code.tx_limit = 5
rank Code.day_limit = 6
rank Code.gas_cap = 7
rank Code.denied = 1073741824

-- The loop over the rest of the violations: a strictly smaller rank takes over.
unfoldable pub pick_winner : Violation → List Violation → Violation
pick_winner winner [] = winner
pick_winner winner (v ∷ vs) =
    pick_winner (if ltb (rank v.code) (rank winner.code) then v else winner) vs

-- The payload's `retry_after` key.
unfoldable pub retry_of : Detail → Option ℕ
retry_of (Detail.over_day limit used attempted retry) = some retry
retry_of (Detail.destination _ _ _) = none
retry_of (Detail.on_network _) = none
retry_of (Detail.drift _ _ _ _) = none
retry_of (Detail.permit_chain _) = none
retry_of (Detail.typed_message _ _ _ _) = none
retry_of (Detail.call _ _ _ _) = none
retry_of (Detail.over_tx _ _ _) = none
retry_of (Detail.token_spender _ _ _) = none
retry_of (Detail.over_gas _ _) = none

unfoldable pub compose_denial : Violation → List Violation → Decision
compose_denial v vs =
    let winner = pick_winner v vs in
    record {
      allowed = false;
      code = some winner.code;
      violations = v ∷ vs;
      retry_after = retry_of winner.detail;
      detail = some winner.detail;
    }

abbrev pub allow : Decision
allow = record { allowed = true; code = none; violations = []; retry_after = none; detail = none }

-- `if v, ok := stage(...); ok { vs = append(vs, v) }`
unfoldable pub collect : List (Option Violation) → List Violation
collect [] = []
collect (none ∷ rest) = collect rest
collect (some v ∷ rest) = v ∷ collect rest

-- The denylist decides alone; otherwise both allowlist gates run.
unfoldable pub stage_destination : Policy → ResolvedLimits → Check → List (Option Violation)
stage_destination p lim req = elim (stage_denylist p req) [
  | some v ↦ some v ∷ []
  | none ↦ stage_allowlist p lim req ∷ stage_no_allowlist p lim req (effective_kind req) ∷ []
]

unfoldable pub all_stages : Policy → ResolvedLimits → Check → ℕ → Instant → List (Option Violation)
all_stages p lim req spent_window now =
    stage_destination p lim req
    ++ (stage_pin_drift req
        ∷ stage_typed_data p lim req
        ∷ stage_unknown_calldata p lim req
        ∷ stage_per_tx lim req (effective_kind req)
        ∷ stage_unlimited p req (effective_kind req)
        ∷ stage_daily lim req spent_window now
        ∷ stage_gas_cap lim req
        ∷ [])

unfoldable pub verdict : List Violation → Decision
unfolding compose_denial
verdict [] = allow
verdict (v ∷ vs) = compose_denial v vs

unfoldable pub evaluate : Policy → Check → ℕ → Instant → Decision
unfolding verdict collect
evaluate p req spent_window now =
    let lim = resolve_limits p req.network in
    if req.typed_unknown
    then verdict (collect (stage_typed_data p lim req ∷ []))
    else verdict (collect (all_stages p lim req spent_window now))
