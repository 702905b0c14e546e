-- ===== src/Policy/Stages.antt =====
-- The stages of the evaluation pipeline (internal/policy/evaluate.go), each a function from the
-- policy and the request to a violation or none.
pub mod Destination
pub mod Messages
pub mod Amounts
pub use Destination.{
  match_pin, in_self, dest_role, is_token_or_approval, stage_denylist, stage_allowlist,
  stage_no_allowlist, stage_pin_drift,
}
pub use Messages.{
  typed_allow_match, stage_typed_data, contract_addr_allowlisted, contract_allow_match,
  stage_unknown_calldata,
}
pub use Amounts.{
  is_unlimited_amount, token_hard_deny, stage_per_tx, stage_unlimited, stage_daily, stage_gas_cap,
}
