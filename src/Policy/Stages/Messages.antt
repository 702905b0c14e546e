-- ===== src/Policy/Stages/Messages.antt =====
-- Stages 5 and 5b: typed data and calldata that no recogniser knows
-- (internal/policy/evaluate.go).
pub mod Passing
use daxie.Prelude.{
  Bool, true, false, not, ◌&&◌, ◌||◌, ◌==◌, Option, none, some, List, if◌then◌else◌, any,
}
use daxie.Prelude.Text.{
  Text, codes, text_eq, is_empty, to_lower, equal_fold, trim_space, has_prefix,
}
use daxie.Policy.Types.{
  Policy, Check, Kind, TypedAllow, ContractAllow, Address, lower_hex, effective_kind, Code, Reason,
  Detail, Violation,
}
use daxie.Policy.Limits.{ResolvedLimits}
use daxie.Policy.Stages.Destination.{in_self}

-- The exact triple of chain, contract and primary type.
unfoldable pub typed_allow_match : List TypedAllow → Check → Bool
typed_allow_match allowed req =
    any
      (λ a.
        a.chain_id == req.typed_chain_id
        && equal_fold a.verifying_contract req.typed_verifying
        && text_eq a.primary_type req.typed_primary)
      allowed

unfoldable pub has_chain_mismatch : Check → Bool
has_chain_mismatch req = has_prefix req.asset (codes "chain_mismatch")

unfoldable pub is_permit : Kind → Bool
is_permit Kind.permit = true
is_permit Kind.unknown = false
is_permit Kind.transfer = false
is_permit Kind.approve = false

-- The policy's disposition lets unrecognised typed data through.
unfoldable pub says_allow : Text → Bool
says_allow disposition = equal_fold (trim_space disposition) (codes "allow")

typed_violation : Check → Reason → Violation
typed_violation req reason = record {
  code = Code.typed_data;
  detail = Detail.typed_message reason req.typed_primary req.typed_verifying req.typed_chain_id;
}

unfoldable pub stage_typed_data : Policy → ResolvedLimits → Check → Option Violation
unfolding is_permit typed_violation
stage_typed_data p lim req =
    if is_permit (effective_kind req) && has_chain_mismatch req
    then some
        (record { code = Code.typed_data; detail = Detail.permit_chain Reason.chain_mismatch })
    else if not req.typed_unknown
    then none
    else if has_chain_mismatch req
    then some (typed_violation req Reason.chain_mismatch)
    else if typed_allow_match p.typed_data.allowed req
    then none
    else if says_allow lim.typed_unknown
    then none
    else some (typed_violation req Reason.unknown_typed)

unfoldable pub contract_addr_allowlisted : Policy → ResolvedLimits → Check → Bool
contract_addr_allowlisted p lim req =
    let contract = lower_hex req.contract_addr in
    if is_empty contract
    then false
    else if lim.include_self && in_self p contract
    then true
    else any (λ a. equal_fold a.address contract) p.allowlist

-- The exact triple of network, contract and selector.
unfoldable pub contract_allow_match : List ContractAllow → Text → Address → Text → Bool
contract_allow_match list network contract selector =
    let c = lower_hex contract in
    let sel = to_lower (trim_space selector) in
    any
      (λ a.
        equal_fold a.network network
        && equal_fold a.contract c
        && text_eq (to_lower (trim_space a.selector)) sel)
      list

call_reason : Text → Reason
call_reason selector =
    if is_empty selector || text_eq selector (codes "0x")
    then Reason.unknown_selector
    else Reason.not_allowed

unfoldable pub stage_unknown_calldata : Policy → ResolvedLimits → Check → Option Violation
unfolding call_reason
stage_unknown_calldata p lim req =
    if not req.unknown_calldata
    then none
    else if contract_addr_allowlisted p lim req
    then none
    else if contract_allow_match p.contracts_allowed req.network req.contract_addr req.selector
    then none
    else some (record {
      code = Code.contract_call;
      detail =
          Detail.call (call_reason req.selector) req.network (lower_hex req.contract_addr)
            req.selector;
    })
