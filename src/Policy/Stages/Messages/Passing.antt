-- ===== src/Policy/Stages/Messages/Passing.antt =====
-- What it means that the gates for unrecognised messages pass (internal/policy/evaluate.go, stages
-- 5 and 5b).
use daxie.Prelude.{
  ◌≡◌, refl, ◌⊎◌, inl, inr, true, false, ◌&&◌, none, List, arith, Exists, any-true, Exists-map,
  Bool-cases,
}
use daxie.Prelude.Text.{to_lower, equal_fold, equal_fold_sound, text_eq_sound, trim_space}
use daxie.Policy.Types.{
  Policy, PinEntry, TypedAllow, ContractAllow, Check, Kind, effective_kind, lower_hex,
}
use daxie.Policy.Limits.{ResolvedLimits}
use daxie.Policy.Stages.Destination.{in_self}
use daxie.Policy.Stages.Destination.Passing.{Own, in_self-Own, fold_lower}
use daxie.Policy.Stages.Messages.{
  is_permit, typed_allow_match, has_chain_mismatch, says_allow, stage_typed_data,
  contract_addr_allowlisted, contract_allow_match, stage_unknown_calldata,
}

-- An entry that pins the message's triple.
abbrev pub AdmitsTyped : Check → TypedAllow → Type 0
AdmitsTyped req a =
    (a.chain_id ≡ req.typed_chain_id)
    × (to_lower a.verifying_contract ≡ to_lower req.typed_verifying)
    × (a.primary_type ≡ req.typed_primary)

typed_allow_match-Exists :
    (allowed : List TypedAllow) (req : Check)
    → typed_allow_match allowed req ≡ true
    → Exists (AdmitsTyped req) allowed
unfolding typed_allow_match
typed_allow_match-Exists allowed req h =
    Exists-map allowed
      (λ a hit. (
        ground arith,
        equal_fold_sound a.verifying_contract req.typed_verifying (ground arith),
        text_eq_sound a.primary_type req.typed_primary (ground arith),
      ))
      (any-true _ allowed h)

-- Unrecognised typed data passes only on the right chain, and by an entry or by the disposition.
pub stage_typed_data-none :
    (p : Policy) (lim : ResolvedLimits) (req : Check)
    → req.typed_unknown ≡ true
    → stage_typed_data p lim req ≡ none
    → (has_chain_mismatch req ≡ false)
      × (Exists (AdmitsTyped req) p.typed_data.allowed ⊎ (says_allow lim.typed_unknown ≡ true))
unfolding stage_typed_data
stage_typed_data-none p lim req u h =
    elim (Bool-cases (typed_allow_match p.typed_data.allowed req)) [
      | inl hit ↦ (ground arith, inl (typed_allow_match-Exists p.typed_data.allowed req hit))
      | inr miss ↦ (ground arith, inr (ground arith))
    ]

-- A permit that passes is not marked with another chain.
pub stage_typed_data-permit :
    (p : Policy) (lim : ResolvedLimits) (req : Check)
    → req.kind_enum ≡ Kind.permit
    → stage_typed_data p lim req ≡ none
    → has_chain_mismatch req ≡ false
unfolding stage_typed_data is_permit effective_kind
stage_typed_data-permit p lim req k h = ground (arith, permit_kind req k)
  where
    permit_kind :
        (req : Check) → req.kind_enum ≡ Kind.permit → is_permit (effective_kind req) ≡ true
    permit_kind req k = rw k refl

-- An entry that pins the call's triple; the selectors are compared trimmed and in lower case.
abbrev pub AdmitsCall : Check → ContractAllow → Type 0
AdmitsCall req a =
    (to_lower a.network ≡ to_lower req.network)
    × (to_lower a.contract ≡ lower_hex req.contract_addr)
    × (to_lower (trim_space a.selector) ≡ to_lower (trim_space req.selector))

contract_allow_match-Exists :
    (list : List ContractAllow) (req : Check)
    → contract_allow_match list req.network req.contract_addr req.selector ≡ true
    → Exists (AdmitsCall req) list
unfolding contract_allow_match
contract_allow_match-Exists list req h =
    Exists-map list
      (λ a hit. (
        equal_fold_sound a.network req.network (ground arith),
        fold_lower req.contract_addr a.contract (ground arith),
        text_eq_sound (to_lower (trim_space a.selector)) (to_lower (trim_space req.selector))
            (ground arith),
      ))
      (any-true _ list h)

-- The contract of the call is pinned, or is an own account that the policy includes.
abbrev pub TrustsContract : Policy → ResolvedLimits → Check → Type 0
TrustsContract p lim req =
    Exists (λ (a : PinEntry). to_lower a.address ≡ lower_hex req.contract_addr) p.allowlist
    ⊎ ((lim.include_self ≡ true) × Own p req.contract_addr)

contract_addr_allowlisted-Trusts :
    (p : Policy) (lim : ResolvedLimits) (req : Check)
    → contract_addr_allowlisted p lim req ≡ true
    → TrustsContract p lim req
unfolding contract_addr_allowlisted
contract_addr_allowlisted-Trusts p lim req h =
    elim (Bool-cases (lim.include_self && in_self p (lower_hex req.contract_addr))) [
      | inl own ↦ inr (ground arith, in_self-Own p req.contract_addr (ground arith))
      | inr other ↦ inl (
          Exists-map p.allowlist (λ a hit. fold_lower req.contract_addr a.address hit)
            (any-true (λ a. equal_fold a.address (lower_hex req.contract_addr)) p.allowlist
              (ground arith)))
    ]

-- Unrecognised calldata passes only to a trusted contract or by an entry for the very selector.
pub stage_unknown_calldata-none :
    (p : Policy) (lim : ResolvedLimits) (req : Check)
    → req.unknown_calldata ≡ true
    → stage_unknown_calldata p lim req ≡ none
    → TrustsContract p lim req ⊎ Exists (AdmitsCall req) p.contracts_allowed
unfolding stage_unknown_calldata
stage_unknown_calldata-none p lim req u h =
    elim (Bool-cases (contract_addr_allowlisted p lim req)) [
      | inl trusted ↦ inl (contract_addr_allowlisted-Trusts p lim req trusted)
      | inr not_trusted ↦ inr (contract_allow_match-Exists p.contracts_allowed req (ground arith))
    ]
