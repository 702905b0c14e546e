-- ===== src/Policy/Stages/Destination.antt =====
-- Stages 3 and 4: denylist, allowlist, the fail-closed token rule, and pin drift
-- (internal/policy/evaluate.go).
pub mod Passing
use daxie.Prelude.{
  Bool, true, false, not, ◌&&◌, ◌||◌, Option, none, some, List, [], if◌then◌else◌, any,
}
use daxie.Prelude.Text.{Text, codes, text_eq, is_empty, to_lower, equal_fold}
use daxie.Policy.Types.{
  Policy, PinEntry, Check, Kind, ToSource, lower_hex, effective_kind, Code, Role, Reason, Detail,
  Violation, zero_address,
}
use daxie.Policy.Limits.{ResolvedLimits}

-- Whether a pin matches the resolved address or, for a contact or ENS pin, the typed name.
unfoldable pub match_pin : PinEntry → Text → Text → Bool
match_pin p dest to_input =
    if equal_fold p.address dest && not (is_empty dest)
    then true
    else if (text_eq p.source (codes "contact") || text_eq p.source (codes "ens"))
        && not (is_empty p.name)
        && not (is_empty to_input)
    then equal_fold p.name to_input
    else false

unfoldable pub in_self : Policy → Text → Bool
in_self p dest = any (λ s. equal_fold s dest) p.self_addresses

role_of : Kind → Role
role_of Kind.approve = Role.spender
role_of Kind.permit = Role.spender
role_of Kind.transfer = Role.recipient
role_of Kind.unknown = Role.recipient

unfoldable pub dest_role : Check → Role
unfolding role_of
dest_role req = role_of (effective_kind req)

unfoldable pub stage_denylist : Policy → Check → Option Violation
unfolding dest_role
stage_denylist p req =
    let dest = lower_hex req.dest in
    if any (λ d. match_pin d dest req.to_input) p.denylist
    then some (record {
      code = Code.allowlist;
      detail = Detail.destination dest (dest_role req) Reason.denylisted;
    })
    else none

-- The loop over the allowlist.
unfoldable pub on_allowlist : List PinEntry → Text → Bool
on_allowlist entries dest = any (λ a. equal_fold a.address dest && not (is_empty dest)) entries

unfoldable pub stage_allowlist : Policy → ResolvedLimits → Check → Option Violation
unfolding dest_role
stage_allowlist p lim req =
    let dest = lower_hex req.dest in
    if not lim.allowlist_enabled
    then none
    else if req.unknown_calldata
    then none
    else if lim.include_self && in_self p dest
    then none
    else if on_allowlist p.allowlist dest
    then none
    else some (record {
      code = Code.allowlist;
      detail = Detail.destination dest (dest_role req) Reason.not_allowlisted;
    })

-- A transfer is one of a token if its token or asset is set to something other than "eth".
moves_token : Check → Bool
moves_token req =
    (not (is_empty req.token) && not (text_eq (to_lower req.token) (codes "eth")))
    || (not (is_empty (to_lower req.asset)) && not (text_eq (to_lower req.asset) (codes "eth")))

token_or_approval : Kind → Bool → Bool
token_or_approval Kind.approve moves = true
token_or_approval Kind.permit moves = true
token_or_approval Kind.transfer moves = moves
token_or_approval Kind.unknown moves = false

unfoldable pub is_token_or_approval : Check → Kind → Bool
unfolding moves_token token_or_approval
is_token_or_approval req kind = token_or_approval kind (moves_token req)

unfoldable pub stage_no_allowlist : Policy → ResolvedLimits → Check → Kind → Option Violation
stage_no_allowlist p lim req kind =
    if lim.allowlist_enabled
    then none
    else if not (is_token_or_approval req kind)
    then none
    else if not lim.any_set
    then none
    else if p.tokens_no_allowlist_ok
    then none
    else some (record { code = Code.no_allowlist; detail = Detail.on_network req.network })

drift_by : ToSource → Check → Text → Text → Option Violation
drift_by ToSource.ens req dest fresh =
    if is_empty fresh || text_eq req.ens_resolved zero_address
    then some (record {
      code = Code.pin_drift;
      detail = Detail.drift Reason.ens_unresolved req.ens_name dest [];
    })
    else if not (text_eq fresh dest)
    then some (record {
      code = Code.pin_drift;
      detail = Detail.drift Reason.ens_drift req.ens_name dest fresh;
    })
    else none
drift_by ToSource.contact req dest fresh =
    if not (is_empty fresh) && not (text_eq fresh dest)
    then some (record {
      code = Code.pin_drift;
      detail = Detail.drift Reason.contact_drift req.to_input dest fresh;
    })
    else none
drift_by ToSource.raw_address req dest fresh = none
drift_by ToSource.self req dest fresh = none

unfoldable pub stage_pin_drift : Check → Option Violation
unfolding drift_by
stage_pin_drift req = drift_by req.to_src req (lower_hex req.dest) (lower_hex req.ens_resolved)
