-- ===== src/Policy/Tests/Edits.antt =====
-- Edits of the pins and registries of a small policy (internal/policy/admin.go, typed_admin.go).
use daxie.Prelude.{◌≡◌, not, ◌&&◌, ◌||◌, [], ◌∷◌}
use daxie.Prelude.Text.{codes}
use daxie.Policy.Types.{PinEntry, TypedAllow}
use daxie.Policy.Stages.Messages.{typed_allow_match}
use daxie.Policy.Body.{upsert_typed_allow, remove_typed_allow}
use daxie.Policy.Body.Lookup.{typed_allow_match_laws}
use daxie.Policy.Tests.Data.{policy, mail, pin}

abbrev pin_bob : PinEntry
pin_bob = pin (codes "0xb2")

abbrev other : TypedAllow
other = record {
  chain_id = 5;
  verifying_contract = codes "0xd1";
  primary_type = codes "Mail";
  label = [];
}

typed_allow_match_laws_example :
    (typed_allow_match (upsert_typed_allow policy.typed_data.allowed other) mail
      ≡ (typed_allow_match (other ∷ []) mail || typed_allow_match policy.typed_data.allowed mail))
    × (typed_allow_match (remove_typed_allow policy.typed_data.allowed other) mail ≡ (
        not (typed_allow_match (other ∷ []) mail)
        && typed_allow_match policy.typed_data.allowed mail))
typed_allow_match_laws_example = typed_allow_match_laws mail other policy.typed_data.allowed
