-- ===== src/Policy/Body/Verdicts.antt =====
-- What a change of the pins does to the verdict (`policy deny` and `policy allow --remove` of
-- internal/policy/admin.go against Evaluate of evaluate.go).
use daxie.Policy.Types.{Policy, PinEntry}
use daxie.Policy.Body.{upsert_pin, remove_pin}

abbrev pub with_denial : Policy → PinEntry → Policy
with_denial p e = record p { denylist = upsert_pin p.denylist e }

abbrev pub with_removal : Policy → PinEntry → Policy
with_removal p e = record p { allowlist = remove_pin p.allowlist e }
