-- ===== src/Policy/Admin/Operations.antt =====
-- The commands of the administrator (internal/policy/admin.go, typed_admin.go and contract_admin.go).
use daxie.Prelude.{Bool, not, ◌&&◌, ◌==◌, Option, none, some, List, [], find, if◌then◌else◌}
use daxie.Prelude.Results.{Result, ok, err}
use daxie.Prelude.Text.{Text, text_eq, is_empty, to_lower, trim_space, equal_fold}
use daxie.Policy.Types.{Address, Policy, PinEntry, TypedAllow, ContractAllow}
use daxie.Policy.Store.{Error, bad_typed_allow, bad_contract_allow}
use daxie.Policy.Body.{
  upsert_pin, remove_pin, upsert_typed_allow, remove_typed_allow, upsert_contract_allow,
  remove_contract_allow, normalize_selector, is_selector_hex,
}
use daxie.Policy.Seal.{ScryptParams}
use daxie.Policy.Keys.{Crypto}
use daxie.Policy.Admin.{Vault, Outcome, AdminEnv, mutate}

-- The change of one list of pins by `policy allow` and `policy deny`.
abbrev pub edit_pins : Bool → PinEntry → List PinEntry → List PinEntry
edit_pins remove e ps = if remove then remove_pin ps e else upsert_pin ps e

abbrev pub default_params : ScryptParams
default_params = record { n = 131072; r = 8; p = 1 }

-- `is_hex_address` stands for IsHexAddress of go-ethereum.
module _ (is_hex_address : Text → Bool) where
  -- A chain id below 0 is refused like 0.
  unfoldable pub validate_typed_allow : TypedAllow → Option Error
  validate_typed_allow t =
      if t.chain_id == 0
      then some bad_typed_allow
      else if not (is_hex_address (trim_space t.verifying_contract))
      then some bad_typed_allow
      else if is_empty (trim_space t.primary_type)
      then some bad_typed_allow
      else none

  unfoldable pub validate_contract_allow : ContractAllow → Option Error
  unfolding is_selector_hex
  validate_contract_allow c =
      if is_empty (trim_space c.network)
      then some bad_contract_allow
      else if not (is_hex_address (trim_space c.contract))
      then some bad_contract_allow
      else if not (is_selector_hex c.selector)
      then some bad_contract_allow
      else none

-- The entries as they are stored.
unfoldable pub stored_typed : TypedAllow → TypedAllow
stored_typed t = record t {
  verifying_contract = to_lower (trim_space t.verifying_contract);
  primary_type = trim_space t.primary_type;
}

unfoldable pub stored_contract : ContractAllow → Text → ContractAllow
unfolding normalize_selector
stored_contract c added_at = record c {
  network = trim_space c.network;
  contract = to_lower (trim_space c.contract);
  selector = normalize_selector c.selector;
  added_at = added_at;
}

abbrev pub on_typed : (List TypedAllow → List TypedAllow) → Policy → Policy
on_typed f p = record p { typed_data = record p.typed_data { allowed = f p.typed_data.allowed } }

abbrev pub on_contracts : (List ContractAllow → List ContractAllow) → Policy → Policy
on_contracts f p = record p { contracts_allowed = f p.contracts_allowed }

-- Nothing is done after a refusal.
abbrev pub unless_refused : Option Error → Vault → Outcome → Outcome
unless_refused none v out = out
unless_refused (some e) v out = (err e, v)

module _ (crypto : Crypto) (env : AdminEnv) (pass written_by : Text)
    (accounts : Option (List Address)) where
  unfoldable pub allow : Bool → PinEntry → Vault → Outcome
  unfolding mutate
  allow remove e =
      mutate crypto env pass written_by accounts
        (λ (p : Policy). record p { allowlist = edit_pins remove e p.allowlist })

  unfoldable pub deny : Bool → PinEntry → Vault → Outcome
  unfolding mutate
  deny remove e =
      mutate crypto env pass written_by accounts
        (λ (p : Policy). record p { denylist = edit_pins remove e p.denylist })

  -- `TypedAllow`, whose entry is checked only when it is added.
  unfoldable pub typed_allow : (Text → Bool) → Bool → TypedAllow → Vault → Outcome
  unfolding mutate validate_typed_allow stored_typed
  typed_allow is_hex_address remove t v =
      unless_refused (if remove then none else validate_typed_allow is_hex_address t) v (
        mutate crypto env pass written_by accounts
          (on_typed (λ l.
            if remove
            then remove_typed_allow l (stored_typed t)
            else upsert_typed_allow l (stored_typed t)))
          v)

  unfoldable pub contract_allow : (Text → Bool) → Bool → ContractAllow → Vault → Outcome
  unfolding mutate validate_contract_allow stored_contract
  contract_allow is_hex_address remove c v =
      unless_refused (if remove then none else validate_contract_allow is_hex_address c) v (
        mutate crypto env pass written_by accounts
          (on_contracts (λ l.
            if remove
            then remove_contract_allow l (stored_contract c [])
            else upsert_contract_allow l (stored_contract c env.now)))
          v)

-- ── the pin of a name ──

found_pin : Option PinEntry → Option Text
found_pin none = none
found_pin (some a) = some a.address

pin_in : Text → Text → Result Error (Option Policy) → Result Error (Option Text)
unfolding found_pin
pin_in source name (err e) = err e
pin_in source name (ok none) = ok none
pin_in source name (ok (some p)) = ok (
    found_pin (
      find
        (λ (a : PinEntry).
          text_eq a.source source
          && not (is_empty a.name)
          && equal_fold a.name name
          && not (is_empty a.address))
        p.allowlist))

-- `AllowlistPin` on the policy in force: the address of the first entry of the name.
unfoldable pub allowlist_pin :
    Text → Text → Result Error (Option Policy) → Result Error (Option Text)
unfolding pin_in
allowlist_pin source name loaded = if is_empty name then ok none else pin_in source name loaded
