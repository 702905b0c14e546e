-- ===== src/Policy/Body.antt =====
-- Changes of the policy body by the administrator (the helpers of internal/policy/admin.go,
-- typed_admin.go and contract_admin.go).
pub mod Lookup
pub mod Verdicts
use daxie.Prelude.{
  ℕ, ◌+◌, Bool, true, false, not, ◌&&◌, ◌||◌, ◌==◌, Option, none, some, List, [], ◌∷◌, map, reject,
  leb, if◌then◌else◌, length,
}
use daxie.Prelude.Text.{
  Text, codes, text_eq, is_empty, lower_byte, to_lower, equal_fold, trim_space,
}
use daxie.Policy.Types.{
  Address, lower_hex, Limits, NetworkRule, TokenRule, PinEntry, TypedAllow, ContractAllow, Policy,
}

-- ── comparison ──

-- The byte loop of `equalFoldStr`.
unfoldable pub equal_fold_str : Text → Text → Bool
unfolding lower_byte
equal_fold_str [] [] = true
equal_fold_str [] (d ∷ t) = false
equal_fold_str (c ∷ s) [] = false
equal_fold_str (c ∷ s) (d ∷ t) = lower_byte c == lower_byte d && equal_fold_str s t

-- ── pins ──

unfoldable pub same_pin : PinEntry → PinEntry → Bool
unfolding equal_fold_str
same_pin a b =
    if not (equal_fold_str a.source b.source)
    then false
    else if not (is_empty a.address) && equal_fold_str a.address b.address
    then true
    else not (is_empty a.name) && equal_fold_str a.name b.name

-- The first pin of the same entry is replaced.
unfoldable pub upsert_pin : List PinEntry → PinEntry → List PinEntry
unfolding same_pin
upsert_pin [] e = e ∷ []
upsert_pin (p ∷ ps) e = if same_pin p e then e ∷ ps else p ∷ upsert_pin ps e

unfoldable pub removes : PinEntry → PinEntry → Bool
unfolding same_pin
removes e p =
    same_pin p e
    || (not (is_empty e.name) && equal_fold_str p.name e.name && equal_fold_str p.source e.source)

unfoldable pub remove_pin : List PinEntry → PinEntry → List PinEntry
unfolding removes
remove_pin ps e = reject (removes e) ps

-- ── limits, networks and tokens ──

-- A field that is set replaces the field.
abbrev pub or_old {ℓ} : {A : Type ℓ} → Option A → Option A → Option A
or_old none old = old
or_old (some x) old = some x

unfoldable pub merge_limits : Limits → Limits → Limits
merge_limits dst src = record {
  max_tx_wei = or_old src.max_tx_wei dst.max_tx_wei;
  max_day_wei = or_old src.max_day_wei dst.max_day_wei;
  max_gas_price_wei = or_old src.max_gas_price_wei dst.max_gas_price_wei;
  allowlist_enabled = or_old src.allowlist_enabled dst.allowlist_enabled;
  include_self = or_old src.include_self dst.include_self;
  typed_data_unknown = or_old src.typed_data_unknown dst.typed_data_unknown;
}

unfoldable pub upsert_network : List NetworkRule → NetworkRule → List NetworkRule
unfolding merge_limits equal_fold_str
upsert_network [] n = n ∷ []
upsert_network (m ∷ ms) n =
    if equal_fold_str m.network n.network
    then record m { limits = merge_limits m.limits n.limits } ∷ ms
    else m ∷ upsert_network ms n

unfoldable pub upsert_token : List TokenRule → TokenRule → List TokenRule
unfolding equal_fold_str
upsert_token [] t = t ∷ []
upsert_token (u ∷ us) t =
    if equal_fold_str u.network t.network && equal_fold_str u.address t.address
    then t ∷ us
    else u ∷ upsert_token us t

-- `none` leaves the block or the value unchanged.
pub record Change : Type 0 where
  pub default : Option Limits
  pub networks : List NetworkRule
  pub messages : Option Text
  pub tokens_no_allow_ok : Option Bool
  pub typed_unknown : Option Text
  pub tokens : List TokenRule
  pub refresh_self : Option (List Address)
  pub written_by : Text

abbrev pub or_value {ℓ} : {A : Type ℓ} → Option A → A → A
or_value none old = old
or_value (some x) old = x

unfoldable merge_default : Option Limits → Limits → Limits
unfolding merge_limits
merge_default none l = l
merge_default (some c) l = merge_limits l c

-- The loop over the networks of a change, and that over its tokens.
unfoldable pub upsert_networks : List NetworkRule → List NetworkRule → List NetworkRule
unfolding upsert_network
upsert_networks ms [] = ms
upsert_networks ms (n ∷ ns) = upsert_networks (upsert_network ms n) ns

unfoldable pub upsert_tokens : List TokenRule → List TokenRule → List TokenRule
unfolding upsert_token
upsert_tokens us [] = us
upsert_tokens us (t ∷ ts) = upsert_tokens (upsert_token us t) ts

unfoldable pub apply_change : Policy → Change → Policy
unfolding merge_default upsert_networks upsert_tokens
apply_change p c = record p {
  rules = record {
    default = merge_default c.default p.rules.default;
    networks = upsert_networks p.rules.networks c.networks;
  };
  messages = or_value c.messages p.messages;
  tokens_no_allowlist_ok = or_value c.tokens_no_allow_ok p.tokens_no_allowlist_ok;
  typed_data = record p.typed_data { unknown = or_value c.typed_unknown p.typed_data.unknown };
  tokens = upsert_tokens p.tokens c.tokens;
}

-- What a first `policy set` and a reset start from.
unfoldable pub default_policy : Text → Policy
default_policy written_by = record {
  version = 1;
  nonce = 0;
  updated_at = [];
  written_by = written_by;
  messages = codes "allow";
  tokens_no_allowlist_ok = false;
  rules = record {
    default = record {
      max_tx_wei = none;
      max_day_wei = none;
      max_gas_price_wei = none;
      allowlist_enabled = some true;
      include_self = some true;
      typed_data_unknown = none;
    };
    networks = [];
  };
  tokens = [];
  allowlist = [];
  denylist = [];
  self_addresses = [];
  typed_data = record { unknown = codes "deny"; allowed = [] };
  contracts_allowed = [];
}

unfoldable pub lower_all : List Address → List Text
lower_all = map lower_hex

-- ── the registry of typed data ──

unfoldable pub same_typed_allow : TypedAllow → TypedAllow → Bool
same_typed_allow a b =
    a.chain_id == b.chain_id
    && equal_fold a.verifying_contract b.verifying_contract
    && text_eq a.primary_type b.primary_type

-- An entry of the same triple gets the new label.
unfoldable pub upsert_typed_allow : List TypedAllow → TypedAllow → List TypedAllow
unfolding same_typed_allow
upsert_typed_allow [] ta = ta ∷ []
upsert_typed_allow (a ∷ l) ta =
    if same_typed_allow a ta then record a { label = ta.label } ∷ l else a ∷ upsert_typed_allow l ta

unfoldable pub remove_typed_allow : List TypedAllow → TypedAllow → List TypedAllow
unfolding same_typed_allow
remove_typed_allow l ta = reject (λ a. same_typed_allow a ta) l

-- ── the registry of contract calls ──

unfoldable pub normalize_selector : Text → Text
normalize_selector s = to_lower (trim_space s)

unfoldable pub is_hex_digit : ℕ → Bool
is_hex_digit c =
    (leb b'0' c && leb c b'9') || (leb b'a' c && leb c b'f') || (leb b'A' c && leb c b'F')

all_hex : Text → Bool
unfolding is_hex_digit
all_hex [] = true
all_hex (c ∷ s) = is_hex_digit c && all_hex s

selector_form : Text → Bool
unfolding all_hex
selector_form (z ∷ x ∷ digits) =
    z == b'0' && (x == b'x' || x == b'X') && length digits == 8 && all_hex digits
selector_form _ = false

-- "0x" and eight digits, white space around them aside.
unfoldable pub is_selector_hex : Text → Bool
unfolding selector_form
is_selector_hex s = selector_form (trim_space s)

unfoldable pub same_contract_allow : ContractAllow → ContractAllow → Bool
unfolding normalize_selector
same_contract_allow a b =
    equal_fold a.network b.network
    && equal_fold a.contract b.contract
    && text_eq (normalize_selector a.selector) (normalize_selector b.selector)

-- An entry of the same triple gets the new label and time.
unfoldable pub upsert_contract_allow : List ContractAllow → ContractAllow → List ContractAllow
unfolding same_contract_allow
upsert_contract_allow [] ca = ca ∷ []
upsert_contract_allow (a ∷ l) ca =
    if same_contract_allow a ca
    then record a { label = ca.label; added_at = ca.added_at } ∷ l
    else a ∷ upsert_contract_allow l ca

unfoldable pub remove_contract_allow : List ContractAllow → ContractAllow → List ContractAllow
unfolding same_contract_allow
remove_contract_allow l ca = reject (λ a. same_contract_allow a ca) l
