-- ===== src/Policy/Types.antt =====
-- The sealed policy body and the request that is checked against it (internal/policy/file.go and
-- check.go).
--
-- An address is given by the text that go-ethereum's `Hex` prints for it, which is one for each
-- address. An instant is the number of nanoseconds since Go's zero time, so a timestamp that does
-- not parse is 0. Amounts of a request are natural numbers; amounts in files are decimal text.
use daxie.Prelude.{ℕ, ◌*◌, ◌/◌, Bool, ◌||◌, Option, List, [], if◌then◌else◌, get_or}
use daxie.Prelude.Text.{Text, codes, text_eq, to_lower}

abbrev pub Address : Type 0
Address = Text

abbrev pub zero_address : Address
zero_address = codes "0x0000000000000000000000000000000000000000"

-- "" for the zero address.
unfoldable pub lower_hex : Address → Text
lower_hex a = if text_eq a zero_address then [] else to_lower a

abbrev pub Instant : Type 0
Instant = ℕ

abbrev pub day : ℕ
day = 24 * 3600 * 1000000000

-- `Format(time.RFC3339)` keeps whole seconds.
abbrev pub rfc3339 : Instant → ℕ
rfc3339 t = t / 1000000000

-- ── the policy body ──

-- `none` is an absent field.
pub record Limits : Type 0 where
  pub max_tx_wei : Option Text
  pub max_day_wei : Option Text
  pub max_gas_price_wei : Option Text
  pub allowlist_enabled : Option Bool
  pub include_self : Option Bool
  pub typed_data_unknown : Option Text

pub record NetworkRule : Type 0 where
  pub network : Text
  pub limits : Limits

pub record TokenRule : Type 0 where
  pub network : Text
  pub address : Text
  pub alias_at_set : Text
  pub allow_unlimited : Option Bool

pub record PinEntry : Type 0 where
  pub source : Text
  pub address : Text
  pub name : Text
  pub label : Text
  pub added_at : Text
  pub resolved_at : Text

pub record TypedAllow : Type 0 where
  pub chain_id : ℕ
  pub verifying_contract : Text
  pub primary_type : Text
  pub label : Text

pub record ContractAllow : Type 0 where
  pub network : Text
  pub contract : Text
  pub selector : Text
  pub label : Text
  pub added_at : Text

pub record Rules : Type 0 where
  pub default : Limits
  pub networks : List NetworkRule

pub record TypedDataCfg : Type 0 where
  pub unknown : Text
  pub allowed : List TypedAllow

pub record Policy : Type 0 where
  pub version : ℕ
  pub nonce : ℕ
  pub updated_at : Text
  pub written_by : Text
  pub messages : Text
  pub tokens_no_allowlist_ok : Bool
  pub rules : Rules
  pub tokens : List TokenRule
  pub allowlist : List PinEntry
  pub denylist : List PinEntry
  pub self_addresses : List Text
  pub typed_data : TypedDataCfg
  pub contracts_allowed : List ContractAllow

-- ── the request ──

pub data Kind : Type 0 where
  unknown transfer approve permit : Kind

pub data ToSource : Type 0 where
  raw_address ens contact self : ToSource

-- `none` in an amount is the nil pointer.
pub record Check : Type 0 where
  pub account : Address
  pub dest : Address
  pub spend_wei : Option ℕ
  pub max_gas_wei : Option ℕ
  pub max_fee_per_gas : Option ℕ
  pub kind : Text
  pub token : Text
  pub is_rbf_delta : Bool
  pub acked : Bool
  pub network : Text
  pub kind_enum : Kind
  pub to_src : ToSource
  pub to_input : Text
  pub ens_name : Text
  pub ens_resolved : Address
  pub asset : Text
  pub token_amt : Option ℕ
  pub unlimited : Bool
  pub account_nonce : Option ℕ
  pub typed_unknown : Bool
  pub typed_primary : Text
  pub typed_verifying : Text
  pub typed_chain_id : ℕ
  pub unknown_calldata : Bool
  pub contract_addr : Address
  pub selector : Text

kind_of_text : Text → Kind
kind_of_text k =
    if text_eq k (codes "approve") || text_eq k (codes "revoke")
    then approve
    else if text_eq k (codes "permit")
    then permit
    else transfer

kind_or : Kind → Text → Kind
unfolding kind_of_text
kind_or unknown k = kind_of_text k
kind_or transfer k = transfer
kind_or approve k = approve
kind_or permit k = permit

unfoldable pub effective_kind : Check → Kind
unfolding kind_or
effective_kind c = kind_or c.kind_enum c.kind

abbrev pub spend_wei : Check → ℕ
spend_wei c = get_or c.spend_wei 0

abbrev pub max_gas_wei : Check → ℕ
max_gas_wei c = get_or c.max_gas_wei 0

abbrev pub max_fee_per_gas : Check → ℕ
max_fee_per_gas c = get_or c.max_fee_per_gas 0

-- ── the verdict ──

-- The canonical refusal codes.
pub data Code : Type 0 where
  denied tx_limit day_limit allowlist no_allowlist gas_cap pin_drift typed_data unlimited_unacked
        contract_call :
      Code

pub data Role : Type 0 where
  spender recipient : Role

pub data Reason : Type 0 where
  denylisted not_allowlisted ens_unresolved ens_drift contact_drift chain_mismatch unknown_typed
        unknown_selector not_allowed hard_denied not_acked :
      Reason

-- The payload of a violation, one constructor for each set of keys; the human sentence is left out.
pub data Detail : Type 0 where
  destination : Text → Role → Reason → Detail
  on_network : Text → Detail
  drift : Reason → Text → Text → Text → Detail
  permit_chain : Reason → Detail
  typed_message : Reason → Text → Text → ℕ → Detail
  call : Reason → Text → Text → Text → Detail
  over_tx : Text → Text → Text → Detail
  token_spender : Reason → Text → Text → Detail
  over_day : Text → Text → Text → ℕ → Detail
  over_gas : Text → Text → Detail

pub record Violation : Type 0 where
  pub code : Code
  pub detail : Detail

pub record Decision : Type 0 where
  pub allowed : Bool
  pub code : Option Code
  pub violations : List Violation
  pub retry_after : Option ℕ
  pub detail : Option Detail
