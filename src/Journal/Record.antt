-- ===== src/Journal/Record.antt =====
-- The records of the journal, their statuses and the change that a transition makes
-- (internal/journal/record.go, and StateMutation of store.go).
use daxie.Prelude.{ℕ, Bool, true, false, Option, none, some, []}
use daxie.Prelude.Text.{Text}

-- A status is a string: `other` is one that the package does not name, and `other []` the empty one.
pub data Status : Type 0 where
  signed broadcast pending mined confirmed reverted replaced dropped failed : Status
  other : Text → Status

unfoldable pub is_terminal : Status → Bool
is_terminal confirmed = true
is_terminal reverted = true
is_terminal replaced = true
is_terminal failed = true
is_terminal signed = false
is_terminal broadcast = false
is_terminal pending = false
is_terminal mined = false
is_terminal dropped = false
is_terminal (other _) = false

unfoldable pub consumes_nonce : Status → Bool
consumes_nonce failed = false
consumes_nonce signed = true
consumes_nonce broadcast = true
consumes_nonce pending = true
consumes_nonce mined = true
consumes_nonce confirmed = true
consumes_nonce reverted = true
consumes_nonce replaced = true
consumes_nonce dropped = true
consumes_nonce (other _) = true

pub data Kind : Type 0 where
  eth_transfer erc20_transfer erc721_transfer erc1155_transfer approve contract_call cancel
        speedup :
      Kind

pub record Asset : Type 0 where
  pub kind : Text
  pub contract : Option Text
  pub alias : Text
  pub decimals : Option ℕ
  pub amount : Option Text
  pub token_id : Option Text

pub record Fees : Type 0 where
  pub mode : Text
  pub gas_limit : ℕ
  pub max_fee_per_gas : Option Text
  pub max_priority_per_gas : Option Text
  pub gas_price : Option Text
  pub speed : Text

pub record Receipt : Type 0 where
  pub block_number : ℕ
  pub block_hash : Text
  pub gas_used : ℕ
  pub effective_gas_price : Text
  pub status : ℕ

pub record Record : Type 0 where
  pub version : ℕ
  pub id : Text
  pub seq : ℕ
  pub ts : Text
  pub chain_id : ℕ
  pub network : Text
  pub kind : Kind
  pub status : Status
  pub source : Text
  pub from : Text
  pub to : Text
  pub nonce : ℕ
  pub tx_hash : Text
  pub raw_tx : Text
  pub value_wei : Text
  pub asset : Asset
  pub fees : Fees
  pub reservation_id : Text
  pub worst_case_gas_wei : Text
  pub replaces : Option Text
  pub replaced_by : Option Text
  pub receipt : Option Receipt
  pub error : Option Text
  pub rpc : Text

-- The version stamped on a record that has none.
abbrev pub record_version : ℕ
record_version = 1

pub record StateMutation : Type 0 where
  pub status : Status
  pub tx_hash : Option Text
  pub receipt : Option Receipt
  pub replaced_by : Option Text
  pub replaces : Option Text
  pub error : Option Text
  pub reservation_id : Option Text

-- An empty target status leaves the status.
unfoldable pub set_status : Status → Status → Status
set_status (other []) old = old
set_status s old = s

-- A pointer that is set replaces the pointer.
abbrev pub or_keep : {A : Type 0} → Option A → Option A → Option A
or_keep none old = old
or_keep (some x) old = some x

-- A pointer that is set replaces the value.
abbrev pub or_value : {A : Type 0} → Option A → A → A
or_value none old = old
or_value (some x) old = x

unfoldable pub apply_to : StateMutation → Record → Record
unfolding set_status
apply_to m r = record r {
  status = set_status m.status r.status;
  tx_hash = or_value m.tx_hash r.tx_hash;
  receipt = or_keep m.receipt r.receipt;
  replaced_by = or_keep m.replaced_by r.replaced_by;
  replaces = or_keep m.replaces r.replaces;
  error = or_keep m.error r.error;
  reservation_id = or_value m.reservation_id r.reservation_id;
}
