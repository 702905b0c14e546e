-- ===== src/Policy/Tests/Data.antt =====
-- A small policy, requests and stores for the runs (internal/policy).
use daxie.Prelude.{◌+◌, Bool, true, false, none, some, [], ◌∷◌}
use daxie.Prelude.Text.{Text, codes}
use daxie.Policy.Types.{
  Address, Instant, Limits, PinEntry, Policy, Check, Kind, ToSource, zero_address, day,
}
use daxie.Policy.Counter
use daxie.Policy.Counter.{CounterFile, Entry, Candidate}
use daxie.Policy.Reservation
use daxie.Policy.Reservation.{Reservation, Line}
use daxie.Policy.Store.{Store, CounterState}
use daxie.Policy.Reserve.{Call}

abbrev pub alice : Address
alice = codes "0xA1"

abbrev pub bob : Address
bob = codes "0xB2"

abbrev pub net : Text
net = codes "main"

abbrev pub noon : Instant
noon = day + day

abbrev pub limits : Bool → Limits
limits on = record {
  max_tx_wei = some (codes "50");
  max_day_wei = some (codes "100");
  max_gas_price_wei = some (codes "9");
  allowlist_enabled = some on;
  include_self = some false;
  typed_data_unknown = none;
}

abbrev pub pin : Text → PinEntry
pin a = record {
  source = codes "raw";
  address = a;
  name = [];
  label = [];
  added_at = [];
  resolved_at = [];
}

-- Bob is allowed and no one is denied; one typed message and one call are admitted.
abbrev pub policy : Policy
policy = record {
  version = 1;
  nonce = 7;
  updated_at = [];
  written_by = [];
  messages = codes "deny";
  tokens_no_allowlist_ok = false;
  rules = record { default = limits true; networks = [] };
  tokens = [];
  allowlist = pin (codes "0xb2") ∷ [];
  denylist = pin (codes "0xee") ∷ [];
  self_addresses = [];
  typed_data = record {
    unknown = codes "deny";
    allowed =
        record {
          chain_id = 1;
          verifying_contract = codes "0xd0";
          primary_type = codes "Mail";
          label = [];
        }
        ∷ [];
  };
  contracts_allowed =
      record {
        network = net;
        contract = codes "0xb2";
        selector = codes "0x01020304";
        label = [];
        added_at = [];
      }
      ∷ [];
}

-- Alice sends 30 to Bob at a worst-case fee of 5.
abbrev pub send : Check
send = record {
  account = alice;
  dest = bob;
  spend_wei = some 30;
  max_gas_wei = some 5;
  max_fee_per_gas = some 9;
  kind = codes "native";
  token = [];
  is_rbf_delta = false;
  acked = false;
  network = net;
  kind_enum = Kind.transfer;
  to_src = ToSource.raw_address;
  to_input = codes "0xB2";
  ens_name = [];
  ens_resolved = zero_address;
  asset = [];
  token_amt = none;
  unlimited = false;
  account_nonce = some 4;
  typed_unknown = false;
  typed_primary = [];
  typed_verifying = [];
  typed_chain_id = 0;
  unknown_calldata = false;
  contract_addr = zero_address;
  selector = [];
}

-- The same transaction again with a higher fee.
abbrev pub bump : Check
bump = record send { is_rbf_delta = true; max_gas_wei = some 9 }

abbrev pub ens_send : Check
ens_send = record send { to_src = ToSource.ens; ens_name = codes "bob.eth"; ens_resolved = bob }

abbrev pub approval : Check
approval = record send {
  kind = codes "approve";
  kind_enum = Kind.approve;
  token = codes "0xcc";
  unlimited = true;
  acked = true;
  spend_wei = some 0;
}

abbrev pub permit : Check
permit = record approval { kind = codes "permit"; kind_enum = Kind.permit }

abbrev pub call_bob : Check
call_bob = record send {
  unknown_calldata = true;
  contract_addr = bob;
  selector = codes "0x01020304";
}

abbrev pub mail : Check
mail = record permit {
  typed_unknown = true;
  typed_primary = codes "Mail";
  typed_verifying = codes "0xD0";
  typed_chain_id = 1;
}

abbrev pub call : Call
call = record { hooked = alice ∷ bob ∷ []; fresh_id = codes "r2"; started = noon; now = noon }

-- What Alice has sent under the nonce 4.
abbrev pub sent : Candidate
sent = record {
  tx_hash = [];
  value_wei = codes "30";
  gas_max_wei = codes "5";
  gas_actual_wei = none;
  state = Counter.reserved;
}

abbrev pub earlier : Entry
earlier = record {
  id = codes "r1";
  ts = noon;
  account_nonce = some 4;
  kind = codes "native";
  asset = codes "eth";
  candidates = sent ∷ [];
}

abbrev pub counter : CounterFile
counter = record {
  version = 1;
  policy_nonce = 7;
  network = net;
  from = codes "0xa1";
  entries = earlier ∷ [];
}

abbrev pub record_one : Reservation
record_one = record {
  id = codes "r1";
  account = alice;
  dest = bob;
  spend_wei = codes "30";
  max_gas_wei = codes "5";
  state = Reservation.reserved;
  hash = [];
  actual_gas_wei = none;
  ts = noon;
  network = net;
  policy_nonce = 0;
}

-- Every account has sent what Alice has.
abbrev pub store : Store
store = record {
  log = Line.written record_one ∷ Line.blank ∷ [];
  counters = λ _ _. CounterState.stored counter;
}

abbrev pub committed_store : Store
committed_store = record store {
  log = Line.written (record record_one { state = Reservation.committed }) ∷ [];
}
