-- ===== src/Calldata.antt =====
-- Raw calldata as the policy reads it (internal/abi/classify.go and internal/policy/calldata.go). An
-- address is its 20 bytes here; `to_text` stands for the text that go-ethereum prints for it.
pub mod Erc
pub mod Words
pub mod Agreement
mod Tests
use daxie.Prelude.{
  ℕ, ◌+◌, ◌*◌, ◌/◌, ◌%◌, Bool, true, false, not, ◌&&◌, ◌||◌, ◌==◌, Option, none, some, List, [],
  ◌∷◌, ◌++◌, map, ltb, length, take, drop, replicate, if◌then◌else◌,
}
use daxie.Prelude.Text.{Text, codes, text_eq}
use daxie.Policy.Types
use daxie.Policy.Types.{Address, Check, Kind, ToSource, zero_address, lower_hex}
use daxie.Policy.Stages.Amounts.{is_unlimited_amount, uint256_max}
use daxie.Policy.Writer.{hex_digit}

abbrev pub Bytes : Type 0
Bytes = List ℕ

-- ── words ──

-- The word of 32 bytes at an index, if the body reaches so far.
unfoldable pub word : Bytes → ℕ → Option Bytes
word body i = if ltb (length body) (i * 32 + 32) then none else some (take 32 (drop (i * 32) body))

unfoldable pub all_zero : Bytes → Bool
all_zero [] = true
all_zero (b ∷ bs) = b == 0 && all_zero bs

-- A number from its bytes, the highest first.
unfoldable pub number_from : ℕ → Bytes → ℕ
number_from n [] = n
number_from n (b ∷ bs) = number_from (n * 256 + b) bs

abbrev address_in : Bytes → Option Bytes
address_in w = if all_zero (take 12 w) then some (drop 12 w) else none

-- The last byte of a word as a truth value.
abbrev pub flag_in : ℕ → Option Bool
flag_in n = if n == 0 then some false else if n == 1 then some true else none

abbrev pub bind : {A B : Type 0} → Option A → (A → Option B) → Option B
bind none f = none
bind (some a) f = f a

unfoldable pub word_addr : Bytes → ℕ → Option Bytes
unfolding word all_zero
word_addr body i = bind (word body i) address_in

unfoldable pub word_big : Bytes → ℕ → Option ℕ
unfolding word number_from
word_big body i = bind (word body i) λ w. some (number_from 0 w)

unfoldable pub word_bool : Bytes → ℕ → Option Bool
unfolding word all_zero number_from
word_bool body i =
    bind (word body i)
      λ w. if all_zero (take 31 w) then flag_in (number_from 0 (drop 31 w)) else none

-- ── the recogniser ──

pub data Recognized : Type 0 where
  approval transfer : Recognized

pub record SelectorClass : Type 0 where
  pub kind : Recognized
  pub spender : Bytes
  pub recipient : Bytes
  pub amount : Option ℕ
  pub unlimited : Bool

abbrev pub zero_bytes : Bytes
zero_bytes = replicate 20 0

abbrev approval_of : Bytes → Option ℕ → Bool → Option SelectorClass
approval_of spender amount unlimited = some (record {
  kind = Recognized.approval;
  spender = spender;
  recipient = zero_bytes;
  amount = amount;
  unlimited = unlimited;
})

abbrev transfer_of : Bytes → Option ℕ → Option SelectorClass
transfer_of recipient amount = some (record {
  kind = Recognized.transfer;
  spender = zero_bytes;
  recipient = recipient;
  amount = amount;
  unlimited = false;
})

-- One function for each arm of the switch.
unfoldable pub approve_args : Bytes → Option SelectorClass
unfolding word_addr word_big is_unlimited_amount
approve_args body =
    bind (word_addr body 0)
      λ s. bind (word_big body 1) λ n. approval_of s (some n) (is_unlimited_amount (some n))

unfoldable pub increase_args : Bytes → Option SelectorClass
unfolding word_addr word_big
increase_args body =
    bind (word_addr body 0) λ s. bind (word_big body 1) λ n. approval_of s (some n) false

unfoldable pub transfer_args : Bytes → Option SelectorClass
unfolding word_addr word_big
transfer_args body = bind (word_addr body 0) λ t. bind (word_big body 1) λ n. transfer_of t (some n)

unfoldable pub transfer_from_args : Bytes → Option SelectorClass
unfolding word_addr word_big
transfer_from_args body =
    bind (word_addr body 1) λ t. bind (word_big body 2) λ n. transfer_of t (some n)

unfoldable pub approval_for_all_args : Bytes → Option SelectorClass
unfolding word_addr word_bool
approval_for_all_args body =
    bind (word_addr body 0) λ s. bind (word_bool body 1) λ b. approval_of s none b

unfoldable pub safe_transfer_args : Bytes → Option SelectorClass
unfolding word_addr
safe_transfer_args body = bind (word_addr body 1) λ t. transfer_of t none

unfoldable pub permit_args : Bytes → Option SelectorClass
unfolding word_addr word_big is_unlimited_amount
permit_args body = bind (word_addr body 1) λ s. bind (word_big body 2) λ n.
    bind (word_big body 3)
      λ deadline. approval_of s (some n) (is_unlimited_amount (some n) || deadline == uint256_max)

unfoldable pub dai_permit_args : Bytes → Option SelectorClass
unfolding word_addr word_bool
dai_permit_args body =
    bind (word_addr body 1) λ s. bind (word_bool body 4) λ b. approval_of s none b

-- Permit2, whose spender stands at no fixed word.
abbrev permit2_args : Bytes → Option SelectorClass
permit2_args body = approval_of zero_bytes none false

abbrev pub sel_approve : Bytes
sel_approve = 0x09 ∷ 0x5e ∷ 0xa7 ∷ 0xb3 ∷ []

abbrev pub sel_transfer : Bytes
sel_transfer = 0xa9 ∷ 0x05 ∷ 0x9c ∷ 0xbb ∷ []

abbrev pub sel_safe_transfer_from1 : Bytes
sel_safe_transfer_from1 = 0x42 ∷ 0x84 ∷ 0x2e ∷ 0x0e ∷ []

abbrev pub sel_safe_transfer_from3 : Bytes
sel_safe_transfer_from3 = 0xf2 ∷ 0x42 ∷ 0x43 ∷ 0x2a ∷ []

-- The selectors with their arms, in the order of the switch.
abbrev pub arms : List (Bytes × (Bytes → Option SelectorClass))
arms =
    (sel_approve, approve_args)
    ∷ (0x39 ∷ 0x50 ∷ 0x93 ∷ 0x51 ∷ [], increase_args)
    ∷ (sel_transfer, transfer_args)
    ∷ (0x23 ∷ 0xb8 ∷ 0x72 ∷ 0xdd ∷ [], transfer_from_args)
    ∷ (0xa2 ∷ 0x2c ∷ 0xb4 ∷ 0x65 ∷ [], approval_for_all_args)
    ∷ (sel_safe_transfer_from1, safe_transfer_args)
    ∷ (0xb8 ∷ 0x8d ∷ 0x4f ∷ 0xde ∷ [], safe_transfer_args)
    ∷ (sel_safe_transfer_from3, safe_transfer_args)
    ∷ (0x2e ∷ 0xb2 ∷ 0xc2 ∷ 0xd6 ∷ [], safe_transfer_args)
    ∷ (0xd5 ∷ 0x05 ∷ 0xac ∷ 0xcf ∷ [], permit_args)
    ∷ (0x8f ∷ 0xcb ∷ 0xaf ∷ 0x0c ∷ [], dai_permit_args)
    ∷ (0x2b ∷ 0x67 ∷ 0xb5 ∷ 0x70 ∷ [], permit2_args)
    ∷ (0x30 ∷ 0xf2 ∷ 0x8b ∷ 0x7a ∷ [], permit2_args)
    ∷ []

unfoldable pub dispatch :
    Bytes → Bytes → List (Bytes × (Bytes → Option SelectorClass)) → Option SelectorClass
dispatch sel body [] = none
dispatch sel body ((s, f) ∷ rest) = if text_eq sel s then f body else dispatch sel body rest

-- `ClassifySelector`
unfoldable pub classify_selector : Bytes → Option SelectorClass
unfolding dispatch approve_args increase_args transfer_args transfer_from_args approval_for_all_args
    safe_transfer_args permit_args dai_permit_args
classify_selector data_ =
    if ltb (length data_) 4 then none else dispatch (take 4 data_) (drop 4 data_) arms

-- ── the request ──

abbrev target : Recognized → SelectorClass → Bytes
target Recognized.approval c = c.spender
target Recognized.transfer c = c.recipient

abbrev kind_text : Recognized → Text
kind_text Recognized.approval = codes "approve"
kind_text Recognized.transfer = codes "transfer"

abbrev kind_of : Recognized → Kind
kind_of Recognized.approval = Kind.approve
kind_of Recognized.transfer = Kind.transfer

module _ (to_text : Bytes → Address) where
  -- The fields that the calldata decides; the others are zero, and are filled in by the caller.
  unfoldable pub class_check : Address → Option ℕ → SelectorClass → Check
  class_check to value c = record {
    account = zero_address;
    dest = to_text (target c.kind c);
    spend_wei = value;
    max_gas_wei = none;
    max_fee_per_gas = none;
    kind = kind_text c.kind;
    token = lower_hex to;
    is_rbf_delta = false;
    acked = false;
    network = [];
    kind_enum = kind_of c.kind;
    to_src = ToSource.raw_address;
    to_input = [];
    ens_name = [];
    ens_resolved = zero_address;
    asset = lower_hex to;
    token_amt = c.amount;
    unlimited = c.unlimited;
    account_nonce = none;
    typed_unknown = false;
    typed_primary = [];
    typed_verifying = [];
    typed_chain_id = 0;
    unknown_calldata = false;
    contract_addr = zero_address;
    selector = [];
  }

  -- `ClassifyCalldata`
  unfoldable pub classify_calldata : Address → Bytes → Option ℕ → Option Check
  unfolding classify_selector class_check
  classify_calldata to data_ value =
      bind (classify_selector data_) λ c. some (class_check to value c)

unfoldable pub hex : Bytes → Text
unfolding hex_digit
hex [] = []
hex (b ∷ bs) = hex_digit (b / 16) ∷ hex_digit (b % 16) ∷ hex bs

-- `SelectorHex`
unfoldable pub selector_hex : Bytes → Text
unfolding hex
selector_hex data_ = if ltb (length data_) 4 then codes "0x" else codes "0x" ++ hex (take 4 data_)
