-- ===== src/Signing.antt =====
-- The gate ahead of the signature of a typed message (authorizeSignature of internal/service/sign.go).
-- The k-th question to the policy engine has its own environment and call.
pub mod Guarded
use daxie.Prelude.{
  ℕ, ◌+◌, Bool, true, false, not, ◌&&◌, Option, none, some, List, [], ◌∷◌, ◌++◌, if◌then◌else◌,
  get_or, map,
}
use daxie.Prelude.Int.{ℤ, pos, negsuc, pos_part}
use daxie.Prelude.Results.{Result, ok, err}
use daxie.Prelude.Text.{Text, codes, is_empty}
use daxie.Decimal.{format_nat, format_int}
use daxie.Policy.Types.{
  Address, Instant, Policy, Check, Kind, ToSource, Decision, Code, Detail, zero_address,
}
use daxie.Policy.Store.{Store, Env, Error}
use daxie.Policy.Reserve.{Call, engine_evaluate}
use daxie.Policy.Message.{
  Value, null, other, text, boolean, float, int, big, address, object, array, Fields, no_fields,
  field, get, int64_or_zero, parse_big_string,
}
use daxie.Policy.TypedData.{SpendToken, TypedDataClass, is_positive, differs}
use daxie.Policy.Recognizers.{classify_typed_data_for, lower_addr}

-- Why a signature is refused: the engine failed, or it denied.
pub data Refusal : Type 0 where
  engine_failed : Error → Refusal
  denied : Code → Option Detail → Option ℕ → Refusal

abbrev pub Outcome : Type 0
Outcome = Result Refusal (Unit {0}) × Store

-- `deniedDecisionError`
unfoldable pub denied_decision : Decision → Refusal
denied_decision dec = denied (get_or dec.code Code.denied) dec.detail dec.retry_after

-- What follows an answer of the engine.
unfoldable pub proceed : (Store → Outcome) → Result Error Decision × Store → Outcome
unfolding denied_decision
proceed next (err e, st) = (err (engine_failed e), st)
proceed next (ok dec, st) = if dec.allowed then next st else (err (denied_decision dec), st)

-- ── the document ──

-- The domain of a document; an empty text is an absent field.
pub record Domain : Type 0 where
  pub chain_id : Option ℕ
  pub name : Text
  pub version : Text
  pub verifying_contract : Text
  pub salt : Text

abbrev pub text_field : Text → Text → Fields → Fields
text_field key s rest = if is_empty s then rest else field key (text s) rest

abbrev pub chain_field : Option ℕ → Fields → Fields
chain_field none rest = rest
chain_field (some n) rest = field (codes "chainId") (text (format_nat n)) rest

unfoldable pub normalized_domain_map : Domain → Fields
unfolding format_nat
normalized_domain_map d = chain_field d.chain_id (
    text_field (codes "name") d.name (
      text_field (codes "version") d.version (
        text_field (codes "verifyingContract") d.verifying_contract
          (text_field (codes "salt") d.salt no_fields))))

-- `readDomainChainID`; `ParseInt` reads what `parse_big_string` reads, within an int64.
unfoldable pub domain_chain : Value → ℤ
unfolding int64_or_zero parse_big_string
domain_chain (text s) = int64_or_zero (parse_big_string s)
domain_chain (float exact n) = n
domain_chain (int n) = n
domain_chain _ = pos 0

unfoldable pub read_domain_chain_id : Fields → ℤ
unfolding domain_chain get
read_domain_chain_id m = domain_chain (get m (codes "chainId"))

-- ── the requests ──

abbrev no_check : Address → Text → Check
no_check from network = record {
  account = from;
  dest = zero_address;
  spend_wei = none;
  max_gas_wei = none;
  max_fee_per_gas = none;
  kind = [];
  token = [];
  is_rbf_delta = false;
  acked = false;
  network = network;
  kind_enum = Kind.unknown;
  to_src = ToSource.raw_address;
  to_input = [];
  ens_name = [];
  ens_resolved = zero_address;
  asset = [];
  token_amt = none;
  unlimited = false;
  account_nonce = none;
  typed_unknown = false;
  typed_primary = [];
  typed_verifying = [];
  typed_chain_id = 0;
  unknown_calldata = false;
  contract_addr = zero_address;
  selector = [];
}

unfoldable pub mismatch : ℤ → Text
unfolding format_int
mismatch chain = codes "chain_mismatch:" ++ format_int chain

-- The request for one token of a message that moves funds.
unfoldable pub spend_check :
    (Text → Address) → Address → Text → Bool → TypedDataClass → SpendToken → Check
unfolding mismatch
spend_check to_address from network acked c e = record (no_check from network) {
  to_input = c.primary;
  kind_enum = Kind.permit;
  dest = to_address c.spender;
  unlimited = e.unlimited;
  acked = acked;
  token = e.token;
  asset = if c.denied then mismatch c.chain_id else e.token;
}

-- The tokens, or the contract of the domain if there are none.
abbrev pub or_contract : TypedDataClass → List SpendToken → List SpendToken
or_contract c [] = record { token = c.verifying; unlimited = c.unlimited } ∷ []
or_contract c (t ∷ ts) = t ∷ ts

unfoldable pub entries_of : TypedDataClass → List SpendToken
entries_of c = or_contract c c.tokens

-- The request for a message that no recogniser knows.
unfoldable pub unknown_check : Address → Text → Text → Text → ℤ → ℤ → Check
unfolding mismatch
unknown_check from network primary verifying chain active = record (no_check from network) {
  to_input = primary;
  typed_unknown = true;
  typed_primary = primary;
  typed_verifying = verifying;
  typed_chain_id = pos_part chain;
  asset =
      if is_positive active && is_positive chain && differs chain active
      then mismatch chain
      else [];
}

-- ── the gate ──

module _ (env : ℕ → Env) (call : ℕ → Call) (loaded : Result Error (Option Policy)) where
  -- One question for each token, up to the first one that is refused.
  unfoldable pub evaluate_entries : ℕ → List Check → Store → Outcome
  unfolding proceed engine_evaluate
  evaluate_entries k [] st = (ok tt, st)
  evaluate_entries k (c ∷ cs) st =
      proceed (evaluate_entries (k + 1) cs) (engine_evaluate (env k) (call k) loaded c st)

  unfoldable pub evaluate_unknown : Check → Store → Outcome
  unfolding proceed engine_evaluate
  evaluate_unknown c st = proceed (λ st. (ok tt, st)) (engine_evaluate (env 0) (call 0) loaded c st)

  module _ (is_hex_address : Text → Bool) (to_address : Text → Address) where
    unfoldable pub evaluate_spend_equivalent :
        TypedDataClass → Address → Text → Bool → Store → Outcome
    unfolding evaluate_entries spend_check entries_of
    evaluate_spend_equivalent c from network acked =
        evaluate_entries 0 (map (spend_check to_address from network acked c) (entries_of c))

    -- `authorizeSignature`, with the class that the recognisers give.
    unfoldable pub authorize_class :
        TypedDataClass → Text → Fields → Address → Text → ℤ → Bool → Store → Outcome
    unfolding evaluate_spend_equivalent evaluate_unknown unknown_check read_domain_chain_id
        lower_addr
    authorize_class c primary domain from network active acked st =
        if c.is_spend
        then evaluate_spend_equivalent c from network acked st
        else evaluate_unknown
            (unknown_check from network primary
              (lower_addr is_hex_address to_address (get domain (codes "verifyingContract")))
              (read_domain_chain_id domain) active)
            st

    unfoldable pub authorize_signature :
        Text → Domain → Fields → Address → Text → ℤ → Bool → Store → Outcome
    unfolding authorize_class classify_typed_data_for normalized_domain_map
    authorize_signature primary d m from network active acked =
        let domain = normalized_domain_map d in
        authorize_class (classify_typed_data_for is_hex_address to_address active primary domain m)
          primary domain from network active acked
