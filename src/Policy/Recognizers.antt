-- ===== src/Policy/Recognizers.antt =====
-- The recognisers of typed data that moves funds (internal/policy/recognizers.go). `is_hex_address` and
-- `to_address` stand for IsHexAddress and HexToAddress of go-ethereum.
pub mod Summary
use mathlib.Core.Option
use daxie.Prelude.{
  ℕ, ◌+◌, ◌-◌, ◌*◌, ◌^◌, Bool, true, false, not, ◌&&◌, ◌||◌, ◌==◌, Option, none, some, List, [],
  ◌∷◌, leb, ltb, if◌then◌else◌, length, drop, any,
}
use daxie.Prelude.Int.{ℤ, pos, negsuc}
use daxie.Prelude.Text.{Text, codes, text_eq, is_empty, to_lower, trim_space, has_prefix}
use daxie.Decimal.{set_string, negate}
use daxie.Policy.Types.{Address}
use daxie.Policy.Stages.Amounts.{uint256_max, uint160_max}
use daxie.Policy.TypedData.{
  no_class, spend_class, or_empty, single, batch, in_domain, on_verifying, choose_class,
  is_positive, differs, off_chain, check_chain, is_eip2612, is_dai_permit, eip2612_class, dai_class,
  token_entry, both, single_class, batch_class, SpendToken, TypedDataClass,
}
use daxie.Policy.Message.{
  Value, text, address, object, array, Fields, Items, no_items, item, get, has_exact_keys,
  message_big, message_bool, read_chain_id, is_number, is_max,
}

-- ── the recognisers ──

abbrev pub permit2_contract : Text
permit2_contract = codes "0x000000000022d473030f116ddee9f6b43ac78ba3"

module _ (is_hex_address : Text → Bool) (to_address : Text → Address) where
  unfoldable pub lower_addr : Value → Text
  lower_addr (text s) = if is_hex_address s then to_lower (to_address s) else []
  lower_addr (address a) = to_lower a
  lower_addr _ = []

  unfoldable pub message_addr : Fields → Text → Option Text
  unfolding get lower_addr
  message_addr m key = let a = lower_addr (get m key) in if is_empty a then none else some a

  unfoldable pub match_eip2612 : Text → Fields → Option TypedDataClass
  unfolding is_eip2612 eip2612_class message_addr message_big
  match_eip2612 primary m =
      if is_eip2612 primary m
      then eip2612_class (message_addr m (codes "spender")) (message_big m (codes "value"))
          (message_big m (codes "deadline"))
      else none

  unfoldable pub match_dai_permit : Text → Fields → Option TypedDataClass
  unfolding is_dai_permit dai_class message_addr message_bool
  match_dai_permit primary m =
      if is_dai_permit primary m
      then dai_class (message_addr m (codes "spender")) (message_bool m (codes "allowed"))
      else none

  unfoldable pub permit2_token : ℕ → Fields → Option SpendToken
  unfolding message_addr message_big token_entry
  permit2_token sentinel m =
      token_entry sentinel (message_addr m (codes "token")) (message_big m (codes "amount"))

  unfoldable pub object_token : ℕ → Value → Option SpendToken
  unfolding permit2_token
  object_token sentinel (object m) = permit2_token sentinel m
  object_token sentinel _ = none

  unfoldable pub item_tokens : ℕ → Items → Option (List SpendToken)
  unfolding object_token both
  item_tokens sentinel no_items = some []
  item_tokens sentinel (item v rest) = both (object_token sentinel v) (item_tokens sentinel rest)

  -- An array that is not empty; the class is unlimited if a token is.
  unfoldable pub permit2_tokens : ℕ → Value → Option (List SpendToken)
  unfolding item_tokens
  permit2_tokens sentinel (array no_items) = none
  permit2_tokens sentinel (array (item v rest)) = item_tokens sentinel (item v rest)
  permit2_tokens sentinel _ = none

  -- The allowance forms need a spender; the transfer forms may name one.
  unfoldable pub permit_single : Fields → Option TypedDataClass
  unfolding message_addr object_token single_class
  permit_single m =
      single_class (message_addr m (codes "spender"))
        (object_token uint160_max (get m (codes "details")))

  unfoldable pub permit_batch : Fields → Option TypedDataClass
  unfolding message_addr permit2_tokens batch_class
  permit_batch m =
      batch_class (message_addr m (codes "spender"))
        (permit2_tokens uint160_max (get m (codes "details")))

  unfoldable pub permit_transfer_from : Fields → Option TypedDataClass
  unfolding message_addr object_token single_class
  permit_transfer_from m =
      single_class (some (or_empty (message_addr m (codes "spender"))))
        (object_token uint256_max (get m (codes "permitted")))

  unfoldable pub permit_batch_transfer_from : Fields → Option TypedDataClass
  unfolding message_addr permit2_tokens batch_class
  permit_batch_transfer_from m =
      batch_class (some (or_empty (message_addr m (codes "spender"))))
        (permit2_tokens uint256_max (get m (codes "permitted")))

  unfoldable pub match_permit2 : Text → Text → Fields → Option TypedDataClass
  unfolding permit_single permit_batch permit_transfer_from permit_batch_transfer_from text_eq
  match_permit2 primary verifying m =
      if not (text_eq verifying permit2_contract)
      then none
      else if text_eq primary (codes "PermitSingle")
      then permit_single m
      else if text_eq primary (codes "PermitBatch")
      then permit_batch m
      else if text_eq primary (codes "PermitTransferFrom")
      then permit_transfer_from m
      else if text_eq primary (codes "PermitBatchTransferFrom")
      then permit_batch_transfer_from m
      else none

  -- `classifyTypedData`, which is `ClassifyTypedData`.
  unfoldable pub classify_typed_data : Text → Fields → Fields → TypedDataClass
  unfolding choose_class read_chain_id lower_addr match_eip2612 match_dai_permit match_permit2
  classify_typed_data primary domain m =
      let verifying = lower_addr (get domain (codes "verifyingContract")) in
      choose_class primary (read_chain_id domain) verifying (match_eip2612 primary m)
        (match_dai_permit primary m) (match_permit2 primary verifying m)

  -- `ClassifyTypedDataFor`
  unfoldable pub classify_typed_data_for : ℤ → Text → Fields → Fields → TypedDataClass
  unfolding classify_typed_data check_chain
  classify_typed_data_for expected primary domain m =
      check_chain expected (classify_typed_data primary domain m)
