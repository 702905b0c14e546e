-- ===== src/Policy/Tests/Typed.antt =====
-- A permit that is signed, and a message that no recogniser knows (internal/service/sign.go).
use daxie.Prelude.{ℕ, ◌≡◌, refl, Bool, true, false, none, some, List, [], ◌∷◌, All}
use daxie.Prelude.Int.{pos}
use daxie.Prelude.Results.{ok}
use daxie.Prelude.Text.{Text, codes, has_prefix}
use daxie.Policy.Types.{Policy, Check}
use daxie.Policy.Limits.{resolve_limits}
use daxie.Policy.Reserve.Agreement.{calm}
use daxie.Policy.Stages.Messages.{has_chain_mismatch, says_allow}
use daxie.Policy.Message.{Fields, field, no_fields, text, get}
use daxie.Policy.TypedData.{TypedDataClass}
use daxie.Policy.Recognizers.{classify_typed_data_for, lower_addr}
use daxie.Signing.{
  Domain, authorize_signature, unknown_check, read_domain_chain_id, normalized_domain_map,
}
use daxie.Signing.Guarded.{Guarded, authorized-Guarded}
use daxie.Policy.Tests.Data.{policy, alice, call, net, store}

abbrev domain : Domain
domain = record {
  chain_id = some 1;
  name = codes "Mail";
  version = [];
  verifying_contract = codes "0xd0";
  salt = [];
}

-- A permit for Bob without a bound.
abbrev permit_message : Fields
permit_message = field (codes "owner") (text (codes "0xa1")) (
    field (codes "spender") (text (codes "0xb2")) (
      field (codes "value") (text (codes "5")) (
        field (codes "nonce") (text (codes "0")) (
          field (codes "deadline")
            (text (codes "0xffffffffffffffffffffffffffffffffffffffffffffffffffffffffffffffff"))
            no_fields))))

abbrev is_hex : Text → Bool
unfolding has_prefix
is_hex t = has_prefix t (codes "0x")

abbrev same : Text → Text
same t = t

abbrev letter : Check
letter =
    unknown_check alice net (codes "Mail")
      (lower_addr is_hex same (get (normalized_domain_map domain) (codes "verifyingContract")))
      (read_domain_chain_id (normalized_domain_map domain)) (pos 1)

abbrev class : TypedDataClass
class =
    classify_typed_data_for is_hex same (pos 1) (codes "Permit") (normalized_domain_map domain)
      permit_message

recognised :
    (authorize_signature
        (λ _. calm)
        (λ _. call)
        (ok (some policy))
        is_hex
        same
        (codes "Permit")
        domain
        permit_message
        alice
        net
        (pos 1)
        true
        store
      ≡ (ok tt, store))
    × (authorize_signature
          (λ _. calm)
          (λ _. call)
          (ok (some policy))
          is_hex
          same
          (codes "Mail")
          domain
          no_fields
          alice
          net
          (pos 1)
          false
          store
        ≡ (ok tt, store))
    × (class.is_spend ≡ true)
    × ((classify_typed_data_for is_hex same
          (pos 1)
          (codes "Mail")
          (normalized_domain_map domain)
          no_fields).is_spend
        ≡ false)
unfolding is_hex daxie.Policy.Reserve.engine_evaluate normalized_domain_map daxie.Policy.Message.get
    daxie.Policy.Message.has_key daxie.Policy.Message.field_count daxie.Policy.Message.has_all
    daxie.Policy.Message.has_exact_keys daxie.Policy.Message.hex_digit_value
    daxie.Policy.Message.scan_hex daxie.Policy.Message.parse_hex daxie.Policy.Message.set_string_hex
    daxie.Policy.Message.has_hex_prefix daxie.Policy.Message.parse_big_string
    daxie.Policy.Message.big_value daxie.Policy.Message.message_big daxie.Policy.Message.bool_value
    daxie.Policy.Message.message_bool daxie.Policy.Message.int64_or_zero
    daxie.Policy.Message.read_chain_id daxie.Policy.Message.is_max
    daxie.Policy.TypedData.choose_class daxie.Policy.TypedData.check_chain
    daxie.Policy.TypedData.is_eip2612 daxie.Policy.TypedData.is_dai_permit
    daxie.Policy.TypedData.eip2612_class daxie.Policy.TypedData.dai_class
    daxie.Policy.TypedData.token_entry daxie.Policy.TypedData.both
    daxie.Policy.TypedData.single_class daxie.Policy.TypedData.batch_class
    daxie.Policy.Recognizers.lower_addr daxie.Policy.Recognizers.message_addr
    daxie.Policy.Recognizers.match_eip2612 daxie.Policy.Recognizers.match_dai_permit
    daxie.Policy.Recognizers.permit2_token daxie.Policy.Recognizers.object_token
    daxie.Policy.Recognizers.item_tokens daxie.Policy.Recognizers.permit2_tokens
    daxie.Policy.Recognizers.permit_single daxie.Policy.Recognizers.permit_batch
    daxie.Policy.Recognizers.permit_transfer_from
    daxie.Policy.Recognizers.permit_batch_transfer_from daxie.Policy.Recognizers.match_permit2
    daxie.Policy.Recognizers.classify_typed_data daxie.Policy.Recognizers.classify_typed_data_for
    daxie.Signing.denied_decision daxie.Signing.mismatch daxie.Policy.Body.is_hex_digit
    daxie.Signing.proceed daxie.Signing.domain_chain daxie.Signing.read_domain_chain_id
    daxie.Signing.spend_check daxie.Signing.entries_of daxie.Signing.unknown_check
    daxie.Signing.evaluate_entries daxie.Signing.evaluate_unknown
    daxie.Signing.evaluate_spend_equivalent daxie.Signing.authorize_class
    daxie.Signing.authorize_signature daxie.Policy.Evaluate.evaluate
    daxie.Policy.Evaluate.all_stages daxie.Policy.Evaluate.stage_destination
    daxie.Policy.Evaluate.collect daxie.Policy.Evaluate.compose_denial
    daxie.Policy.Evaluate.pick_winner daxie.Policy.Evaluate.rank daxie.Policy.Evaluate.retry_of
    daxie.Policy.Evaluate.verdict daxie.Policy.Stages.Destination.stage_denylist
    daxie.Policy.Stages.Destination.match_pin daxie.Policy.Stages.Destination.stage_allowlist
    daxie.Policy.Stages.Destination.on_allowlist daxie.Policy.Stages.Destination.stage_no_allowlist
    daxie.Policy.Stages.Destination.stage_pin_drift daxie.Policy.Stages.Destination.dest_role
    daxie.Policy.Stages.Destination.in_self daxie.Policy.Stages.Destination.is_token_or_approval
    daxie.Policy.Stages.Messages.stage_typed_data
    daxie.Policy.Stages.Messages.stage_unknown_calldata
    daxie.Policy.Stages.Messages.contract_addr_allowlisted
    daxie.Policy.Stages.Messages.contract_allow_match
    daxie.Policy.Stages.Messages.has_chain_mismatch daxie.Policy.Stages.Messages.says_allow
    daxie.Policy.Stages.Messages.typed_allow_match daxie.Policy.Stages.Amounts.stage_per_tx
    daxie.Policy.Stages.Amounts.stage_daily daxie.Policy.Stages.Amounts.stage_gas_cap
    daxie.Policy.Stages.Amounts.stage_unlimited daxie.Policy.Stages.Amounts.token_hard_deny
    daxie.Policy.Stages.Amounts.token_of daxie.Policy.Stages.Amounts.is_gasless
    daxie.Policy.Stages.Amounts.is_approval daxie.Policy.Stages.Amounts.is_unlimited_amount
    daxie.Policy.Types.effective_kind daxie.Policy.Types.lower_hex
    daxie.Policy.Limits.resolve_limits daxie.Policy.Limits.exceeds daxie.Policy.Limits.is_null
    daxie.Policy.Limits.override_limit daxie.Policy.Limits.parse_limit daxie.Decimal.digits_from
    daxie.Decimal.format_int daxie.Decimal.format_nat daxie.Decimal.is_digit daxie.Decimal.parse_nat
    daxie.Decimal.scan daxie.Decimal.set_string daxie.Prelude.Text.equal_fold
    daxie.Prelude.Text.text_eq daxie.Prelude.Text.to_lower daxie.Prelude.Text.has_prefix
    daxie.Prelude.Text.is_space daxie.Prelude.Text.lower_byte daxie.Prelude.Text.trim_left
    daxie.Prelude.Text.trim_space daxie.Policy.Reserve.reserve_active
    daxie.Policy.Reserve.reserve_window daxie.Policy.Reserve.after_verdict
    daxie.Policy.Reserve.write_both daxie.Policy.Reserve.write_reservation
    daxie.Policy.Reserve.debit_counter daxie.Policy.Reserve.fresh_entry
    daxie.Policy.Reserve.new_reservation daxie.Policy.Reserve.refine
    daxie.Policy.Reserve.refine_with daxie.Policy.Reserve.check_window
    daxie.Policy.Reserve.check_active daxie.Policy.Reserve.denied_error
    daxie.Policy.Engine.add_account daxie.Policy.Engine.add_accounts
    daxie.Policy.Engine.network_accounts daxie.Policy.Engine.window_of
    daxie.Policy.Engine.aggregate_window daxie.Policy.Engine.merged_envelope
    daxie.Policy.Engine.this_debit daxie.Policy.Engine.superseded daxie.Policy.Engine.window_with
    daxie.Policy.Engine.window_for daxie.Policy.Store.read_counter daxie.Policy.Store.fill_names
    daxie.Policy.Store.load_counter daxie.Policy.Store.save_counter daxie.Policy.Store.write_counter
    daxie.Policy.Store.read_log daxie.Policy.Store.save_log daxie.Policy.Store.write_log
    daxie.Policy.Retry.window_entries daxie.Policy.Retry.total_wei daxie.Policy.Retry.sort_window
    daxie.Policy.Retry.first_fit daxie.Policy.Retry.refine_retry_after daxie.Policy.Counter.is_old
    daxie.Policy.Counter.all_released daxie.Policy.Counter.entry_all_released
    daxie.Policy.Counter.raise_to daxie.Policy.Counter.gas_of daxie.Policy.Counter.max_over
    daxie.Policy.Counter.max_value_wei daxie.Policy.Counter.max_gas_wei
    daxie.Policy.Counter.entry_wei daxie.Policy.Counter.sum_entries daxie.Policy.Counter.sum_window
    daxie.Policy.Counter.sum_others daxie.Policy.Counter.sum_window_excluding
    daxie.Policy.Counter.prune_counter daxie.Policy.Counter.find_entry_by_nonce
    daxie.Policy.Counter.same_nonce daxie.Policy.Counter.debit_entries
    daxie.Policy.Counter.update_first daxie.Policy.Counter.is_terminal_candidate
    daxie.Policy.Counter.all_terminal daxie.Policy.Counter.all_candidates_terminal
    daxie.Policy.Counter.insert_by_ts daxie.Policy.Counter.sort_from
    daxie.Policy.Counter.sort_entries_by_ts daxie.Policy.Counter.reserved_candidate
    daxie.Policy.Reservation.load_all daxie.Policy.Reservation.load_from
    daxie.Policy.Reservation.all_blank daxie.Policy.Reservation.put
    daxie.Policy.Reservation.compacted daxie.Policy.Reservation.append_and_compact
    daxie.Policy.Reservation.is_terminal daxie.Policy.Reservation.terminal_state
    daxie.Policy.Reservation.find_id
recognised = (refl, refl, refl, refl)

authorized-Guarded_example :
    (class.denied ≡ false) × All (Guarded same alice net true policy class) class.tokens
authorized-Guarded_example =
    authorized-Guarded (λ _. calm) (λ _. call) is_hex same policy (codes "Permit") domain
      permit_message alice net (pos 1) true store store recognised.0 recognised.2
