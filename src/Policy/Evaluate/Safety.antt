-- ===== src/Policy/Evaluate/Safety.antt =====
-- What the verdict "allowed" guarantees (internal/policy/evaluate.go).
use daxie.Prelude.{ℕ, ◌+◌, ◌≤◌, ◌≡◌, ◌≢◌, ◌⊎◌, true, false, ◌||◌, [], ◌∷◌, All, Exists}
use daxie.Policy.Types.{
  Policy, Check, Kind, ToSource, Instant, lower_hex, effective_kind, spend_wei, max_gas_wei,
  max_fee_per_gas,
}
use daxie.Policy.Limits.{ResolvedLimits, resolve_limits}
use daxie.Policy.Stages.{
  stage_typed_data, is_token_or_approval, token_hard_deny, is_unlimited_amount,
}
use daxie.Policy.Stages.Destination.Passing.{
  Pins, Names, Own, stage_denylist-none, stage_allowlist-none, stage_no_allowlist-none,
  stage_pin_drift-none,
}
use daxie.Policy.Stages.Messages.Passing.{
  AdmitsTyped, AdmitsCall, TrustsContract, stage_typed_data-none, stage_typed_data-permit,
  stage_unknown_calldata-none,
}
use daxie.Policy.Stages.Amounts.Passing.{
  Within, stage_per_tx-none, stage_daily-none, stage_daily-antitone, stage_gas_cap-none,
  stage_unlimited-none,
}
use daxie.Policy.Stages.Messages.{says_allow, has_chain_mismatch}
use daxie.Policy.Stages.Amounts.{is_gasless, is_approval, token_of}
use daxie.Policy.Evaluate.{evaluate}
use daxie.Policy.Evaluate.Passing.{
  evaluate-Passes, Passes-evaluate, verdict-allowed, collect-nil, then_allowed,
}

module _ (p : Policy) (req : Check) (w : ℕ) (now : Instant) where
  abbrev lim : ResolvedLimits
  lim = resolve_limits p req.network

  abbrev IsAllowed : Type 0
  IsAllowed = (evaluate p req w now).allowed ≡ true

  -- An allowed request that costs gas keeps each limit that is in force: value plus worst-case gas
  -- is within the limit for one transaction, the spend window plus both is within the daily limit,
  -- and a fee that is set is within the gas cap.
  pub allowed-Within :
      req.typed_unknown ≡ false
      → is_gasless (effective_kind req) ≡ false
      → IsAllowed
      → Within lim.max_tx (spend_wei req + max_gas_wei req)
        × Within lim.max_day (w + (spend_wei req + max_gas_wei req))
        × ((max_fee_per_gas req ≡ 0) ⊎ Within lim.max_gas_price (max_fee_per_gas req))
  allowed-Within t g h =
      let ok = evaluate-Passes p req w now t h in
      (
        stage_per_tx-none lim req (effective_kind req) g ok.per_tx,
        stage_daily-none lim req w now g ok.daily,
        stage_gas_cap-none lim req ok.gas_cap,
      )

  pub allowed-not_denylisted :
      req.typed_unknown ≡ false
      → IsAllowed
      → All (λ entry. ¬ (Pins req.dest entry) × ¬ (Names req.to_input entry)) p.denylist
  allowed-not_denylisted t h = stage_denylist-none p req (evaluate-Passes p req w now t h).denylist

  -- With the allowlist on, the destination of an allowed request of recognised calldata is pinned by
  -- an allowlist entry, or is an own account of the sealed snapshot that the policy includes.
  pub allowed-on_allowlist :
      req.typed_unknown ≡ false
      → lim.allowlist_enabled ≡ true
      → req.unknown_calldata ≡ false
      → IsAllowed
      → Exists (Pins req.dest) p.allowlist ⊎ ((lim.include_self ≡ true) × Own p req.dest)
  allowed-on_allowlist t on known h =
      stage_allowlist-none p lim req on known (evaluate-Passes p req w now t h).allowlist

  -- With any limit set, an allowed token transfer or approval is under an allowlist, or the policy
  -- acknowledges the gap.
  pub allowed-token_gate :
      req.typed_unknown ≡ false
      → is_token_or_approval req (effective_kind req) ≡ true
      → lim.any_set ≡ true
      → IsAllowed
      → (lim.allowlist_enabled ≡ true) ⊎ (p.tokens_no_allowlist_ok ≡ true)
  allowed-token_gate t tok set h =
      stage_no_allowlist-none p lim req (effective_kind req) tok set
        (evaluate-Passes p req w now t h).no_allowlist

  -- An ENS destination of an allowed request has resolved, to the address that was pinned.
  pub allowed-ens_pinned :
      req.typed_unknown ≡ false
      → req.to_src ≡ ToSource.ens
      → IsAllowed
      → (lower_hex req.ens_resolved ≡ lower_hex req.dest) × (lower_hex req.ens_resolved ≢ [])
  allowed-ens_pinned t src h =
      stage_pin_drift-none req src (evaluate-Passes p req w now t h).pin_drift

  -- An allowed approval or permit that is flagged unlimited, or whose encoded amount is one of the
  -- three sentinels, was acknowledged, and no rule forbids it for the token.
  pub allowed-unlimited_acked :
      req.typed_unknown ≡ false
      → is_approval (effective_kind req) ≡ true
      → req.unlimited || is_unlimited_amount req.token_amt ≡ true
      → IsAllowed
      → (req.acked ≡ true) × (token_hard_deny p.tokens req.network (token_of req) ≡ false)
  allowed-unlimited_acked t k u h =
      stage_unlimited-none p req (effective_kind req) k u
        (evaluate-Passes p req w now t h).unlimited

  -- An allowed permit does not carry the mark of another chain.
  pub allowed_permit-chain :
      req.typed_unknown ≡ false
      → req.kind_enum ≡ Kind.permit
      → IsAllowed
      → has_chain_mismatch req ≡ false
  allowed_permit-chain t k h =
      stage_typed_data-permit p lim req k (evaluate-Passes p req w now t h).typed_data

  -- Unrecognised calldata is allowed only to a contract that is pinned or an included own account,
  -- or by an entry for its network, contract and selector.
  pub allowed-call_admitted :
      req.typed_unknown ≡ false
      → req.unknown_calldata ≡ true
      → IsAllowed
      → TrustsContract p lim req ⊎ Exists (AdmitsCall req) p.contracts_allowed
  allowed-call_admitted t u h =
      stage_unknown_calldata-none p lim req u (evaluate-Passes p req w now t h).calldata

  -- Unrecognised typed data is allowed only on the chain it names, and by an entry for its chain,
  -- contract and primary type or by the disposition "allow".
  pub allowed-typed_admitted :
      req.typed_unknown ≡ true
      → IsAllowed
      → (has_chain_mismatch req ≡ false)
        × (Exists (AdmitsTyped req) p.typed_data.allowed ⊎ (says_allow lim.typed_unknown ≡ true))
  unfolding evaluate
  allowed-typed_admitted t h =
      stage_typed_data-none p lim req t
        (collect-nil (stage_typed_data p lim req ∷ [])
          (verdict-allowed _ (then_allowed req.typed_unknown _ _ t h))).0

  -- A smaller spend window never turns an allowed request into a refused one.
  pub evaluate-antitone :
      (w' : ℕ)
      → req.typed_unknown ≡ false
      → w' ≤ w
      → IsAllowed
      → (evaluate p req w' now).allowed ≡ true
  evaluate-antitone w' t le h =
      let ok = evaluate-Passes p req w now t h in
      Passes-evaluate p req w' now t (record {
        denylist = ok.denylist;
        allowlist = ok.allowlist;
        no_allowlist = ok.no_allowlist;
        pin_drift = ok.pin_drift;
        typed_data = ok.typed_data;
        calldata = ok.calldata;
        per_tx = ok.per_tx;
        unlimited = ok.unlimited;
        daily = stage_daily-antitone lim req w' w now le ok.daily;
        gas_cap = ok.gas_cap;
      })
