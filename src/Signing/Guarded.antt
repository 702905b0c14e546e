-- ===== src/Signing/Guarded.antt =====
-- What a typed message that may be signed has passed (authorizeSignature of internal/service/sign.go
-- with Evaluate of internal/policy).
use daxie.Prelude.{
  ℕ, ◌+◌, ◌≡◌, ◌≢◌, ◌⊎◌, refl, sym, ap, ◌∙◌, inl, inr, Bool, true, false, Bool-cases, some, List,
  [], ◌∷◌, map, All, Exists, if◌then◌else◌, subst, false≢true,
}
use daxie.Prelude.Int.{ℤ}
use daxie.Prelude.Results.{Result, ok, err, err-ne-ok}
use daxie.Prelude.Text.{Text, codes, has_prefix}
use daxie.Policy.Types.{Address, Instant, Policy, Check, Decision, effective_kind}
use daxie.Policy.Limits.{resolve_limits}
use daxie.Policy.Stages.{token_hard_deny}
use daxie.Policy.Stages.Amounts.{is_approval, token_of}
use daxie.Policy.Stages.Messages.{has_chain_mismatch}
use daxie.Policy.Stages.Destination.Passing.{Pins, Names, Own}
use daxie.Policy.Evaluate.{evaluate}
use daxie.Policy.Evaluate.Safety.{
  allowed-not_denylisted, allowed-on_allowlist, allowed-unlimited_acked, allowed_permit-chain,
}
use daxie.Policy.Store.{Store, Env, Error}
use daxie.Policy.Reserve.{Call, engine_evaluate}
use daxie.Policy.Reserve.Agreement.{evaluate-Checked, same_verdict}
use daxie.Policy.Message.{Fields, get}
use daxie.Policy.TypedData.{SpendToken, TypedDataClass}
use daxie.Policy.Recognizers.{classify_typed_data_for, lower_addr}
use daxie.Policy.Recognizers.Summary.{classify_typed_data_summary}
use daxie.Signing.{
  Outcome, proceed, Domain, normalized_domain_map, read_domain_chain_id, mismatch, spend_check,
  or_contract, entries_of, unknown_check, evaluate_entries, evaluate_spend_equivalent,
  authorize_class, authorize_signature,
}

-- ── one question ──

-- The pipeline allowed the request, with some window at some time.
abbrev pub Passed : Policy → Check → Type 0
Passed p c = (w : ℕ) × (now : Instant) × ((evaluate p c w now).allowed ≡ true)

proceed-ok :
    (next : Store → Outcome) (out : Result Error Decision × Store) (st' : Store)
    → proceed next out ≡ (ok tt, st')
    → (dec : Decision) × (st1 : Store) × (out ≡ (ok dec, st1))
      × (dec.allowed ≡ true)
      × (next st1 ≡ (ok tt, st'))
unfolding proceed
proceed-ok next (err e, st) st' h = absurd (err-ne-ok _ tt (ap (λ p. p.0) h))
proceed-ok next (ok dec, st) st' h = elim (Bool-cases dec.allowed) [
  | inl y ↦ (dec, st, refl, y, rw y at h)
  | inr n ↦ absurd (err-ne-ok _ tt (ap (λ p. p.0) (rw n at h)))
]

answer-Passed :
    (env : Env) (call : Call) (p : Policy) (c : Check) (st st1 : Store) (dec : Decision)
    → engine_evaluate env call (ok (some p)) c st ≡ (ok dec, st1)
    → dec.allowed ≡ true
    → Passed p c
answer-Passed env call p c st st1 dec h allowed =
    let k = evaluate-Checked env call p c st st1 dec h in
    (k.spent, call.now, same_verdict env call p c st dec k ∙ allowed)

module _ (env : ℕ → Env) (call : ℕ → Call) (p : Policy) where
  evaluate_entries-Passed :
      (k : ℕ) (cs : List Check) (st st' : Store)
      → evaluate_entries env call (ok (some p)) k cs st ≡ (ok tt, st')
      → All (Passed p) cs
  unfolding evaluate_entries
  evaluate_entries-Passed k [] st st' h = tt
  evaluate_entries-Passed k (c ∷ cs) st st' h =
      let (dec, st1, e, y, g) =
        proceed-ok (evaluate_entries env call (ok (some p)) (k + 1) cs)
          (engine_evaluate (env k) (call k) (ok (some p)) c st) st' h in
      (
        answer-Passed (env k) (call k) p c st st1 dec e y,
        evaluate_entries-Passed (k + 1) cs st1 st' g,
      )

-- ── one token ──

module _ (to_address : Text → Address) (from : Address) (network : Text) (acked : Bool) (p : Policy)
    (c : TypedDataClass) where
  -- The gates that the request for a token has passed: an unlimited entry was acknowledged and no rule
  -- forbids it for the token, the spender is not on the denylist, and it is on the allowlist if that
  -- is on.
  abbrev pub Guarded : SpendToken → Type 0
  Guarded e =
      ((e.unlimited ≡ false)
        ⊎ ((acked ≡ true)
            × (token_hard_deny p.tokens network
                  (token_of (spend_check to_address from network acked c e))
                ≡ false)))
      × All (λ x. ¬ (Pins (to_address c.spender) x) × ¬ (Names c.primary x)) p.denylist
      × (((resolve_limits p network).allowlist_enabled ≡ false)
          ⊎ (Exists (Pins (to_address c.spender)) p.allowlist
              ⊎ (((resolve_limits p network).include_self ≡ true) × Own p (to_address c.spender))))

  Passed-Guarded :
      (e : SpendToken) → Passed p (spend_check to_address from network acked c e) → Guarded e
  unfolding spend_check is_approval effective_kind
  Passed-Guarded e (w, now, h) =
      let req = spend_check to_address from network acked c e in
      (
        elim (Bool-cases e.unlimited) [
          | inl y ↦ inr (allowed-unlimited_acked p req w now refl refl (rw y refl) h)
          | inr n ↦ inl n
        ],
        allowed-not_denylisted p req w now refl h,
        elim (Bool-cases (resolve_limits p network).allowlist_enabled) [
          | inl y ↦ inr (allowed-on_allowlist p req w now refl y refl h)
          | inr n ↦ inl n
        ],
      )

  Passed-open :
      (e : SpendToken) → Passed p (spend_check to_address from network acked c e) → c.denied ≡ false
  unfolding spend_check has_chain_mismatch has_prefix mismatch
  Passed-open e (w, now, h) = elim (Bool-cases c.denied) [
    | inr n ↦ n
    | inl y ↦
        let clean : has_prefix (if c.denied then mismatch c.chain_id else e.token)
              (codes "chain_mismatch")
            ≡ false =
          allowed_permit-chain p (spend_check to_address from network acked c e) w now refl refl
            h in
        absurd (false≢true (sym (rw y at clean)))
  ]

  All-Guarded :
      (es : List SpendToken)
      → All (Passed p) (map (spend_check to_address from network acked c) es)
      → All Guarded es
  All-Guarded [] h = tt
  All-Guarded (e ∷ es) h = (Passed-Guarded e h.0, All-Guarded es h.1)

  some_open :
      (es : List SpendToken)
      → es ≢ []
      → All (Passed p) (map (spend_check to_address from network acked c) es)
      → c.denied ≡ false
  some_open [] n h = absurd (n refl)
  some_open (e ∷ es) n h = Passed-open e h.0

or_contract-cons : (c : TypedDataClass) (ts : List SpendToken) → ts ≢ [] → or_contract c ts ≡ ts
or_contract-cons c [] n = absurd (n refl)
or_contract-cons c (t ∷ ts) n = refl

-- ── the whole message ──

module _ (env : ℕ → Env) (call : ℕ → Call) (is_hex_address : Text → Bool)
    (to_address : Text → Address) (p : Policy) (primary : Text) (d : Domain) (m : Fields)
    (from : Address) (network : Text) (active : ℤ) (acked : Bool) (st st' : Store)
    (authorized : authorize_signature env call
        (ok (some p))
        is_hex_address
        to_address
        primary
        d
        m
        from
        network
        active
        acked
        st
      ≡ (ok tt, st')) where
  abbrev pub class_of : TypedDataClass
  class_of =
      classify_typed_data_for is_hex_address to_address active primary (normalized_domain_map d) m

  abbrev pub unknown_request : Check
  unknown_request =
      unknown_check from network primary
        (lower_addr is_hex_address to_address
          (get (normalized_domain_map d) (codes "verifyingContract")))
        (read_domain_chain_id (normalized_domain_map d)) active

  -- Under a policy in force, a message that moves funds is signed only if its class is not denied for
  -- naming another chain, and for each of its tokens: an unlimited amount was acknowledged and no rule
  -- forbids it, the spender is not on the denylist, and with the allowlist on it is on it or is an
  -- included own account.
  pub authorized-Guarded :
      class_of.is_spend ≡ true
      → (class_of.denied ≡ false)
        × All (Guarded to_address from network acked p class_of) class_of.tokens
  unfolding authorize_signature authorize_class evaluate_spend_equivalent entries_of
  authorized-Guarded spend =
      let s =
        classify_typed_data_summary is_hex_address to_address active primary
          (normalized_domain_map d) m class_of refl spend in
      let all =
        subst (λ es. All (Passed p) (map (spend_check to_address from network acked class_of) es))
          (or_contract-cons class_of class_of.tokens s.1)
          (evaluate_entries-Passed env call p 0 _ st st' (rw spend at authorized)) in
      (
        some_open to_address from network acked p class_of class_of.tokens s.1 all,
        All-Guarded to_address from network acked p class_of class_of.tokens all,
      )
