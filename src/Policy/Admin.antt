-- ===== src/Policy/Admin.antt =====
-- Administration of the sealed policy (internal/policy/admin.go, typed_admin.go and
-- contract_admin.go). An operation gives its result, the anchor that the caller writes, and the vault
-- that it leaves.
pub mod Operations
pub mod Seals
pub mod Pipeline
pub mod Reload
pub mod RoundTrip
use daxie.Prelude.{
  ℕ, ◌+◌, ◌%◌, ◌^◌, Bool, true, false, not, ◌&&◌, ◌||◌, ◌==◌, Option, none, some, List, [], ◌∷◌,
  ltb, leb, if◌then◌else◌,
}
use daxie.Prelude.Results.{Result, ok, err}
use daxie.Prelude.Text.{Text, is_empty, to_lower, trim_space}
use daxie.Policy.Types.{Address, Policy, PinEntry, TypedAllow, ContractAllow}
use daxie.Policy.Store.{
  Error, admin_auth, state_error, seal_violation, bad_flags, bad_typed_allow, bad_contract_allow,
}
use daxie.Policy.Body.{
  Change, apply_change, default_policy, lower_all, upsert_pin, remove_pin, upsert_typed_allow,
  remove_typed_allow, upsert_contract_allow, remove_contract_allow, normalize_selector,
  is_selector_hex,
}
use daxie.Policy.Writer.{write_body, marshal_envelope}
use daxie.Policy.Seal.{Anchor, ScryptParams, decode_key, load_policy}
use daxie.Policy.Keys.{
  Crypto, KeyPair, derive_seal_key, sign, encode_key, is_key, stage_rotation, RotatedFamily,
  commit_rotation,
}

-- The policy file and the anchor that the engine trusts.
pub record Vault : Type 0 where
  pub file : Option Text
  pub anchor : Option Anchor

-- What an operation comes to.
abbrev pub Outcome : Type 0
Outcome = Result Error Anchor × Vault

-- A clock reading, a fresh salt if entropy allows, and what a write of the file answers.
pub record AdminEnv : Type 0 where
  pub now : Text
  pub fresh_salt : Option Text
  pub write : Option Error

abbrev pub u64 : ℕ
u64 = 2 ^ 64

-- The watermark never falls.
unfoldable pub raised : Anchor → ℕ → Anchor
raised a nonce = record a {
  nonce_watermark = if ltb a.nonce_watermark nonce then nonce else a.nonce_watermark;
}

unfoldable pub bumped : ℕ → ℕ → ℕ
bumped watermark nonce =
    let n = (nonce + 1) % u64 in if leb n watermark then (watermark + 1) % u64 else n

abbrev pub refreshed : Option (List Address) → List Text → List Text
refreshed none old = old
refreshed (some accounts) old = lower_all accounts

unfoldable pub next_body :
    Text → Text → Option (List Address) → (Policy → Policy) → ℕ → Policy → Policy
unfolding bumped
next_body now written_by accounts change watermark p =
    let q = change p in
    record q {
      nonce = bumped watermark q.nonce;
      written_by = if is_empty written_by then q.written_by else written_by;
      self_addresses = refreshed accounts q.self_addresses;
      updated_at = now;
    }

abbrev pub or_default : Text → Option Policy → Policy
or_default written_by none = default_policy written_by
or_default written_by (some p) = p

module _ (crypto : Crypto) where
  -- The pinned key, or else the staged one.
  unfoldable pub is_pinned : Anchor → Text → Bool
  unfolding is_key
  is_pinned a pk =
      is_key pk (decode_key crypto.codec a.verify_key)
      || (not (is_empty a.verify_key_next) && is_key pk (decode_key crypto.codec a.verify_key_next))

  unfoldable pub check_pinned : Anchor → Option KeyPair → Result Error KeyPair
  unfolding is_pinned
  check_pinned a none = err admin_auth
  check_pinned a (some kp) = if is_pinned a kp.public then ok kp else err admin_auth

  unfoldable pub with_salt : Anchor → Text → Option Text → Result Error KeyPair
  unfolding check_pinned
  with_salt a pass none = err state_error
  with_salt a pass (some salt) = check_pinned a (derive_seal_key crypto pass salt a.scrypt)

  -- The key family of the passphrase, if it is that of the anchor.
  unfoldable pub authenticate : Option Anchor → Text → Result Error KeyPair
  unfolding with_salt
  authenticate none pass = err admin_auth
  authenticate (some a) pass =
      if is_empty pass then err admin_auth else with_salt a pass (crypto.codec.base64 a.salt)

  unfoldable pub sealed : Policy → Text → Text
  sealed body sk =
      marshal_envelope (crypto.encode64 (write_body body))
        (crypto.encode64 (sign crypto (write_body body) sk))

  -- The write of the envelope, and the anchor that is trusted after it.
  unfoldable pub publish : Option Error → Policy → Text → Anchor → Vault → Outcome
  unfolding sealed
  publish none body sk a v = (ok a, record { file = some (sealed body sk); anchor = some a })
  publish (some e) body sk a v = (err e, v)

  -- ── the pipeline of a mutation ──

  unfoldable pub reseal :
      AdminEnv
      → Text
      → Option (List Address)
      → (Policy → Policy)
      → KeyPair
      → Anchor
      → Vault
      → Result Error (Option Policy)
      → Outcome
  unfolding next_body publish raised
  reseal env written_by accounts change kp a v (err e) = (err e, v)
  reseal env written_by accounts change kp a v (ok loaded) =
      let body =
        next_body env.now written_by accounts change a.nonce_watermark
          (or_default written_by loaded) in
      publish env.write body kp.private (raised a body.nonce) v

  unfoldable pub mutate_with :
      AdminEnv
      → Text
      → Option (List Address)
      → (Policy → Policy)
      → Vault
      → Option Anchor
      → Result Error KeyPair
      → Outcome
  unfolding reseal
  mutate_with env written_by accounts change v none res = (err admin_auth, v)
  mutate_with env written_by accounts change v (some a) (err e) = (err e, v)
  mutate_with env written_by accounts change v (some a) (ok kp) =
      reseal env written_by accounts change kp a v (load_policy crypto.codec v.file (some a))

  -- `mutate`
  unfoldable pub mutate :
      AdminEnv → Text → Text → Option (List Address) → (Policy → Policy) → Vault → Outcome
  unfolding mutate_with authenticate
  mutate env pass written_by accounts change v =
      mutate_with env written_by accounts change v v.anchor (authenticate v.anchor pass)
