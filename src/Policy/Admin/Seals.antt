-- ===== src/Policy/Admin/Seals.antt =====
-- The first seal, the reset and the rotation (internal/policy/admin.go).
pub mod Rotation
use daxie.Prelude.{
  ℕ, ◌+◌, ◌%◌, Bool, true, false, not, ◌&&◌, ◌||◌, ◌==◌, Option, none, some, List, [], ◌∷◌, find,
  if◌then◌else◌,
}
use daxie.Prelude.Results.{Result, ok, err}
use daxie.Prelude.Text.{Text, text_eq, is_empty, to_lower, trim_space, equal_fold}
use daxie.Policy.Types.{Address, Policy, PinEntry, TypedAllow, ContractAllow}
use daxie.Policy.Store.{
  Error, admin_auth, state_error, seal_violation, bad_flags, bad_typed_allow, bad_contract_allow,
}
use daxie.Policy.Body.{
  Change, apply_change, default_policy, lower_all, upsert_pin, remove_pin, upsert_typed_allow,
  remove_typed_allow, upsert_contract_allow, remove_contract_allow, normalize_selector,
  is_selector_hex,
}
use daxie.Policy.Seal.{Anchor, ScryptParams, load_policy}
use daxie.Policy.Keys.{
  Crypto, KeyPair, derive_seal_key, encode_key, stage_rotation, RotatedFamily, commit_rotation,
}
use daxie.Policy.Admin.{
  Vault, Outcome, AdminEnv, u64, authenticate, publish, raised, refreshed, mutate,
}
use daxie.Policy.Admin.Operations.{default_params}

-- The staged family becomes the current one.
abbrev pub promoted : Crypto → Anchor → RotatedFamily → Anchor
promoted crypto a fam = record a {
  verify_key = encode_key crypto fam.pair.public;
  verify_key_next = [];
  salt = crypto.encode64 fam.salt;
  staged_salt = [];
}

module _ (crypto : Crypto) (env : AdminEnv) (pass : Text) where
  -- ── the first policy ──

  new_anchor : Text → Option KeyPair → Result Error Anchor
  new_anchor salt none = err admin_auth
  new_anchor salt (some kp) = ok (record {
    verify_key = encode_key crypto kp.public;
    verify_key_next = [];
    salt = crypto.encode64 salt;
    scrypt = default_params;
    nonce_watermark = 0;
    staged_salt = [];
  })

  anchor_from : Option Text → Result Error Anchor
  unfolding new_anchor derive_seal_key
  anchor_from none = err state_error
  anchor_from (some salt) = new_anchor salt (derive_seal_key crypto pass salt default_params)

  -- `InitSeal`, which does not replace an anchor.
  unfoldable pub init_seal : Option Anchor → Result Error Anchor
  unfolding anchor_from
  init_seal (some a) = err admin_auth
  init_seal none = if is_empty pass then err admin_auth else anchor_from env.fresh_salt

  seal_first : Policy → Anchor → Vault → Option KeyPair → Outcome
  seal_first body a v none = (err admin_auth, v)
  seal_first body a v (some kp) =
      publish crypto env.write body kp.private (record a { nonce_watermark = 1 }) v

  seal_salted : Policy → Anchor → Vault → Option Text → Outcome
  unfolding seal_first derive_seal_key
  seal_salted body a v none = (err state_error, v)
  seal_salted body a v (some salt) = seal_first body a v (derive_seal_key crypto pass salt a.scrypt)

  seal_new : Policy → Vault → Result Error Anchor → Outcome
  unfolding seal_salted
  seal_new body v (err e) = (err e, v)
  seal_new body v (ok a) = seal_salted body a v (crypto.codec.base64 a.salt)

  abbrev pub first_body : Change → Policy
  first_body c = record (apply_change (default_policy c.written_by) c) {
    self_addresses = refreshed c.refresh_self [];
    nonce = 1;
    updated_at = env.now;
  }

  set_with : Change → Vault → Option Anchor → Outcome
  unfolding seal_new init_seal mutate
  set_with c v none = seal_new (first_body c) v (init_seal none)
  set_with c v (some a) =
      mutate crypto env pass c.written_by c.refresh_self (λ p. apply_change p c) v

  -- `Set`: the first one makes the anchor.
  unfoldable pub set : Change → Vault → Outcome
  unfolding set_with
  set c v = set_with c v v.anchor

  -- ── reset and rotation ──

  reset_with : Text → List Address → Vault → Option Anchor → Result Error KeyPair → Outcome
  reset_with written_by accounts v none res = (err admin_auth, v)
  reset_with written_by accounts v (some a) (err e) = (err e, v)
  reset_with written_by accounts v (some a) (ok kp) =
      let n = (a.nonce_watermark + 1) % u64 in
      publish crypto env.write
        (record (default_policy written_by) {
          nonce = n;
          self_addresses = lower_all accounts;
          updated_at = env.now;
        })
        kp.private (record a { nonce_watermark = n }) v

  -- `ResetForce`, which reads no file.
  unfoldable pub reset_force : Text → List Address → Vault → Outcome
  unfolding reset_with authenticate
  reset_force written_by accounts v =
      reset_with written_by accounts v v.anchor (authenticate crypto v.anchor pass)

  staged : Anchor → Vault → Option (Text × Text) → Outcome
  staged a v none = (err admin_auth, v)
  staged a v (some (key, salt)) =
      let b = record a { verify_key_next = key; staged_salt = crypto.encode64 salt } in
      (ok b, record v { anchor = some b })

  -- With an anchor the load gives a policy or an error.
  commit_body : Anchor → Vault → RotatedFamily → Result Error (Option Policy) → Outcome
  unfolding publish raised
  commit_body a v fam (err e) = (err e, v)
  commit_body a v fam (ok none) = (err seal_violation, v)
  commit_body a v fam (ok (some p)) =
      let body = record p { nonce = (p.nonce + 1) % u64; updated_at = env.now } in
      publish crypto env.write body fam.pair.private (raised (promoted crypto a fam) body.nonce) v

  committed : Anchor → Vault → Result Error RotatedFamily → Outcome
  unfolding commit_body
  committed a v (err e) = (err e, v)
  committed a v (ok fam) = commit_body a v fam (load_policy crypto.codec v.file (some a))

  rotate : Text → Bool → Anchor → Vault → Result Error KeyPair → Outcome
  unfolding staged committed stage_rotation commit_rotation
  rotate fresh_pass stage a v (err e) = (err e, v)
  rotate fresh_pass stage a v (ok kp) =
      if is_empty fresh_pass
      then (err admin_auth, v)
      else if stage
      then staged a v (stage_rotation crypto env.fresh_salt fresh_pass a.scrypt)
      else committed a v (commit_rotation crypto fresh_pass a)

  rotate_anchor : Text → Bool → Vault → Option Anchor → Outcome
  unfolding rotate authenticate
  rotate_anchor fresh_pass stage v none = (err seal_violation, v)
  rotate_anchor fresh_pass stage v (some a) =
      rotate fresh_pass stage a v (authenticate crypto (some a) pass)

  -- `ChangeAdminPassphrase` with one of its flags.
  unfoldable pub change_admin_passphrase : Text → Bool → Bool → Vault → Outcome
  unfolding rotate_anchor
  change_admin_passphrase fresh_pass stage commit v =
      if (if stage then commit else not commit)
      then (err bad_flags, v)
      else rotate_anchor fresh_pass stage v v.anchor
