-- ===== src/Policy/Tests/Admin.antt =====
-- Mutations and rotations of a small sealed policy (internal/policy/admin.go).
use daxie.Prelude.{
  ℕ, ◌+◌, ◌≡◌, refl, sym, ap, ◌∙◌, true, false, Option, none, some, List, [], ◌∷◌, ◌++◌, replicate,
  arith,
}
use daxie.Prelude.Int.{pos}
use daxie.Prelude.Results.{ok}
use daxie.Prelude.Text.{Text, codes, text_eq, has_prefix, is_empty}
use daxie.Policy.Types.{Policy}
use daxie.Policy.Writer.{marshal_envelope}
use daxie.Policy.Seal.{
  Anchor, Head, key_prefix, load_policy, verify_under_anchor, verify_seal, decode_key,
}
use daxie.Policy.Seal.Verified.{Verified}
use daxie.Policy.Keys.{KeyPair, derive_seal_key, valid_params, is_key, commit_rotation, encode_key}
use daxie.Policy.Body.{upsert_pin}
use daxie.Policy.Admin.{
  Vault, AdminEnv, mutate, mutate_with, reseal, publish, raised, bumped, next_body, authenticate,
  with_salt, check_pinned, is_pinned, sealed,
}
use daxie.Policy.Admin.RoundTrip.{mutate-reloads}
use daxie.Policy.Admin.Seals.{change_admin_passphrase}
use daxie.Policy.Admin.Seals.Rotation.{commit-authenticates}
use daxie.Policy.Tests.Data.{policy, pin}
use daxie.Policy.Tests.Faithful.{crypto, crypto-IsFaithful}

abbrev pass : Text
pass = codes "pw"

abbrev anchor : Anchor
anchor = record {
  verify_key = key_prefix ++ replicate 32 2;
  verify_key_next = [];
  salt = codes "salt";
  scrypt = record { n = 16; r = 8; p = 1 };
  nonce_watermark = 7;
  staged_salt = [];
}

abbrev file : Text
file = marshal_envelope (codes "body") (replicate 64 0)

abbrev vault : Vault
vault = record { file = some file; anchor = some anchor }

abbrev env : AdminEnv
env = record { now = codes "t2"; fresh_salt = some (codes "pepper"); write = none }

loads : load_policy crypto.codec vault.file vault.anchor ≡ ok (some policy)
unfolding load_policy verify_under_anchor verify_seal decode_key text_eq has_prefix crypto
    daxie.Policy.Tests.Faithful.codec marshal_envelope daxie.Policy.Writer.json_string
    daxie.Policy.Writer.commas daxie.Policy.Writer.escape_all daxie.Policy.Writer.escape
    daxie.Policy.Writer.Strings.read
loads = refl

abbrev deny : Policy → Policy
unfolding upsert_pin
deny p = record p { denylist = upsert_pin p.denylist (pin (codes "0xb2")) }

abbrev ahead : Anchor
ahead = record anchor { nonce_watermark = 8 }

abbrev body : Policy
body = next_body env.now [] none deny 7 policy

abbrev raw : Text
raw = sealed crypto body pass

abbrev after : Vault
after = record { file = some raw; anchor = some ahead }

mutated : mutate crypto env pass [] none deny vault ≡ (ok ahead, after)
unfolding mutate mutate_with authenticate with_salt check_pinned is_pinned reseal publish raised
    next_body bumped derive_seal_key valid_params is_key load_policy verify_under_anchor verify_seal
    decode_key text_eq has_prefix crypto daxie.Policy.Tests.Faithful.codec marshal_envelope
    daxie.Policy.Writer.json_string daxie.Policy.Writer.commas daxie.Policy.Writer.escape_all
    daxie.Policy.Writer.escape daxie.Policy.Writer.Strings.read deny
mutated = refl

abbrev head : Head
head = record { version = pos 1; nonce = 8; written_by = codes "daxie" }

mutate-reloads_example : load_policy crypto.codec after.file after.anchor ≡ ok (some policy)
unfolding crypto daxie.Policy.Tests.Faithful.codec text_eq next_body bumped deny
    daxie.Policy.Writer.write_body daxie.Policy.Writer.commas daxie.Policy.Writer.json_string
    daxie.Policy.Writer.escape_all daxie.Policy.Writer.escape
mutate-reloads_example =
    mutate-reloads crypto env pass [] none deny vault after anchor ahead refl mutated (omega arith)
      policy policy head crypto-IsFaithful loads refl refl refl refl

-- ── rotation ──

abbrev fresh_pass : Text
fresh_pass = codes "new"

abbrev rotating : Anchor
rotating = record anchor {
  verify_key_next = key_prefix ++ replicate 32 3;
  staged_salt = codes "pepper";
}

abbrev staged_vault : Vault
staged_vault = record vault { anchor = some rotating }

abbrev rotated : Anchor
rotated = record rotating {
  verify_key = key_prefix ++ replicate 32 3;
  verify_key_next = [];
  salt = codes "pepper";
  staged_salt = [];
  nonce_watermark = 8;
}

abbrev rotated_vault : Vault
rotated_vault = record {
  file = some (sealed crypto (record policy { nonce = 8; updated_at = codes "t2" }) fresh_pass);
  anchor = some rotated;
}

committed_ok :
    change_admin_passphrase crypto env pass fresh_pass false true staged_vault
    ≡ (ok rotated, rotated_vault)
unfolding change_admin_passphrase authenticate with_salt check_pinned is_pinned derive_seal_key
    valid_params is_key decode_key has_prefix text_eq crypto daxie.Policy.Tests.Faithful.codec
    commit_rotation encode_key raised publish load_policy verify_under_anchor verify_seal
    marshal_envelope daxie.Policy.Writer.json_string daxie.Policy.Writer.commas
    daxie.Policy.Writer.escape_all daxie.Policy.Writer.escape daxie.Policy.Writer.Strings.read
committed_ok = refl

commit-authenticates_example :
    (rotated_vault.anchor ≡ some rotated)
    × ((kp : KeyPair) × (authenticate crypto (some rotated) fresh_pass ≡ ok kp))
commit-authenticates_example =
    commit-authenticates crypto env pass fresh_pass staged_vault rotating rotated rotated_vault
      crypto-IsFaithful refl committed_ok
