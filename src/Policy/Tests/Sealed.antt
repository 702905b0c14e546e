-- ===== src/Policy/Tests/Sealed.antt =====
-- A sealed policy file and its loading (internal/policy/file.go).
use daxie.Prelude.{◌≡◌, refl, some, none, [], ◌++◌, replicate}
use daxie.Prelude.Int.{pos}
use daxie.Prelude.Results.{ok, err}
use daxie.Prelude.Text.{Text, codes, text_eq, has_prefix}
use daxie.Policy.Types.{Policy}
use daxie.Policy.Store.{Error}
use daxie.Policy.Reserve.{reserve, new_reservation}
use daxie.Policy.Reserve.Agreement.{calm}
use daxie.Policy.Seal.{
  Anchor, Codec, key_prefix, seal_domain, verify_seal, decode_key, verify_under_anchor, load_policy,
}
use daxie.Policy.Seal.Verified.{Verified, load_policy-Verified}
use daxie.Policy.Seal.Anchored.{anchored-reserve}
use daxie.Policy.Tests.Data.{policy, send, store}
use daxie.Policy.Tests.Runs.{lone, outcome, runs}

-- A codec for one file: text stands for itself, and one message is signed.
abbrev codec : Codec
codec = record {
  read_envelope = λ raw. some (record { body_b64 = raw; sig = replicate 64 65 });
  base64 = λ s. some s;
  ed25519_verify = λ pk message sig. text_eq message (seal_domain ++ codes "body");
  read_head = λ body. some (record { version = pos 1; nonce = 7; written_by = codes "daxie" });
  read_body = λ body. some policy;
}

abbrev anchor : Anchor
anchor = record {
  verify_key = key_prefix ++ replicate 32 66;
  verify_key_next = codes "";
  salt = codes "salt";
  scrypt = record { n = 16; r = 8; p = 1 };
  nonce_watermark = 7;
  staged_salt = [];
}

abbrev ahead : Anchor
ahead = record anchor { nonce_watermark = 8 }

loads :
    (load_policy codec (some (codes "body")) (some anchor) ≡ ok (some policy))
    × (load_policy codec (some (codes "body")) (some ahead) ≡ err Error.rollback)
    × (load_policy codec (some (codes "other")) (some anchor) ≡ err Error.seal_violation)
    × (load_policy codec none (some anchor) ≡ err Error.seal_violation)
unfolding load_policy verify_under_anchor verify_seal decode_key text_eq has_prefix
loads = (refl, refl, refl, refl)

load_policy-Verified_example :
    (raw : Text) × (a : Anchor) × (some (codes "body") ≡ some raw)
    × (some anchor ≡ some a)
    × Verified codec raw a policy
load_policy-Verified_example =
    load_policy-Verified codec (some (codes "body")) (some anchor) policy loads.0

anchored-reserve_example :
    (p : Policy) × (raw : Text) × (some (codes "body") ≡ some raw)
    × Verified codec raw anchor p
    × (reserve calm lone (ok (some p)) send store
        ≡ (ok (new_reservation lone send), (outcome lone send).1))
unfolding load_policy verify_under_anchor verify_seal decode_key text_eq has_prefix
anchored-reserve_example =
    anchored-reserve codec (some (codes "body")) anchor calm lone send store (outcome lone send).1
      (new_reservation lone send) runs.0
