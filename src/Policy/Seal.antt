-- ===== src/Policy/Seal.antt =====
-- Loading the sealed policy (internal/policy/file.go, `loadPolicy`; internal/policyseal/seal.go and
-- anchor.go). What JSON, base64 and ed25519 answer is a `Codec`, an argument of the definitions.
pub mod Verified
pub mod Anchored
pub mod Complete
use daxie.Prelude.{
  ℕ, Bool, true, false, ◌&&◌, ◌||◌, ◌==◌, Option, none, some, [], ◌∷◌, ◌++◌, ltb, length, drop,
  if◌then◌else◌,
}
use daxie.Prelude.Int.{ℤ, pos, ltb_ℤ}
use daxie.Prelude.Results.{Result, ok, err}
use daxie.Prelude.Text.{Text, codes, is_empty, has_prefix}
use daxie.Policy.Types.{Policy}
use daxie.Policy.Store.{Error}

-- The fields of the envelope that loading reads.
pub record Envelope : Type 0 where
  pub body_b64 : Text
  pub sig : Text

-- The permissive first read of the body.
pub record Head : Type 0 where
  pub version : ℤ
  pub nonce : ℕ
  pub written_by : Text

-- A cost below 1 is refused like 0.
pub record ScryptParams : Type 0 where
  pub n : ℕ
  pub r : ℕ
  pub p : ℕ

pub record Anchor : Type 0 where
  pub verify_key : Text
  pub verify_key_next : Text
  pub salt : Text
  pub scrypt : ScryptParams
  pub nonce_watermark : ℕ
  pub staged_salt : Text

-- `none` where the decoder fails. `read_body` is the strict decoding of a body, and
-- `ed25519_verify` takes the key, the message and the signature.
pub record Codec : Type 0 where
  pub read_envelope : Text → Option Envelope
  pub base64 : Text → Option Text
  pub ed25519_verify : Text → Text → Text → Bool
  pub read_head : Text → Option Head
  pub read_body : Text → Option Policy

-- ── the seal ──

abbrev pub seal_domain : Text
seal_domain = codes "daxie/policy/v1" ++ (10 ∷ [])

abbrev pub key_prefix : Text
key_prefix = codes "ed25519:"

abbrev pub body_version : ℤ
body_version = pos 1

unfoldable pub verify_seal : Codec → Text → Text → Text → Bool
verify_seal codec body sig pk =
    length pk == 32 && length sig == 64 && codec.ed25519_verify pk (seal_domain ++ body) sig

key_of_size : Option Text → Option Text
key_of_size none = none
key_of_size (some raw) = if length raw == 32 then some raw else none

unfoldable pub decode_key : Codec → Text → Option Text
unfolding key_of_size
decode_key codec s =
    if has_prefix s key_prefix
    then key_of_size (codec.base64 (drop (length key_prefix) s))
    else none

unfoldable verifies_under : Codec → Text → Text → Option Text → Bool
unfolding verify_seal
verifies_under codec body sig none = false
verifies_under codec body sig (some pk) = verify_seal codec body sig pk

-- The pinned key, or else the staged one.
unfoldable pub verify_under_anchor : Codec → Text → Text → Anchor → Bool
unfolding verifies_under decode_key
verify_under_anchor codec body sig anchor =
    verifies_under codec body sig (decode_key codec anchor.verify_key)
    || (if is_empty anchor.verify_key_next
        then false
        else verifies_under codec body sig (decode_key codec anchor.verify_key_next))

-- ── loading ──

unfoldable decode_strict : Option Policy → Result Error (Option Policy)
decode_strict none = err Error.seal_violation
decode_strict (some p) = ok (some p)

unfoldable check_head : Codec → Anchor → Text → Option Head → Result Error (Option Policy)
unfolding decode_strict
check_head codec anchor body none = err Error.seal_violation
check_head codec anchor body (some head) =
    if ltb head.nonce anchor.nonce_watermark
    then err Error.rollback
    else if ltb_ℤ body_version head.version
    then err Error.seal_violation
    else decode_strict (codec.read_body body)

unfoldable check_seal : Codec → Anchor → Option Text → Option Text → Result Error (Option Policy)
unfolding check_head
check_seal codec anchor none sig = err Error.seal_violation
check_seal codec anchor (some body) none = err Error.seal_violation
check_seal codec anchor (some body) (some sig) =
    if verify_under_anchor codec body sig anchor
    then check_head codec anchor body (codec.read_head body)
    else err Error.seal_violation

unfoldable open_envelope : Codec → Anchor → Option Envelope → Result Error (Option Policy)
unfolding check_seal
open_envelope codec anchor none = err Error.seal_violation
open_envelope codec anchor (some env) =
    check_seal codec anchor (codec.base64 env.body_b64) (codec.base64 env.sig)

-- The policy in force: none only without a policy file and without an anchor.
unfoldable pub load_policy : Codec → Option Text → Option Anchor → Result Error (Option Policy)
unfolding open_envelope
load_policy codec none none = ok none
load_policy codec none (some anchor) = err Error.seal_violation
load_policy codec (some raw) none = err Error.seal_violation
load_policy codec (some raw) (some anchor) = open_envelope codec anchor (codec.read_envelope raw)
