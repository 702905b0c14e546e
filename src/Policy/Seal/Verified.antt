-- ===== src/Policy/Seal/Verified.antt =====
-- What a loaded policy has passed (internal/policy/file.go, `loadPolicy`).
use daxie.Prelude.{
  ◌≡◌, ◌⊎◌, ◌≤◌, refl, inl, inr, Bool, true, false, Bool-cases, Option, none, some, ltb,
  ltb-false→le, if◌then◌else◌, arith,
}
use daxie.Prelude.Int.{ltb_ℤ, ◌≤ℤ◌}
use daxie.Prelude.Results.{Result, ok, err}
use daxie.Prelude.Text.{Text, is_empty}
use daxie.Policy.Types.{Policy}
use daxie.Policy.Store.{Error}
use daxie.Policy.Seal.{
  Envelope, Head, Anchor, Codec, body_version, verify_seal, decode_key, verifies_under,
  verify_under_anchor, decode_strict, check_head, check_seal, open_envelope, load_policy,
}

-- The body is sealed under a key of the anchor.
abbrev pub SealedBy : Codec → Anchor → Text → Text → Type 0
SealedBy codec anchor body sig =
    (pk : Text) × ((decode_key codec anchor.verify_key ≡ some pk)
      ⊎ (decode_key codec anchor.verify_key_next ≡ some pk))
    × (verify_seal codec body sig pk ≡ true)

-- What stands behind a policy that was loaded.
pub record Verified (codec : Codec) (raw : Text) (anchor : Anchor) (p : Policy) : Type 0 where
  pub env : Envelope
  pub body : Text
  pub sig : Text
  pub head : Head
  pub enveloped : codec.read_envelope raw ≡ some env
  pub body_decodes : codec.base64 env.body_b64 ≡ some body
  pub sig_decodes : codec.base64 env.sig ≡ some sig
  pub sealed : SealedBy codec anchor body sig
  pub head_reads : codec.read_head body ≡ some head
  pub fresh : anchor.nonce_watermark ≤ head.nonce
  pub known : head.version ≤ℤ body_version
  pub body_reads : codec.read_body body ≡ some p

under-key :
    (codec : Codec) (body sig : Text) (k : Option Text)
    → verifies_under codec body sig k ≡ true
    → (pk : Text) × (k ≡ some pk) × (verify_seal codec body sig pk ≡ true)
unfolding verifies_under
under-key codec body sig none h = cc
under-key codec body sig (some pk) h = (pk, refl, h)

guarded : (b x : Bool) → (if b then false else x) ≡ true → x ≡ true
guarded true x h = cc
guarded false x h = h

under-SealedBy :
    (codec : Codec) (body sig : Text) (anchor : Anchor)
    → verify_under_anchor codec body sig anchor ≡ true
    → SealedBy codec anchor body sig
unfolding verify_under_anchor
under-SealedBy codec body sig anchor h =
    elim (Bool-cases (verifies_under codec body sig (decode_key codec anchor.verify_key))) [
      | inl first ↦
          let (pk, e, v) = under-key codec body sig (decode_key codec anchor.verify_key) first in
          (pk, inl e, v)
      | inr no_ ↦
          let next = guarded (is_empty anchor.verify_key_next) _ (ground arith) in
          let (pk, e, v) =
            under-key codec body sig (decode_key codec anchor.verify_key_next) next in
          (pk, inr e, v)
    ]

-- A policy that the strict decoder gives.
strict-some :
    (o : Option Policy) (p : Policy)
    → ◌≡◌ {A = Result Error (Option Policy)} (decode_strict o) (ok (some p))
    → o ≡ some p
unfolding decode_strict
strict-some none p h = cc
strict-some (some q) p h = cc

if_ok :
    (b : Bool) (e : Error) (m : Result Error (Option Policy)) (p : Policy)
    → (if b then err e else m) ≡ ok (some p)
    → (b ≡ false) × (m ≡ ok (some p))
if_ok true e m p h = cc
if_ok false e m p h = (refl, h)

ok_if :
    (b : Bool) (e : Error) (m : Result Error (Option Policy)) (p : Policy)
    → (if b then m else err e) ≡ ok (some p)
    → (b ≡ true) × (m ≡ ok (some p))
ok_if true e m p h = (refl, h)
ok_if false e m p h = cc

-- What the checks after the seal have found.
record Accepted (codec : Codec) (anchor : Anchor) (body : Text) (o : Option Head) (p : Policy)
    : Type 0 where
  head : Head
  reads : o ≡ some head
  fresh : anchor.nonce_watermark ≤ head.nonce
  known : head.version ≤ℤ body_version
  strict : codec.read_body body ≡ some p

head-Accepted :
    (codec : Codec) (anchor : Anchor) (body : Text) (o : Option Head) (p : Policy)
    → check_head codec anchor body o ≡ ok (some p)
    → Accepted codec anchor body o p
unfolding check_head
head-Accepted codec anchor body none p h = cc
head-Accepted codec anchor body (some head) p h =
    let (not_old, h1) = if_ok (ltb head.nonce anchor.nonce_watermark) Error.rollback _ p h in
    let (not_new, h2) = if_ok (ltb_ℤ body_version head.version) Error.seal_violation _ p h1 in
    record {
      head = head;
      reads = refl;
      fresh = ltb-false→le head.nonce anchor.nonce_watermark not_old;
      known = ltb-false→le _ _ not_new;
      strict = strict-some (codec.read_body body) p h2;
    }

seal-Accepted :
    (codec : Codec) (anchor : Anchor) (b s : Option Text) (p : Policy)
    → check_seal codec anchor b s ≡ ok (some p)
    → (body sig : Text) × (b ≡ some body)
      × (s ≡ some sig)
      × SealedBy codec anchor body sig
      × Accepted codec anchor body (codec.read_head body) p
unfolding check_seal
seal-Accepted codec anchor none s p h = cc
seal-Accepted codec anchor (some body) none p h = cc
seal-Accepted codec anchor (some body) (some sig) p h =
    let (verified, h1) =
      ok_if (verify_under_anchor codec body sig anchor) Error.seal_violation _ p h in
    (
      body,
      sig,
      refl,
      refl,
      under-SealedBy codec body sig anchor verified,
      head-Accepted codec anchor body (codec.read_head body) p h1,
    )

open-Verified :
    (codec : Codec) (raw : Text) (anchor : Anchor) (o : Option Envelope) (p : Policy)
    → codec.read_envelope raw ≡ o
    → open_envelope codec anchor o ≡ ok (some p)
    → Verified codec raw anchor p
unfolding open_envelope
open-Verified codec raw anchor none p e h = cc
open-Verified codec raw anchor (some env) p e h =
    let (body, sig, b, s, sealed, a) =
      seal-Accepted codec anchor (codec.base64 env.body_b64) (codec.base64 env.sig) p h in
    record {
      env = env;
      body = body;
      sig = sig;
      head = a.head;
      enveloped = e;
      body_decodes = b;
      sig_decodes = s;
      sealed = sealed;
      head_reads = a.reads;
      fresh = a.fresh;
      known = a.known;
      body_reads = a.strict;
    }

-- A policy that loads comes from a file under a pinned anchor: its envelope, body and signature
-- decode, the seal verifies under the pinned or the staged key, the nonce is not below the anchor's
-- watermark, the body version is not newer than the program's, and the body decodes strictly to that
-- policy.
pub load_policy-Verified :
    (codec : Codec) (file : Option Text) (pinned : Option Anchor) (p : Policy)
    → load_policy codec file pinned ≡ ok (some p)
    → (raw : Text) × (anchor : Anchor) × (file ≡ some raw)
      × (pinned ≡ some anchor)
      × Verified codec raw anchor p
unfolding load_policy
load_policy-Verified codec none none p h = cc
load_policy-Verified codec none (some anchor) p h = cc
load_policy-Verified codec (some raw) none p h = cc
load_policy-Verified codec (some raw) (some anchor) p h =
    (raw, anchor, refl, refl, open-Verified codec raw anchor (codec.read_envelope raw) p refl h)
