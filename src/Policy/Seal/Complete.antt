-- ===== src/Policy/Seal/Complete.antt =====
-- A file that passes every check loads (internal/policy/file.go, `loadPolicy`).
use daxie.Prelude.{◌≡◌, ◌⊎◌, ◌≤◌, refl, inl, inr, true, false, some, ltb, arith}
use daxie.Prelude.Int.{ltb_ℤ}
use daxie.Prelude.Results.{ok}
use daxie.Prelude.Text.{Text, is_empty}
use daxie.Policy.Types.{Policy}
use daxie.Policy.Seal.{
  Envelope, Head, Anchor, Codec, body_version, verify_seal, decode_key, verifies_under,
  verify_under_anchor, decode_strict, check_head, check_seal, open_envelope, load_policy,
}

-- The key is the pinned one, or the staged one if there is one.
abbrev pub IsKeyOf : Codec → Anchor → Text → Type 0
IsKeyOf codec anchor pk =
    (decode_key codec anchor.verify_key ≡ some pk)
    ⊎ ((is_empty anchor.verify_key_next ≡ false)
        × (decode_key codec anchor.verify_key_next ≡ some pk))

under-key :
    (codec : Codec) (anchor : Anchor) (body sig pk : Text)
    → IsKeyOf codec anchor pk
    → verify_seal codec body sig pk ≡ true
    → verify_under_anchor codec body sig anchor ≡ true
unfolding verify_under_anchor verifies_under
under-key codec anchor body sig pk (inl k) v = rw (k, v) refl
under-key codec anchor body sig pk (inr k) v = rw (k.0, k.1, v) (ground arith)

pub load_policy_complete :
    (codec : Codec) (anchor : Anchor) (raw : Text) (env : Envelope) (body sig pk : Text)
    (head : Head) (p : Policy)
    → codec.read_envelope raw ≡ some env
    → codec.base64 env.body_b64 ≡ some body
    → codec.base64 env.sig ≡ some sig
    → IsKeyOf codec anchor pk
    → verify_seal codec body sig pk ≡ true
    → codec.read_head body ≡ some head
    → anchor.nonce_watermark ≤ head.nonce
    → ltb_ℤ body_version head.version ≡ false
    → codec.read_body body ≡ some p
    → load_policy codec (some raw) (some anchor) ≡ ok (some p)
unfolding load_policy open_envelope check_seal check_head decode_strict
load_policy_complete codec anchor raw env body sig pk head p e b s k v h n ver r =
    let fresh : ltb head.nonce anchor.nonce_watermark ≡ false = ground arith in
    rw (e, b, s, under-key codec anchor body sig pk k v, h, fresh, ver, r) refl
