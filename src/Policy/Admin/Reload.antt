-- ===== src/Policy/Admin/Reload.antt =====
-- Loading after a mutation (`mutate` of internal/policy/admin.go against loadPolicy of file.go).
use daxie.Prelude.{
  ℕ, ◌+◌, ◌%◌, ◌≡◌, ◌≤◌, ◌<◌, refl, sym, ap, ◌∙◌, inl, inr, true, false, Bool-cases, Option, some,
  arith, leb, subst, some-injective, length, ◌++◌, List,
}
use daxie.Prelude.Int.{ltb_ℤ}
use daxie.Prelude.Results.{ok, ok-injective, err-ne-ok}
use daxie.Prelude.Text.{Text}
use daxie.Policy.Types.{Policy}
use daxie.Policy.Writer.{write_body, marshal_envelope}
use daxie.Policy.Seal.{
  Anchor, Head, load_policy, decode_key, body_version, seal_domain, verify_seal,
}
use daxie.Policy.Seal.Complete.{IsKeyOf, load_policy_complete}
use daxie.Policy.Seal.Verified.{Verified}
use daxie.Policy.Keys.{
  Crypto, KeyPair, derive_seal_key, derive_seal_key-seed, sign, is_key, is_key-some,
}
use daxie.Policy.Admin.{
  Vault, Outcome, AdminEnv, u64, is_pinned, sealed, raised, bumped, next_body, mutate,
}
use daxie.Policy.Admin.Pipeline.{Resealed, Mutates, refused, resealed, mutate-Mutates}

pub bumped-lt : (watermark nonce : ℕ) → watermark + 1 < u64 → watermark < bumped watermark nonce
unfolding bumped
bumped-lt watermark nonce h = elim (Bool-cases (leb ((nonce + 1) % u64) watermark)) [
  | inl low ↦ rw low (omega arith)
  | inr high ↦ rw high (ground arith)
]

pub raised-eq : (a : Anchor) (n : ℕ) → a.nonce_watermark < n → (raised a n).nonce_watermark ≡ n
unfolding raised
raised-eq a n h = ground arith

new_body-nonce :
    (env : AdminEnv) (written_by : Text) (accounts : Option (List Text)) (change : Policy → Policy)
    (a : Anchor) (p : Policy)
    → (next_body env.now written_by accounts change a.nonce_watermark p).nonce
      ≡ bumped a.nonce_watermark (change p).nonce
unfolding next_body
new_body-nonce env written_by accounts change a p = refl

module _ (crypto : Crypto) (env : AdminEnv) (pass written_by : Text) (accounts : Option (List Text))
    (change : Policy → Policy) (v v' : Vault) (a b : Anchor) (pinned : v.anchor ≡ some a)
    (mutated : mutate crypto env pass written_by accounts change v ≡ (ok b, v'))
    (room : a.nonce_watermark + 1 < u64) where
  of_outcome :
      {out : Outcome}
      → Mutates crypto env pass written_by accounts change v out
      → out ≡ (ok b, v')
      → Resealed crypto env pass written_by accounts change v b v'
  of_outcome (refused e w h) eq = absurd (err-ne-ok e b (ap (λ p. p.0) eq))
  of_outcome (resealed c w r) eq =
      subst (λ (x : Anchor). Resealed crypto env pass written_by accounts change v x v')
        (ok-injective c b (ap (λ p. p.0) eq))
        (subst (λ (x : Vault). Resealed crypto env pass written_by accounts change v c x)
          (ap (λ p. p.1) eq) r)

  pub result : Resealed crypto env pass written_by accounts change v b v'
  result = of_outcome (mutate-Mutates crypto env pass written_by accounts change v) mutated

  pub same_anchor : result.anchor ≡ a
  same_anchor = some-injective result.anchor a (sym result.anchored ∙ pinned)

  -- The nonce that was sealed.
  sealed_nonce : ℕ
  sealed_nonce =
      (next_body env.now written_by accounts change a.nonce_watermark result.policy).nonce

-- ── what was sealed loads ──

-- What the code relies on of base64, JSON and ed25519: encoding is undone by decoding, also within an
-- envelope, keys and signatures have their size, and the signature of a key verifies under its public
-- half.
pub record IsFaithful (crypto : Crypto) : Type 0 where
  pub base64_back : (t : Text) → crypto.codec.base64 (crypto.encode64 t) ≡ some t
  pub envelope_back :
      (b s : Text)
      → crypto.codec.read_envelope (marshal_envelope (crypto.encode64 b) (crypto.encode64 s))
        ≡ some (record { body_b64 = crypto.encode64 b; sig = crypto.encode64 s })
  pub key_size : (seed : Text) → length (crypto.key_from_seed seed).public ≡ 32
  pub signature_size : (sk m : Text) → length (crypto.ed25519_sign sk m) ≡ 64
  pub verifies :
      (seed m : Text)
      → crypto.codec.ed25519_verify
          (crypto.key_from_seed seed).public
          m
          (crypto.ed25519_sign (crypto.key_from_seed seed).private m)
        ≡ true

pub pinned-IsKeyOf :
    (crypto : Crypto) (a : Anchor) (pk : Text)
    → is_pinned crypto a pk ≡ true
    → IsKeyOf crypto.codec a pk
unfolding is_pinned
pinned-IsKeyOf crypto a pk h =
    elim (Bool-cases (is_key pk (decode_key crypto.codec a.verify_key))) [
      | inl y ↦ inl (is_key-some pk (decode_key crypto.codec a.verify_key) y)
      | inr n ↦
          inr (
            ground arith,
            is_key-some pk (decode_key crypto.codec a.verify_key_next) (ground arith),
          )
    ]

module _ (crypto : Crypto) (faithful : IsFaithful crypto) where
  seed-verifies :
      (seed body : Text)
      → verify_seal crypto.codec body
          (sign crypto body (crypto.key_from_seed seed).private)
          (crypto.key_from_seed seed).public
        ≡ true
  unfolding verify_seal sign
  seed-verifies seed body =
      rw
        (
          faithful.key_size seed,
          faithful.signature_size (crypto.key_from_seed seed).private (seal_domain ++ body),
          faithful.verifies seed (seal_domain ++ body),
        )
        refl

  -- A body that is sealed by a derived key of an anchor loads under the anchor.
  pub sealed-loads :
      (a : Anchor) (pass salt : Text) (kp : KeyPair) (body q : Policy) (head : Head) (from : Anchor)
      → derive_seal_key crypto pass salt from.scrypt ≡ some kp
      → IsKeyOf crypto.codec a kp.public
      → crypto.codec.read_head (write_body body) ≡ some head
      → a.nonce_watermark ≤ head.nonce
      → ltb_ℤ body_version head.version ≡ false
      → crypto.codec.read_body (write_body body) ≡ some q
      → load_policy crypto.codec (some (sealed crypto body kp.private)) (some a) ≡ ok (some q)
  unfolding sealed
  sealed-loads a pass salt kp body q head from d k h n ver r =
      let (seed, e) = derive_seal_key-seed crypto pass salt from.scrypt kp d in
      load_policy_complete crypto.codec a _
        (record {
          body_b64 = crypto.encode64 (write_body body);
          sig = crypto.encode64 (sign crypto (write_body body) kp.private);
        })
        (write_body body) (sign crypto (write_body body) kp.private) kp.public head q
        (faithful.envelope_back _ _) (faithful.base64_back _) (faithful.base64_back _) k
        (subst
          (λ (x : KeyPair).
            verify_seal crypto.codec (write_body body) (sign crypto (write_body body) x.private)
              x.public
            ≡ true)
          e (seed-verifies seed (write_body body)))
        h n ver r
