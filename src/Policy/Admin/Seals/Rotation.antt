-- ===== src/Policy/Admin/Seals/Rotation.antt =====
-- The staged rotation of the administrator's passphrase (ChangeAdminPassphrase of
-- internal/policy/admin.go, with internal/policyseal/rotation.go).
use daxie.Prelude.{
  ℕ, ◌≡◌, refl, sym, ap, ◌∙◌, inl, inr, true, false, Bool-cases, Option, none, some, subst, length,
}
use daxie.Prelude.Results.{Result, ok, err, ok-injective, err-ne-ok}
use daxie.Prelude.Text.{Text, is_empty, has_prefix, text_eq_refl}
use daxie.Policy.Types.{Policy}
use daxie.Policy.Store.{Error, admin_auth, seal_violation}
use daxie.Policy.Seal.{Anchor, decode_key, load_policy}
use daxie.Policy.Seal.Verified.{Verified}
use daxie.Policy.Keys.{
  Crypto, KeyPair, RotatedFamily, commit_rotation, commit_rotation-ok, encode_key, is_key,
  derive_seal_key, derive_seal_key-seed,
}
use daxie.Policy.Admin.{
  Vault, Outcome, AdminEnv, authenticate, with_salt, check_pinned, is_pinned, raised, publish,
}
use daxie.Policy.Admin.Reload.{IsFaithful}
use daxie.Policy.Admin.Seals.{
  rotate, rotate_anchor, change_admin_passphrase, promoted, commit_body, committed,
}

module _ (crypto : Crypto) (env : AdminEnv) (pass fresh_pass : Text) (v : Vault) (a b : Anchor)
    (v' : Vault) where
  -- What stands behind a rotation that was staged.
  record Staged : Type 0 where
    key : Text
    salt : Text
    kept_file : v'.file ≡ v.file
    trusted : v'.anchor ≡ some b
    anchor : b ≡ record a { verify_key_next = key; staged_salt = crypto.encode64 salt }

decode-encode :
    (crypto : Crypto) (pk : Text)
    → IsFaithful crypto
    → length pk ≡ 32
    → decode_key crypto.codec (encode_key crypto pk) ≡ some pk
unfolding decode_key encode_key has_prefix
decode-encode crypto pk faithful n = rw (faithful.base64_back pk, n) refl

module _ (crypto : Crypto) (env : AdminEnv) (pass fresh_pass : Text) (v : Vault) (a b : Anchor)
    (v' : Vault) where
  -- What stands behind a rotation that was committed.
  record Committed : Type 0 where
    family : RotatedFamily
    nonce : ℕ
    trusted : v'.anchor ≡ some b
    derives : derive_seal_key crypto fresh_pass family.salt a.scrypt ≡ some family.pair
    anchor : b ≡ raised (promoted crypto a family) nonce

  publish-Committed :
      (w : Option Error) (body : Policy) (sk : Text) (c : Anchor)
      → publish crypto w body sk c v ≡ (ok b, v')
      → (v'.anchor ≡ some b) × (b ≡ c)
  unfolding publish
  publish-Committed (some e) body sk c h = absurd (err-ne-ok e b (ap (λ p. p.0) h))
  publish-Committed none body sk c h =
      let e = ok-injective c b (ap (λ p. p.0) h) in
      (ap (λ (p : Outcome). p.1.anchor) (sym h) ∙ ap some e, sym e)

  body-Committed :
      (fam : RotatedFamily) (l : Result Error (Option Policy))
      → derive_seal_key crypto fresh_pass fam.salt a.scrypt ≡ some fam.pair
      → commit_body crypto env pass a v fam l ≡ (ok b, v')
      → Committed
  unfolding commit_body
  body-Committed fam (err e) d h = absurd (err-ne-ok e b (ap (λ p. p.0) h))
  body-Committed fam (ok none) d h = absurd (err-ne-ok seal_violation b (ap (λ p. p.0) h))
  body-Committed fam (ok (some p)) d h =
      let k = publish-Committed env.write _ fam.pair.private _ h in
      record { family = fam; nonce = _; trusted = k.0; derives = d; anchor = k.1 }

  committed-Committed :
      (res : Result Error RotatedFamily)
      → commit_rotation crypto fresh_pass a ≡ res
      → committed crypto env pass a v res ≡ (ok b, v')
      → Committed
  unfolding committed
  committed-Committed (err e) d h = absurd (err-ne-ok e b (ap (λ p. p.0) h))
  committed-Committed (ok fam) d h =
      body-Committed fam (load_policy crypto.codec v.file (some a))
        (commit_rotation-ok crypto fresh_pass a fam d) h

  rotate-Committed :
      (res : Result Error KeyPair)
      → rotate crypto env pass fresh_pass false a v res ≡ (ok b, v')
      → Committed × (is_empty fresh_pass ≡ false)
  unfolding rotate
  rotate-Committed (err e) h = absurd (err-ne-ok e b (ap (λ p. p.0) h))
  rotate-Committed (ok kp) h = elim (Bool-cases (is_empty fresh_pass)) [
    | inl y ↦ absurd (err-ne-ok admin_auth b (ap (λ p. p.0) (rw y at h)))
    | inr n ↦ (committed-Committed (commit_rotation crypto fresh_pass a) refl (rw n at h), n)
  ]

  promoted-authenticates :
      (fam : RotatedFamily) (n : ℕ)
      → IsFaithful crypto
      → is_empty fresh_pass ≡ false
      → derive_seal_key crypto fresh_pass fam.salt a.scrypt ≡ some fam.pair
      → length fam.pair.public ≡ 32
      → authenticate crypto (some (raised (promoted crypto a fam) n)) fresh_pass ≡ ok fam.pair
  unfolding authenticate with_salt check_pinned is_pinned is_key raised
  promoted-authenticates fam n faithful given derives size =
      rw
        (
          given,
          faithful.base64_back fam.salt,
          derives,
          decode-encode crypto fam.pair.public faithful size,
          text_eq_refl fam.pair.public,
        )
        refl

  -- After a rotation was committed, the new passphrase authenticates under the new anchor, provided
  -- encodings are undone by decoding and keys have their size.
  pub commit-authenticates :
      IsFaithful crypto
      → v.anchor ≡ some a
      → change_admin_passphrase crypto env pass fresh_pass false true v ≡ (ok b, v')
      → (v'.anchor ≡ some b) × ((kp : KeyPair) × (authenticate crypto (some b) fresh_pass ≡ ok kp))
  unfolding change_admin_passphrase rotate_anchor
  commit-authenticates faithful pinned h =
      let (c, n) =
        rotate-Committed (authenticate crypto (some a) pass)
          (subst (λ o. rotate_anchor crypto env pass fresh_pass false v o ≡ (ok b, v')) pinned h) in
      let (seed, s) =
        derive_seal_key-seed crypto fresh_pass c.family.salt a.scrypt c.family.pair c.derives in
      let size : length c.family.pair.public ≡ 32 =
        subst (λ (k : KeyPair). length k.public ≡ 32) s (faithful.key_size seed) in
      (
        c.trusted,
        (
          c.family.pair,
          ap (λ x. authenticate crypto (some x) fresh_pass) c.anchor
              ∙ promoted-authenticates c.family c.nonce faithful n c.derives size,
        ),
      )
