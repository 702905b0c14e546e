-- ===== src/Policy/Admin/Pipeline.antt =====
-- What a mutation of the sealed policy comes to (`mutate` and `authenticate` of
-- internal/policy/admin.go, with loadPolicy of file.go).
use daxie.Prelude.{◌≡◌, refl, ap, inl, inr, true, Bool-cases, Option, none, some, List, subst}
use daxie.Prelude.Results.{Result, ok, err, ok-injective, err-ne-ok}
use daxie.Prelude.Text.{Text, is_empty}
use daxie.Policy.Types.{Address, Policy}
use daxie.Policy.Store.{Error, admin_auth, state_error}
use daxie.Policy.Seal.{Anchor, load_policy}
use daxie.Policy.Seal.Anchored.{Settled, anchored-Settled}
use daxie.Policy.Keys.{Crypto, KeyPair, derive_seal_key}
use daxie.Policy.Admin.{
  Vault, Outcome, AdminEnv, is_pinned, check_pinned, with_salt, authenticate, sealed, publish,
  raised, next_body, reseal, mutate_with, mutate,
}

-- ── authentication ──

-- The passphrase derives a key of the anchor.
pub record Authentic (crypto : Crypto) (a : Anchor) (pass : Text) (kp : KeyPair) : Type 0 where
  pub salt : Text
  pub salted : crypto.codec.base64 a.salt ≡ some salt
  pub derived : derive_seal_key crypto pass salt a.scrypt ≡ some kp
  pub pinned : is_pinned crypto a kp.public ≡ true

module _ (crypto : Crypto) (a : Anchor) (pass : Text) (kp : KeyPair) where
  check_pinned-ok :
      (o : Option KeyPair)
      → check_pinned crypto a o ≡ ok kp
      → (o ≡ some kp) × (is_pinned crypto a kp.public ≡ true)
  unfolding check_pinned
  check_pinned-ok none h = absurd (err-ne-ok admin_auth kp h)
  check_pinned-ok (some k) h = elim (Bool-cases (is_pinned crypto a k.public)) [
    | inl y ↦
        let e = ok-injective k kp (rw y at h) in
        (ap some e, subst (λ (x : KeyPair). is_pinned crypto a x.public ≡ true) e y)
    | inr n ↦ absurd (err-ne-ok admin_auth kp (rw n at h))
  ]

  with_salt-ok :
      (o : Option Text)
      → crypto.codec.base64 a.salt ≡ o
      → with_salt crypto a pass o ≡ ok kp
      → Authentic crypto a pass kp
  unfolding with_salt
  with_salt-ok none e h = absurd (err-ne-ok state_error kp h)
  with_salt-ok (some s) e h =
      let k = check_pinned-ok (derive_seal_key crypto pass s a.scrypt) h in
      record { salt = s; salted = e; derived = k.0; pinned = k.1 }

  pub authenticate-ok : authenticate crypto (some a) pass ≡ ok kp → Authentic crypto a pass kp
  unfolding authenticate
  authenticate-ok h = elim (Bool-cases (is_empty pass)) [
    | inl y ↦ absurd (err-ne-ok admin_auth kp (rw y at h))
    | inr n ↦ with_salt-ok (crypto.codec.base64 a.salt) refl (rw n at h)
  ]

-- ── the outcomes ──

module _ (crypto : Crypto) (env : AdminEnv) (pass written_by : Text)
    (accounts : Option (List Address)) (change : Policy → Policy) (v : Vault) where
  -- The body that a mutation seals.
  abbrev pub new_body : Anchor → Policy → Policy
  new_body a p = next_body env.now written_by accounts change a.nonce_watermark p

  -- What stands behind a mutation that succeeded.
  pub record Resealed (b : Anchor) (v' : Vault) : Type 0 where
    pub anchor : Anchor
    pub pair : KeyPair
    pub policy : Policy
    pub anchored : v.anchor ≡ some anchor
    pub authentic : Authentic crypto anchor pass pair
    pub loaded : load_policy crypto.codec v.file (some anchor) ≡ ok (some policy)
    pub trusted : b ≡ raised anchor (new_body anchor policy).nonce
    pub left : v' ≡ record {
      file = some (sealed crypto (new_body anchor policy) pair.private);
      anchor = some b;
    }

  pub data Mutates : Outcome → Type 0 where
    refused : (e : Error) (v' : Vault) → v' ≡ v → Mutates (err e, v')
    resealed : (b : Anchor) (v' : Vault) → Resealed b v' → Mutates (ok b, v')

  publish-Mutates :
      (w : Option Error) (a : Anchor) (kp : KeyPair) (p : Policy)
      → v.anchor ≡ some a
      → Authentic crypto a pass kp
      → load_policy crypto.codec v.file (some a) ≡ ok (some p)
      → Mutates (publish crypto w (new_body a p) kp.private (raised a (new_body a p).nonce) v)
  unfolding publish
  publish-Mutates (some e) a kp p va au l = refused e v refl
  publish-Mutates none a kp p va au l = resealed _ _ (record {
    anchor = a;
    pair = kp;
    policy = p;
    anchored = va;
    authentic = au;
    loaded = l;
    trusted = refl;
    left = refl;
  })

  reseal-Mutates :
      (a : Anchor) (kp : KeyPair) (l : Result Error (Option Policy))
      → v.anchor ≡ some a
      → Authentic crypto a pass kp
      → load_policy crypto.codec v.file (some a) ≡ l
      → Settled l
      → Mutates (reseal crypto env written_by accounts change kp a v l)
  unfolding reseal
  reseal-Mutates a kp (err e) va au h s = refused e v refl
  reseal-Mutates a kp (ok none) va au h s = absurd s
  reseal-Mutates a kp (ok (some p)) va au h s = publish-Mutates env.write a kp p va au h

  with-Mutates :
      (o : Option Anchor) (res : Result Error KeyPair)
      → v.anchor ≡ o
      → authenticate crypto o pass ≡ res
      → Mutates (mutate_with crypto env written_by accounts change v o res)
  unfolding mutate_with
  with-Mutates none res va h = refused admin_auth v refl
  with-Mutates (some a) (err e) va h = refused e v refl
  with-Mutates (some a) (ok kp) va h =
      reseal-Mutates a kp (load_policy crypto.codec v.file (some a)) va
        (authenticate-ok crypto a pass kp h) refl (anchored-Settled crypto.codec v.file a)

  -- A mutation of the policy either fails and leaves the file and the anchor as they are, or it has
  -- succeeded: then the passphrase derives a key of the pinned anchor, the file before passed every
  -- check of a load under that anchor, the file is the sealed changed body, and the anchor is the old
  -- one with its watermark raised to the nonce of that body.
  pub mutate-Mutates : Mutates (mutate crypto env pass written_by accounts change v)
  unfolding mutate
  mutate-Mutates = with-Mutates v.anchor (authenticate crypto v.anchor pass) refl refl
