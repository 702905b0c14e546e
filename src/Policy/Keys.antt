-- ===== src/Policy/Keys.antt =====
-- The key family of the policy seal (internal/policyseal/seal.go, anchor.go and rotation.go). What
-- scrypt, HKDF, ed25519, base64 and the source of entropy answer is a `Crypto`, an argument of the
-- definitions.
use Prim.Native.Nat.{bit_and}
use daxie.Prelude.{
  ◌-◌, Bool, true, false, not, ◌||◌, ◌==◌, Option, none, some, [], ◌++◌, ltb, if◌then◌else◌, ◌≡◌,
  some-injective, ap, sym, refl, inl, inr, Bool-cases, subst,
}
use daxie.Prelude.Results.{Result, ok, err, ok-injective, err-ne-ok}
use daxie.Prelude.Text.{Text, codes, text_eq, text_eq_sound, is_empty}
use daxie.Policy.Store.{Error, admin_auth, no_staged_rotation}
use daxie.Policy.Seal.{Codec, Anchor, ScryptParams, seal_domain, key_prefix, decode_key}

pub record KeyPair : Type 0 where
  pub private : Text
  pub public : Text

pub record Crypto : Type 0 where
  pub codec : Codec
  pub encode64 : Text → Text
  pub scrypt : Text → Text → ScryptParams → Option Text
  pub hkdf : Text → Text → Option Text
  pub key_from_seed : Text → KeyPair
  pub ed25519_sign : Text → Text → Text

abbrev pub seed_info : Text
seed_info = codes "daxie/policy/sig-seed/v1"

-- `Valid`: the cost N is a power of two.
unfoldable pub valid_params : ScryptParams → Bool
valid_params p = if ltb p.n 2 || ltb p.r 1 || ltb p.p 1 then false else bit_and p.n (p.n - 1) == 0

key_of_seed : Crypto → Option Text → Option KeyPair
key_of_seed crypto none = none
key_of_seed crypto (some seed) = some (crypto.key_from_seed seed)

expand : Crypto → Option Text → Option KeyPair
unfolding key_of_seed
expand crypto none = none
expand crypto (some master) = key_of_seed crypto (crypto.hkdf master seed_info)

-- The key family of a passphrase and a salt.
unfoldable pub derive_seal_key : Crypto → Text → Text → ScryptParams → Option KeyPair
unfolding valid_params expand
derive_seal_key crypto pass salt p =
    if is_empty pass
    then none
    else if not (valid_params p)
    then none
    else expand crypto (crypto.scrypt pass salt p)

unfoldable pub sign : Crypto → Text → Text → Text
sign crypto body sk = crypto.ed25519_sign sk (seal_domain ++ body)

unfoldable pub encode_key : Crypto → Text → Text
encode_key crypto pk = key_prefix ++ crypto.encode64 pk

-- Whether the derived key is the one that an anchor names.
unfoldable pub is_key : Text → Option Text → Bool
is_key pk none = false
is_key pk (some want) = text_eq pk want

-- ── rotation ──

staged_key : Crypto → Text → Option KeyPair → Option (Text × Text)
staged_key crypto salt none = none
staged_key crypto salt (some kp) = some (encode_key crypto kp.public, salt)

stage_with : Crypto → Text → ScryptParams → Option Text → Option (Text × Text)
unfolding staged_key derive_seal_key
stage_with crypto pass p none = none
stage_with crypto pass p (some salt) = staged_key crypto salt (derive_seal_key crypto pass salt p)

-- `StageRotation`: the new verify key and the salt that it derives from. `fresh` is a new salt.
unfoldable pub stage_rotation : Crypto → Option Text → Text → ScryptParams → Option (Text × Text)
unfolding stage_with
stage_rotation crypto fresh pass p = stage_with crypto pass p fresh

-- `RotatedFamily`
pub record RotatedFamily : Type 0 where
  pub pair : KeyPair
  pub salt : Text

check_rotation : Text → Text → Option KeyPair → Result Error RotatedFamily
check_rotation salt want none = err admin_auth
check_rotation salt want (some kp) =
    if text_eq kp.public want then ok (record { pair = kp; salt = salt }) else err admin_auth

commit_with : Crypto → Text → ScryptParams → Option Text → Option Text → Result Error RotatedFamily
unfolding check_rotation derive_seal_key
commit_with crypto pass p none want = err admin_auth
commit_with crypto pass p (some salt) none = err admin_auth
commit_with crypto pass p (some salt) (some want) =
    check_rotation salt want (derive_seal_key crypto pass salt p)

both_decode : Option Text → Option Text → Bool
both_decode (some _) (some _) = true
both_decode (some _) none = false
both_decode none _ = false

-- `CommitRotation`, with the errors of its caller. A staged salt or key that does not decode is an
-- error ahead of one that is absent.
unfoldable pub commit_rotation : Crypto → Text → Anchor → Result Error RotatedFamily
unfolding commit_with decode_key both_decode
commit_rotation crypto pass a =
    let salt = if is_empty a.staged_salt then some [] else crypto.codec.base64 a.staged_salt in
    let want =
      if is_empty a.verify_key_next then some [] else decode_key crypto.codec a.verify_key_next in
    let done = commit_with crypto pass a.scrypt salt want in
    if not (both_decode salt want)
    then err admin_auth
    else if is_empty a.staged_salt || is_empty a.verify_key_next
    then err no_staged_rotation
    else done

-- ── a derived key ──

key_of_seed-some :
    (crypto : Crypto) (o : Option Text) (kp : KeyPair)
    → key_of_seed crypto o ≡ some kp
    → (seed : Text) × (crypto.key_from_seed seed ≡ kp)
unfolding key_of_seed
key_of_seed-some crypto none kp h = cc
key_of_seed-some crypto (some seed) kp h = (seed, some-injective (crypto.key_from_seed seed) kp h)

expand-some :
    (crypto : Crypto) (o : Option Text) (kp : KeyPair)
    → expand crypto o ≡ some kp
    → (seed : Text) × (crypto.key_from_seed seed ≡ kp)
unfolding expand
expand-some crypto none kp h = cc
expand-some crypto (some master) kp h = key_of_seed-some crypto (crypto.hkdf master seed_info) kp h

unless_none :
    {A : Type 0} (b : Bool) (o : Option A) (x : A) → (if b then none else o) ≡ some x → o ≡ some x
unless_none true o x h = cc
unless_none false o x h = h

-- A derived key family is that of some seed.
pub derive_seal_key-seed :
    (crypto : Crypto) (pass salt : Text) (p : ScryptParams) (kp : KeyPair)
    → derive_seal_key crypto pass salt p ≡ some kp
    → (seed : Text) × (crypto.key_from_seed seed ≡ kp)
unfolding derive_seal_key
derive_seal_key-seed crypto pass salt p kp h =
    expand-some crypto (crypto.scrypt pass salt p) kp
      (unless_none (not (valid_params p)) _ kp (unless_none (is_empty pass) _ kp h))

pub is_key-some : (pk : Text) (o : Option Text) → is_key pk o ≡ true → o ≡ some pk
unfolding is_key
is_key-some pk none h = cc
is_key-some pk (some want) h = ap some (sym (text_eq_sound pk want h))

-- ── a committed rotation ──

abbrev Derives : Crypto → Text → ScryptParams → RotatedFamily → Type 0
Derives crypto pass p fam = derive_seal_key crypto pass fam.salt p ≡ some fam.pair

check_rotation-ok :
    (crypto : Crypto) (pass salt want : Text) (p : ScryptParams) (o : Option KeyPair)
    (fam : RotatedFamily)
    → derive_seal_key crypto pass salt p ≡ o
    → check_rotation salt want o ≡ ok fam
    → Derives crypto pass p fam
unfolding check_rotation
check_rotation-ok crypto pass salt want p none fam d h = absurd (err-ne-ok admin_auth fam h)
check_rotation-ok crypto pass salt want p (some kp) fam d h =
    elim (Bool-cases (text_eq kp.public want)) [
      | inl y ↦
          subst (Derives crypto pass p)
            (ok-injective (record { pair = kp; salt = salt }) fam (rw y at h)) d
      | inr n ↦ absurd (err-ne-ok admin_auth fam (rw n at h))
    ]

commit_with-ok :
    (crypto : Crypto) (pass : Text) (p : ScryptParams) (s w : Option Text) (fam : RotatedFamily)
    → commit_with crypto pass p s w ≡ ok fam
    → Derives crypto pass p fam
unfolding commit_with
commit_with-ok crypto pass p none w fam h = absurd (err-ne-ok admin_auth fam h)
commit_with-ok crypto pass p (some salt) none fam h = absurd (err-ne-ok admin_auth fam h)
commit_with-ok crypto pass p (some salt) (some want) fam h =
    check_rotation-ok crypto pass salt want p (derive_seal_key crypto pass salt p) fam refl h

unless_err :
    {A : Type 0} (b : Bool) (e : Error) (m : Result Error A) (x : A)
    → (if b then err e else m) ≡ ok x
    → m ≡ ok x
unless_err true e m x h = absurd (err-ne-ok e x h)
unless_err false e m x h = h

-- The family of a committed rotation derives from the new passphrase and its salt.
pub commit_rotation-ok :
    (crypto : Crypto) (pass : Text) (a : Anchor) (fam : RotatedFamily)
    → commit_rotation crypto pass a ≡ ok fam
    → derive_seal_key crypto pass fam.salt a.scrypt ≡ some fam.pair
unfolding commit_rotation
commit_rotation-ok crypto pass a fam h = commit_with-ok crypto pass a.scrypt _ _ fam (
    unless_err (is_empty a.staged_salt || is_empty a.verify_key_next) no_staged_rotation _ fam
      (unless_err _ admin_auth _ fam h))
