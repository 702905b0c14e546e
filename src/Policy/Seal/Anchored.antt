-- ===== src/Policy/Seal/Anchored.antt =====
-- Signing under a pinned anchor (internal/policy/file.go, `loadPolicy`; policy.go, `Reserve`).
use daxie.Prelude.{
  ltb, subst, some-injective, ◌≡◌, refl, sym, Bool, true, false, Option, none, some, if◌then◌else◌,
}
use daxie.Prelude.Int.{ltb_ℤ}
use daxie.Prelude.Results.{Result, ok, err}
use daxie.Prelude.Text.{Text}
use daxie.Policy.Types.{Policy, Check}
use daxie.Policy.Reservation.{Reservation}
use daxie.Policy.Store.{Error, Store, Env}
use daxie.Policy.Reserve.{Call, reserve}
use daxie.Policy.Seal.{
  Envelope, Head, Anchor, Codec, body_version, decode_strict, check_head, check_seal, open_envelope,
  load_policy, verify_under_anchor,
}
use daxie.Policy.Seal.Verified.{Verified, load_policy-Verified}

-- Never "no policy".
abbrev pub Settled : Result Error (Option Policy) → Type 0
Settled (ok none) = ⊥
Settled (ok (some p)) = Unit
Settled (err e) = Unit

unless :
    (b : Bool) (e : Error) (y : Result Error (Option Policy))
    → Settled y
    → Settled (if b then err e else y)
unless true e y h = tt
unless false e y h = h

only_if :
    (b : Bool) (e : Error) (x : Result Error (Option Policy))
    → Settled x
    → Settled (if b then x else err e)
only_if true e x h = h
only_if false e x h = tt

strict-Settled : (o : Option Policy) → Settled (decode_strict o)
unfolding decode_strict
strict-Settled none = tt
strict-Settled (some p) = tt

head-Settled :
    (codec : Codec) (anchor : Anchor) (body : Text) (o : Option Head)
    → Settled (check_head codec anchor body o)
unfolding check_head
head-Settled codec anchor body none = tt
head-Settled codec anchor body (some head) =
    unless (ltb head.nonce anchor.nonce_watermark) Error.rollback _ (
      unless (ltb_ℤ body_version head.version) Error.seal_violation
        (decode_strict (codec.read_body body)) (strict-Settled (codec.read_body body)))

seal-Settled :
    (codec : Codec) (anchor : Anchor) (b s : Option Text) → Settled (check_seal codec anchor b s)
unfolding check_seal
seal-Settled codec anchor none s = tt
seal-Settled codec anchor (some body) none = tt
seal-Settled codec anchor (some body) (some sig) =
    only_if (verify_under_anchor codec body sig anchor) Error.seal_violation
      (check_head codec anchor body (codec.read_head body))
      (head-Settled codec anchor body (codec.read_head body))

open-Settled :
    (codec : Codec) (anchor : Anchor) (o : Option Envelope) → Settled (open_envelope codec anchor o)
unfolding open_envelope
open-Settled codec anchor none = tt
open-Settled codec anchor (some env) =
    seal-Settled codec anchor (codec.base64 env.body_b64) (codec.base64 env.sig)

pub anchored-Settled :
    (codec : Codec) (file : Option Text) (anchor : Anchor)
    → Settled (load_policy codec file (some anchor))
unfolding load_policy
anchored-Settled codec none anchor = tt
anchored-Settled codec (some raw) anchor = open-Settled codec anchor (codec.read_envelope raw)

reserve_loaded :
    (env : Env) (call : Call) (c : Check) (st st' : Store) (r : Reservation)
    (l : Result Error (Option Policy))
    → Settled l
    → reserve env call l c st ≡ (ok r, st')
    → (p : Policy) × (l ≡ ok (some p)) × (reserve env call (ok (some p)) c st ≡ (ok r, st'))
unfolding reserve
reserve_loaded env call c st st' r (ok none) s h = absurd s
reserve_loaded env call c st st' r (ok (some p)) s h = (p, refl, h)
reserve_loaded env call c st st' r (err e) s h = cc

-- With an anchor pinned nothing is reserved without a policy: a reservation that succeeds has loaded
-- a policy from the file that passes every check under that anchor, and is what that policy allows.
pub anchored-reserve :
    (codec : Codec) (file : Option Text) (anchor : Anchor) (env : Env) (call : Call) (c : Check)
    (st st' : Store) (r : Reservation)
    → reserve env call (load_policy codec file (some anchor)) c st ≡ (ok r, st')
    → (p : Policy) × (raw : Text) × (file ≡ some raw)
      × Verified codec raw anchor p
      × (reserve env call (ok (some p)) c st ≡ (ok r, st'))
anchored-reserve codec file anchor env call c st st' r h =
    let (p, loads, run) =
      reserve_loaded env call c st st' r (load_policy codec file (some anchor))
        (anchored-Settled codec file anchor) h in
    let (raw, pinned, f, a, v) = load_policy-Verified codec file (some anchor) p loads in
    (p, raw, f, subst (λ x. Verified codec raw x p) (sym (some-injective anchor pinned a)) v, run)
