-- ===== src/Policy/Admin/RoundTrip.antt =====
-- A mutation of the policy and the load of what it wrote (internal/policy/admin.go and file.go).
use daxie.Prelude.{
  ℕ, ◌+◌, ◌≡◌, ◌<◌, sym, ap, ◌∙◌, false, Option, some, List, arith, subst, some-injective,
}
use daxie.Prelude.Int.{ltb_ℤ}
use daxie.Prelude.Results.{ok, ok-injective}
use daxie.Prelude.Text.{Text}
use daxie.Policy.Types.{Policy}
use daxie.Policy.Writer.{write_body}
use daxie.Policy.Seal.{Anchor, Head, load_policy, body_version}
use daxie.Policy.Seal.Complete.{IsKeyOf}
use daxie.Policy.Keys.{Crypto}
use daxie.Policy.Admin.{Vault, AdminEnv, u64, sealed, raised, next_body, mutate}
use daxie.Policy.Admin.Pipeline.{Resealed, new_body}
use daxie.Policy.Admin.Reload.{
  IsFaithful, sealed-loads, pinned-IsKeyOf, result, same_anchor, bumped-lt, raised-eq,
}

raised-IsKeyOf :
    (crypto : Crypto) (a : Anchor) (n : ℕ) (pk : Text)
    → IsKeyOf crypto.codec a pk
    → IsKeyOf crypto.codec (raised a n) pk
unfolding raised
raised-IsKeyOf crypto a n pk k = k

module _ (crypto : Crypto) (env : AdminEnv) (pass written_by : Text) (accounts : Option (List Text))
    (change : Policy → Policy) (v v' : Vault) (a b : Anchor) (pinned : v.anchor ≡ some a)
    (mutated : mutate crypto env pass written_by accounts change v ≡ (ok b, v'))
    (room : a.nonce_watermark + 1 < u64) where
  same_policy :
      (x y : Anchor) (p q : Policy)
      → x ≡ y
      → load_policy crypto.codec v.file (some x) ≡ ok (some p)
      → load_policy crypto.codec v.file (some y) ≡ ok (some q)
      → p ≡ q
  same_policy x y p q e lx ly = some-injective p q (
      ok-injective (some p) (some q)
        (sym lx ∙ ap (λ (z : Anchor). load_policy crypto.codec v.file (some z)) e ∙ ly))

  abbrev Decodes : Policy → Head → Anchor → Policy → Type 0
  Decodes q head x y =
      (crypto.codec.read_head
          (write_body (next_body env.now written_by accounts change x.nonce_watermark y))
        ≡ some head)
      × (head.nonce ≡ (next_body env.now written_by accounts change x.nonce_watermark y).nonce)
      × (crypto.codec.read_body
            (write_body (next_body env.now written_by accounts change x.nonce_watermark y))
          ≡ some q)

  resealed-loads :
      (q : Policy) (head : Head) (r : Resealed crypto env pass written_by accounts change v b v')
      → IsFaithful crypto
      → r.anchor.nonce_watermark + 1 < u64
      → Decodes q head r.anchor r.policy
      → ltb_ℤ body_version head.version ≡ false
      → load_policy crypto.codec v'.file v'.anchor ≡ ok (some q)
  unfolding next_body
  resealed-loads q head r faithful fits d ver =
      let n =
        (next_body env.now written_by accounts change r.anchor.nonce_watermark r.policy).nonce in
      let up = bumped-lt r.anchor.nonce_watermark (change r.policy).nonce fits in
      ap (λ (w : Vault). load_policy crypto.codec w.file w.anchor) r.left
      ∙ ap
          (λ (x : Anchor).
            load_policy crypto.codec
              (some (
                sealed crypto
                  (new_body crypto env pass written_by accounts change v r.anchor r.policy)
                  r.pair.private))
              (some x))
          r.trusted
      ∙ sealed-loads crypto faithful (raised r.anchor n) pass r.authentic.salt r.pair _ q head
          r.anchor r.authentic.derived
          (raised-IsKeyOf crypto r.anchor n r.pair.public
            (pinned-IsKeyOf crypto r.anchor r.pair.public r.authentic.pinned))
          d.0 (omega (arith, raised-eq r.anchor n up, d.1)) ver d.2

  -- After a mutation that succeeded, the new file loads under the new anchor, and gives the policy
  -- that the sealed bytes of the changed body decode to, provided encodings are undone by decoding,
  -- signatures verify, these bytes decode with the nonce and a version of the body, and the old
  -- watermark is not the largest number of 64 bits.
  pub mutate-reloads :
      (p q : Policy) (head : Head)
      → IsFaithful crypto
      → load_policy crypto.codec v.file (some a) ≡ ok (some p)
      → crypto.codec.read_head
          (write_body (next_body env.now written_by accounts change a.nonce_watermark p))
        ≡ some head
      → head.nonce ≡ (next_body env.now written_by accounts change a.nonce_watermark p).nonce
      → ltb_ℤ body_version head.version ≡ false
      → crypto.codec.read_body
          (write_body (next_body env.now written_by accounts change a.nonce_watermark p))
        ≡ some q
      → load_policy crypto.codec v'.file v'.anchor ≡ ok (some q)
  mutate-reloads p q head faithful loads h hn ver rb =
      let r = result crypto env pass written_by accounts change v v' a b pinned mutated room in
      let ea =
        same_anchor crypto env pass written_by accounts change v v' a b pinned mutated room in
      let ep = same_policy r.anchor a r.policy p ea r.loaded loads in
      resealed-loads q head r faithful
        (subst (λ (x : Anchor). x.nonce_watermark + 1 < u64) (sym ea) room)
        (subst (λ (y : Policy). Decodes q head r.anchor y) (sym ep)
          (subst (λ (x : Anchor). Decodes q head x p) (sym ea) (h, hn, rb)))
        ver
