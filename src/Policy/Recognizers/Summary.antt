-- ===== src/Policy/Recognizers/Summary.antt =====
-- The class of a message is a summary of its tokens (internal/policy/recognizers.go).
use daxie.Prelude.{
  ℕ, ◌≡◌, ◌≢◌, refl, sym, ap, ◌∙◌, inl, inr, Bool, true, false, Bool-cases, Option, none, some,
  some-injective, List, [], ◌∷◌, any, arith, if◌then◌else◌, subst, false≢true,
}
use daxie.Prelude.Int.{ℤ}
use daxie.Prelude.Text.{Text, codes, text_eq}
use daxie.Policy.Types.{Address}
use daxie.Policy.Stages.Amounts.{uint256_max, uint160_max}
use daxie.Policy.Message.{
  Fields, no_items, item, Value, text, address, object, array, null, other, boolean, float, int,
  big, get,
}
use daxie.Policy.TypedData.{
  SpendToken, TypedDataClass, single, batch, or_empty, eip2612_class, dai_class, both, single_class,
  batch_class, is_eip2612, is_dai_permit, in_domain, on_verifying, choose_class, check_chain,
  off_chain,
}
use daxie.Policy.Recognizers.{
  message_addr, object_token, item_tokens, permit2_tokens, permit_single, permit_batch,
  permit_transfer_from, permit_batch_transfer_from, match_permit2, match_eip2612, match_dai_permit,
  lower_addr, classify_typed_data, classify_typed_data_for, permit2_contract,
}

abbrev pub any_unlimited : List SpendToken → Bool
any_unlimited ts = any (λ (t : SpendToken). t.unlimited) ts

-- There are tokens, and the class is unlimited exactly if one of them is; it is not denied yet.
pub record Summarises (c : TypedDataClass) : Type 0 where
  pub sums : c.unlimited ≡ any_unlimited c.tokens
  pub some_token : c.tokens ≢ []
  pub open_yet : c.denied ≡ false

-- What a recogniser finds, if it finds something, has the property.
abbrev Finds : (TypedDataClass → Type 0) → Option TypedDataClass → Type 0
Finds P o = (c : TypedDataClass) → o ≡ some c → P c

module _ (P : TypedDataClass → Type 0) where
  none-Finds : Finds P none
  none-Finds c h = cc

  some-Finds : (x : TypedDataClass) → P x → Finds P (some x)
  some-Finds x px c h = subst P (some-injective x c h) px

  if-Finds :
      (b : Bool) (x y : Option TypedDataClass)
      → Finds P x
      → Finds P y
      → Finds P (if b then x else y)
  if-Finds true x y f g = f
  if-Finds false x y f g = g

cons≢nil : (t : SpendToken) (ts : List SpendToken) → t ∷ ts ≢ []
cons≢nil t ts e = false≢true (ap empty e)
  where
    empty : List SpendToken → Bool
    empty [] = true
    empty (t ∷ ts) = false

-- ── the classes ──

abbrev IsOpen : TypedDataClass → Type 0
IsOpen c = c.denied ≡ false

eip2612_class-Finds : (s : Option Text) (v d : Option ℤ) → Finds IsOpen (eip2612_class s v d)
unfolding eip2612_class
eip2612_class-Finds none v d = none-Finds IsOpen
eip2612_class-Finds (some s) none d = none-Finds IsOpen
eip2612_class-Finds (some s) (some v) d = some-Finds IsOpen _ refl

dai_class-Finds : (s : Option Text) (b : Option Bool) → Finds IsOpen (dai_class s b)
unfolding dai_class
dai_class-Finds none b = none-Finds IsOpen
dai_class-Finds (some s) none = none-Finds IsOpen
dai_class-Finds (some s) (some b) = some-Finds IsOpen _ refl

single_class-Finds : (s : Option Text) (t : Option SpendToken) → Finds Summarises (single_class s t)
unfolding single_class
single_class-Finds none t = none-Finds Summarises
single_class-Finds (some s) none = none-Finds Summarises
single_class-Finds (some s) (some t) =
    some-Finds Summarises (single s t)
      (record { sums = ground arith; some_token = cons≢nil t []; open_yet = refl })

batch_class-Finds :
    (s : Option Text) (ts : Option (List SpendToken))
    → ((l : List SpendToken) → ts ≡ some l → l ≢ [])
    → Finds Summarises (batch_class s ts)
unfolding batch_class
batch_class-Finds none ts h = none-Finds Summarises
batch_class-Finds (some s) none h = none-Finds Summarises
batch_class-Finds (some s) (some ts) h =
    some-Finds Summarises (batch s ts)
      (record { sums = refl; some_token = h ts refl; open_yet = refl })

both-cons :
    (t : Option SpendToken) (ts : Option (List SpendToken)) (l : List SpendToken)
    → both t ts ≡ some l
    → l ≢ []
unfolding both
both-cons none ts l h = cc
both-cons (some t) none l h = cc
both-cons (some t) (some ts) l h = λ e. cons≢nil t ts (some-injective (t ∷ ts) l h ∙ e)

module _ (is_hex_address : Text → Bool) (to_address : Text → Address) where
  permit2_tokens-cons :
      (n : ℕ) (v : Value) (l : List SpendToken)
      → permit2_tokens is_hex_address to_address n v ≡ some l
      → l ≢ []
  unfolding permit2_tokens item_tokens
  permit2_tokens-cons n (array no_items) l h = cc
  permit2_tokens-cons n (array (item x rest)) l h = both-cons _ _ l h
  permit2_tokens-cons n null l h = cc
  permit2_tokens-cons n other l h = cc
  permit2_tokens-cons n (text s) l h = cc
  permit2_tokens-cons n (boolean b) l h = cc
  permit2_tokens-cons n (float e i) l h = cc
  permit2_tokens-cons n (int i) l h = cc
  permit2_tokens-cons n (big i) l h = cc
  permit2_tokens-cons n (address a) l h = cc
  permit2_tokens-cons n (object m) l h = cc

  permit_single-Finds : (m : Fields) → Finds Summarises (permit_single is_hex_address to_address m)
  unfolding permit_single
  permit_single-Finds m = single_class-Finds _ _

  permit_batch-Finds : (m : Fields) → Finds Summarises (permit_batch is_hex_address to_address m)
  unfolding permit_batch
  permit_batch-Finds m =
      batch_class-Finds _ _ (permit2_tokens-cons uint160_max (get m (codes "details")))

  permit_transfer_from-Finds :
      (m : Fields) → Finds Summarises (permit_transfer_from is_hex_address to_address m)
  unfolding permit_transfer_from
  permit_transfer_from-Finds m =
      single_class-Finds
        (some (or_empty (message_addr is_hex_address to_address m (codes "spender"))))
        (object_token is_hex_address to_address uint256_max (get m (codes "permitted")))

  permit_batch_transfer_from-Finds :
      (m : Fields) → Finds Summarises (permit_batch_transfer_from is_hex_address to_address m)
  unfolding permit_batch_transfer_from
  permit_batch_transfer_from-Finds m =
      batch_class-Finds
        (some (or_empty (message_addr is_hex_address to_address m (codes "spender")))) _
        (permit2_tokens-cons uint256_max (get m (codes "permitted")))

  match_permit2-Finds :
      (primary verifying : Text) (m : Fields)
      → Finds Summarises (match_permit2 is_hex_address to_address primary verifying m)
  unfolding match_permit2
  match_permit2-Finds primary verifying m = elim (Bool-cases (text_eq verifying permit2_contract)) [
    | inr miss ↦ rw miss (none-Finds Summarises)
    | inl hit ↦ rw hit (elim (Bool-cases (text_eq primary (codes "PermitSingle"))) [
      | inl y ↦ rw y (permit_single-Finds m)
      | inr n ↦ rw n (elim (Bool-cases (text_eq primary (codes "PermitBatch"))) [
        | inl y ↦ rw y (permit_batch-Finds m)
        | inr n ↦ rw n (elim (Bool-cases (text_eq primary (codes "PermitTransferFrom"))) [
          | inl y ↦ rw y (permit_transfer_from-Finds m)
          | inr n ↦ rw n (elim (Bool-cases (text_eq primary (codes "PermitBatchTransferFrom"))) [
            | inl y ↦ rw y (permit_batch_transfer_from-Finds m)
            | inr n ↦ rw n (none-Finds Summarises)
          ])
        ])
      ])
    ])
  ]

  match_eip2612-Finds :
      (primary : Text) (m : Fields)
      → Finds IsOpen (match_eip2612 is_hex_address to_address primary m)
  unfolding match_eip2612
  match_eip2612-Finds primary m = elim (Bool-cases (is_eip2612 primary m)) [
    | inl y ↦ rw y (eip2612_class-Finds _ _ _)
    | inr n ↦ rw n (none-Finds IsOpen)
  ]

  match_dai_permit-Finds :
      (primary : Text) (m : Fields)
      → Finds IsOpen (match_dai_permit is_hex_address to_address primary m)
  unfolding match_dai_permit
  match_dai_permit-Finds primary m = elim (Bool-cases (is_dai_permit primary m)) [
    | inl y ↦ rw y (dai_class-Finds _ _)
    | inr n ↦ rw n (none-Finds IsOpen)
  ]

-- ── one class ──

abbrev Verdict : TypedDataClass → Type 0
Verdict c = c.is_spend ≡ true → Summarises c

on_verifying-Summarises :
    (primary verifying : Text) (chain : ℤ) (c : TypedDataClass)
    → IsOpen c
    → Summarises (in_domain primary chain verifying (on_verifying verifying c))
on_verifying-Summarises primary verifying chain c h = record {
  sums = ground arith;
  some_token = cons≢nil _ [];
  open_yet = h;
}

choose_class-Summarises :
    (primary verifying : Text) (chain : ℤ) (a b c : Option TypedDataClass)
    → Finds IsOpen a
    → Finds IsOpen b
    → Finds Summarises c
    → Verdict (choose_class primary chain verifying a b c)
unfolding choose_class
choose_class-Summarises primary verifying chain (some x) b c f g h spend =
    on_verifying-Summarises primary verifying chain x (f x refl)
choose_class-Summarises primary verifying chain none (some x) c f g h spend =
    on_verifying-Summarises primary verifying chain x (g x refl)
choose_class-Summarises primary verifying chain none none (some x) f g h spend =
    let k = h x refl in record { sums = k.sums; some_token = k.some_token; open_yet = k.open_yet }
choose_class-Summarises primary verifying chain none none none f g h spend =
    absurd (false≢true spend)

check_chain-Summarises :
    (expected : ℤ) (c : TypedDataClass)
    → Verdict c
    → (check_chain expected c).is_spend ≡ true
    → ((check_chain expected c).unlimited ≡ any_unlimited (check_chain expected c).tokens)
      × ((check_chain expected c).tokens ≢ [])
      × ((check_chain expected c).denied ≡ off_chain expected (check_chain expected c))
unfolding check_chain
check_chain-Summarises expected c v = elim (Bool-cases (off_chain expected c)) [
  | inl y ↦ rw y λ spend. ((v spend).sums, (v spend).some_token, sym y)
  | inr n ↦ rw n λ spend. ((v spend).sums, (v spend).some_token, (v spend).open_yet ∙ sym n)
]

pub classify_typed_data_summary :
    (is_hex_address : Text → Bool) (to_address : Text → Address) (expected : ℤ) (primary : Text)
    (domain m : Fields) (c : TypedDataClass)
    → classify_typed_data_for is_hex_address to_address expected primary domain m ≡ c
    → c.is_spend ≡ true
    → (c.unlimited ≡ any_unlimited c.tokens) × (c.tokens ≢ []) × (c.denied ≡ off_chain expected c)
unfolding classify_typed_data_for classify_typed_data
classify_typed_data_summary is_hex_address to_address expected primary domain m c e =
    subst
      (λ (x : TypedDataClass).
        x.is_spend ≡ true
        → (x.unlimited ≡ any_unlimited x.tokens)
          × (x.tokens ≢ [])
          × (x.denied ≡ off_chain expected x))
      e
      (check_chain-Summarises expected
        (classify_typed_data is_hex_address to_address primary domain m)
        (choose_class-Summarises primary _ _ _ _ _
          (match_eip2612-Finds is_hex_address to_address primary m)
          (match_dai_permit-Finds is_hex_address to_address primary m)
          (match_permit2-Finds is_hex_address to_address primary
            (lower_addr is_hex_address to_address (get domain (codes "verifyingContract"))) m)))
