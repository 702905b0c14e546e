-- ===== src/Policy/Stages/Destination/Passing.antt =====
-- What it means that a stage on the destination passes (internal/policy/evaluate.go, stages 3, 4).
use daxie.Prelude.{
  ◌≡◌, ◌≢◌, ◌⊎◌, inl, inr, refl, sym, ◌∙◌, true, false, not, none, List, [], ◌∷◌, arith, All,
  Exists, any-true, any-false, All-map, Exists-map, Bool-cases, subst,
}
use daxie.Prelude.Text.{
  Text, codes, text_eq, is_empty, to_lower, equal_fold, equal_fold_sound, text_eq_refl,
  to_lower_idem, text_eq_sound,
}
use daxie.Policy.Types.{Policy, PinEntry, Check, Kind, ToSource, Address, zero_address, lower_hex}
use daxie.Policy.Limits.{ResolvedLimits}
use daxie.Policy.Stages.Destination.{
  match_pin, in_self, on_allowlist, is_token_or_approval, drift_by, stage_denylist, stage_allowlist,
  stage_no_allowlist, stage_pin_drift,
}

pub lower_hex-lower : (a : Address) → to_lower (lower_hex a) ≡ lower_hex a
unfolding lower_hex to_lower
lower_hex-lower a = elim (Bool-cases (text_eq a zero_address)) [
  | inl z ↦ rw z
  | inr q ↦ rw q (to_lower_idem a)
]

fold_of_eq : (s t : Text) → to_lower s ≡ to_lower t → equal_fold s t ≡ true
unfolding equal_fold
fold_of_eq s t e = rw e (text_eq_refl (to_lower t))

-- A pin with this address in any case, and a destination that is not the zero address.
abbrev pub Pins : Address → PinEntry → Type 0
Pins dest entry = (to_lower entry.address ≡ lower_hex dest) × (lower_hex dest ≢ [])

-- A contact or ENS pin of the name that was typed.
abbrev pub Names : Text → PinEntry → Type 0
Names to_input entry =
    ((entry.source ≡ codes "contact") ⊎ (entry.source ≡ codes "ens"))
    × (entry.name ≢ [])
    × (to_input ≢ [])
    × (to_lower entry.name ≡ to_lower to_input)

not_empty : (s : Text) → s ≢ [] → is_empty s ≡ false
not_empty [] h = absurd (h refl)
not_empty (c ∷ s) h = refl

empty_nil : (s : Text) → not (is_empty s) ≡ true → s ≢ []
empty_nil [] h = cc
empty_nil (c ∷ s) h = λ e. cc

match_pin-Pins :
    (dest : Address) (to_input : Text) (entry : PinEntry)
    → match_pin entry (lower_hex dest) to_input ≡ false
    → ¬ (Pins dest entry)
unfolding match_pin
match_pin-Pins dest to_input entry h (e, ne) = ground (
  arith,
  fold_of_eq entry.address (lower_hex dest) (e ∙ sym (lower_hex-lower dest)),
  not_empty (lower_hex dest) ne,
)

match_pin-Names :
    (dest : Address) (to_input : Text) (entry : PinEntry)
    → match_pin entry (lower_hex dest) to_input ≡ false
    → ¬ (Names to_input entry)
unfolding match_pin
match_pin-Names dest to_input entry h (src, named, typed, e) = ground (
  arith,
  fold_of_eq entry.name to_input e,
  not_empty entry.name named,
  not_empty to_input typed,
  text_eq_refl (codes "contact"),
  text_eq_refl (codes "ens"),
)

-- No entry of the denylist pins the destination, or the name that was typed for it.
pub stage_denylist-none :
    (p : Policy) (req : Check)
    → stage_denylist p req ≡ none
    → All (λ entry. ¬ (Pins req.dest entry) × ¬ (Names req.to_input entry)) p.denylist
unfolding stage_denylist
stage_denylist-none p req h =
    All-map p.denylist
      (λ entry miss. (
        match_pin-Pins req.dest req.to_input entry miss,
        match_pin-Names req.dest req.to_input entry miss,
      ))
      (any-false (λ d. match_pin d (lower_hex req.dest) req.to_input) p.denylist (ground arith))

pub fold_lower :
    (a : Address) (s : Text) → equal_fold s (lower_hex a) ≡ true → to_lower s ≡ lower_hex a
fold_lower a s h = equal_fold_sound s (lower_hex a) h ∙ lower_hex-lower a

on_allowlist-Exists :
    (dest : Address) (entries : List PinEntry)
    → on_allowlist entries (lower_hex dest) ≡ true
    → Exists (Pins dest) entries
unfolding on_allowlist
on_allowlist-Exists dest entries h =
    Exists-map entries
      (λ entry hit.
        (fold_lower dest entry.address (ground arith), empty_nil (lower_hex dest) (ground arith)))
      (any-true _ entries h)

-- Some own account of the sealed snapshot is this address.
abbrev pub Own : Policy → Address → Type 0
Own p a = Exists (λ (s : Text). to_lower s ≡ lower_hex a) p.self_addresses

pub in_self-Own : (p : Policy) (a : Address) → in_self p (lower_hex a) ≡ true → Own p a
unfolding in_self
in_self-Own p a h =
    Exists-map p.self_addresses (λ s hit. fold_lower a s hit) (any-true _ p.self_addresses h)

pub stage_allowlist-none :
    (p : Policy) (lim : ResolvedLimits) (req : Check)
    → lim.allowlist_enabled ≡ true
    → req.unknown_calldata ≡ false
    → stage_allowlist p lim req ≡ none
    → Exists (Pins req.dest) p.allowlist ⊎ ((lim.include_self ≡ true) × Own p req.dest)
unfolding stage_allowlist
stage_allowlist-none p lim req on known h =
    elim (Bool-cases (on_allowlist p.allowlist (lower_hex req.dest))) [
      | inl hit ↦ inl (on_allowlist-Exists req.dest p.allowlist hit)
      | inr miss ↦ inr (ground arith, in_self-Own p req.dest (ground arith))
    ]

pub stage_no_allowlist-none :
    (p : Policy) (lim : ResolvedLimits) (req : Check) (kind : Kind)
    → is_token_or_approval req kind ≡ true
    → lim.any_set ≡ true
    → stage_no_allowlist p lim req kind ≡ none
    → (lim.allowlist_enabled ≡ true) ⊎ (p.tokens_no_allowlist_ok ≡ true)
unfolding stage_no_allowlist
stage_no_allowlist-none p lim req kind t set h = elim (Bool-cases lim.allowlist_enabled) [
  | inl on ↦ inl on
  | inr off ↦ inr (ground arith)
]

drift_by-ens :
    (req : Check) (dest fresh : Text)
    → drift_by ToSource.ens req dest fresh ≡ none
    → (fresh ≢ []) × (text_eq fresh dest ≡ true)
unfolding drift_by
drift_by-ens req dest fresh h = (empty_nil fresh (ground arith), ground arith)

-- An ENS name resolves, and to the pinned address.
pub stage_pin_drift-none :
    (req : Check)
    → req.to_src ≡ ToSource.ens
    → stage_pin_drift req ≡ none
    → (lower_hex req.ens_resolved ≡ lower_hex req.dest) × (lower_hex req.ens_resolved ≢ [])
unfolding stage_pin_drift
stage_pin_drift-none req src h =
    let (ne, same) = drift_by-ens req (lower_hex req.dest) (lower_hex req.ens_resolved) (
      subst (λ s. drift_by s req (lower_hex req.dest) (lower_hex req.ens_resolved) ≡ none) src h) in
    (text_eq_sound _ _ same, ne)
