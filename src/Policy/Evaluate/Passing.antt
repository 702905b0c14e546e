-- ===== src/Policy/Evaluate/Passing.antt =====
-- A verdict "allowed" and the stages that pass (internal/policy/evaluate.go).
use daxie.Prelude.{
  ℕ, ◌≡◌, refl, ap, Bool, true, false, Option, none, some, List, [], ◌∷◌, ◌++◌, if◌then◌else◌, All,
}
use daxie.Policy.Types.{Policy, Check, Instant, effective_kind, Violation, Decision}
use daxie.Policy.Limits.{resolve_limits}
use daxie.Policy.Stages.{
  stage_denylist, stage_allowlist, stage_no_allowlist, stage_pin_drift, stage_typed_data,
  stage_unknown_calldata, stage_per_tx, stage_unlimited, stage_daily, stage_gas_cap,
}
use daxie.Policy.Evaluate.{collect, verdict, stage_destination, all_stages, evaluate}

-- The stages that all have to pass.
pub record Passes (p : Policy) (req : Check) (w : ℕ) (now : Instant) : Type 0 where
  pub denylist : stage_denylist p req ≡ none
  pub allowlist : stage_allowlist p (resolve_limits p req.network) req ≡ none
  pub no_allowlist :
      stage_no_allowlist p (resolve_limits p req.network) req (effective_kind req) ≡ none
  pub pin_drift : stage_pin_drift req ≡ none
  pub typed_data : stage_typed_data p (resolve_limits p req.network) req ≡ none
  pub calldata : stage_unknown_calldata p (resolve_limits p req.network) req ≡ none
  pub per_tx : stage_per_tx (resolve_limits p req.network) req (effective_kind req) ≡ none
  pub unlimited : stage_unlimited p req (effective_kind req) ≡ none
  pub daily : stage_daily (resolve_limits p req.network) req w now ≡ none
  pub gas_cap : stage_gas_cap (resolve_limits p req.network) req ≡ none

pub verdict-allowed : (vs : List Violation) → (verdict vs).allowed ≡ true → vs ≡ []
unfolding verdict
verdict-allowed [] h = refl
verdict-allowed (v ∷ vs) h = cc

pub collect-nil : (l : List (Option Violation)) → collect l ≡ [] → All (λ o. o ≡ none) l
unfolding collect
collect-nil [] h = tt
collect-nil (none ∷ l) h = (refl, collect-nil l h)
collect-nil (some v ∷ l) h = cc

All-collect : (l : List (Option Violation)) → All (λ o. o ≡ none) l → collect l ≡ []
unfolding collect
All-collect [] h = refl
All-collect (none ∷ l) h = All-collect l h.1
All-collect (some v ∷ l) h = cc

else_allowed :
    (b : Bool) (x y : Decision) → b ≡ false → (if b then x else y).allowed ≡ true → y.allowed ≡ true
else_allowed true x y e h = cc
else_allowed false x y e h = h

pub then_allowed :
    (b : Bool) (x y : Decision) → b ≡ true → (if b then x else y).allowed ≡ true → x.allowed ≡ true
then_allowed true x y e h = h
then_allowed false x y e h = cc

allowed_else :
    (b : Bool) (x y : Decision) → b ≡ false → y.allowed ≡ true → (if b then x else y).allowed ≡ true
allowed_else true x y e h = cc
allowed_else false x y e h = h

destination_passes :
    (d a n : Option Violation) (rest : List (Option Violation))
    → All (λ o. o ≡ none) (elim d [ some v ↦ some v ∷ [] | none ↦ a ∷ n ∷ [] ] ++ rest)
    → (d ≡ none) × (a ≡ none) × (n ≡ none) × All (λ o. o ≡ none) rest
destination_passes none a n rest h = (refl, h.0, h.1.0, h.1.1)
destination_passes (some v) a n rest h = cc

destination_All :
    (d a n : Option Violation) (rest : List (Option Violation))
    → d ≡ none
    → a ≡ none
    → n ≡ none
    → All (λ o. o ≡ none) rest
    → All (λ o. o ≡ none) (elim d [ some v ↦ some v ∷ [] | none ↦ a ∷ n ∷ [] ] ++ rest)
destination_All none a n rest hd ha hn hr = (ha, (hn, hr))
destination_All (some v) a n rest hd ha hn hr = cc

-- Without unrecognised typed data a request is allowed only if every stage passes.
pub evaluate-Passes :
    (p : Policy) (req : Check) (w : ℕ) (now : Instant)
    → req.typed_unknown ≡ false
    → (evaluate p req w now).allowed ≡ true
    → Passes p req w now
unfolding evaluate all_stages stage_destination
evaluate-Passes p req w now t h =
    let lim = resolve_limits p req.network in
    let (d, a, n, rest) =
      destination_passes (stage_denylist p req) (stage_allowlist p lim req)
        (stage_no_allowlist p lim req (effective_kind req)) _
        (collect-nil (all_stages p lim req w now)
          (verdict-allowed _ (else_allowed req.typed_unknown _ _ t h))) in
    record {
      denylist = d;
      allowlist = a;
      no_allowlist = n;
      pin_drift = rest.0;
      typed_data = rest.1.0;
      calldata = rest.1.1.0;
      per_tx = rest.1.1.1.0;
      unlimited = rest.1.1.1.1.0;
      daily = rest.1.1.1.1.1.0;
      gas_cap = rest.1.1.1.1.1.1.0;
    }

-- And it is allowed if every stage passes.
pub Passes-evaluate :
    (p : Policy) (req : Check) (w : ℕ) (now : Instant)
    → req.typed_unknown ≡ false
    → Passes p req w now
    → (evaluate p req w now).allowed ≡ true
unfolding evaluate all_stages stage_destination verdict
Passes-evaluate p req w now t h =
    let lim = resolve_limits p req.network in
    let none_left : collect (all_stages p lim req w now) ≡ [] =
      All-collect (all_stages p lim req w now) (
        destination_All (stage_denylist p req) _ _ _ h.denylist h.allowlist h.no_allowlist (
          h.pin_drift,
          (h.typed_data, (h.calldata, (h.per_tx, (h.unlimited, (h.daily, (h.gas_cap, tt)))))),
        )) in
    allowed_else req.typed_unknown _ _ t (ap (λ vs. (verdict vs).allowed) none_left)
