-- ===== src/Policy/Evaluate/Precedence.antt =====
-- The code of a refusal (internal/policy/evaluate.go, `composeDenial`).
use daxie.Prelude.{
  ℕ, ◌≤◌, ◌<◌, ◌≡◌, refl, ap, sym, ◌∙◌, subst, Bool, true, false, some, List, [], ◌∷◌,
  if◌then◌else◌, arith, All, Exists, ltb,
}
use daxie.Policy.Types.{Policy, Check, Instant, Violation}
use daxie.Policy.Evaluate.{rank, pick_winner, compose_denial, verdict, evaluate}

-- A violation of the list that no other of it outranks.
abbrev pub IsTop : Violation → List Violation → Type 0
IsTop w vs = Exists (λ u. u ≡ w) vs × All (λ u. rank w.code ≤ rank u.code) vs

keep_first :
    (v u : Violation) (vs : List Violation) (w : Violation)
    → IsTop w (v ∷ vs)
    → rank v.code ≤ rank u.code
    → IsTop w (v ∷ u ∷ vs)
keep_first v u vs w (Exists.here e, best) le =
    (Exists.here e, (best.0, (omega (arith, best.0), best.1)))
keep_first v u vs w (Exists.there e, best) le =
    (Exists.there (Exists.there e), (best.0, (omega (arith, best.0), best.1)))

take_over :
    (v u : Violation) (vs : List Violation) (w : Violation)
    → IsTop w (u ∷ vs)
    → rank u.code < rank v.code
    → IsTop w (v ∷ u ∷ vs)
take_over v u vs w (e, best) lt = (Exists.there e, (omega (arith, best.0), best))

-- One round of the loop, by the outcome of its test.
round_IsTop :
    (b : Bool) (v u : Violation) (vs : List Violation)
    → ltb (rank u.code) (rank v.code) ≡ b
    → ((x : Violation) → IsTop (pick_winner x vs) (x ∷ vs))
    → IsTop (pick_winner (if b then u else v) vs) (v ∷ u ∷ vs)
round_IsTop true v u vs e ih = take_over v u vs _ (ih u) (ground arith)
round_IsTop false v u vs e ih = keep_first v u vs _ (ih v) (ground arith)

pick_winner-IsTop : (v : Violation) (vs : List Violation) → IsTop (pick_winner v vs) (v ∷ vs)
unfolding pick_winner
pick_winner-IsTop v [] = (Exists.here refl, (omega arith, tt))
pick_winner-IsTop v (u ∷ vs) = round_IsTop _ v u vs refl (λ x. pick_winner-IsTop x vs)

verdict-refused :
    (vs : List Violation)
    → (verdict vs).allowed ≡ false
    → (w : Violation) × ((verdict vs).code ≡ some w.code)
      × ((verdict vs).detail ≡ some w.detail)
      × ((verdict vs).violations ≡ vs)
      × IsTop w vs
unfolding verdict compose_denial
verdict-refused [] h = cc
verdict-refused (v ∷ vs) h = (pick_winner v vs, refl, refl, refl, pick_winner-IsTop v vs)

either :
    (b : Bool) (xs ys : List Violation)
    → (zs : List Violation) × ((if b then verdict xs else verdict ys) ≡ verdict zs)
either true xs ys = (xs, refl)
either false xs ys = (ys, refl)

-- A refusal carries the code and the payload of one of its violations, and none of the violations
-- that it lists has a higher precedence.
pub refusal_precedence :
    (p : Policy) (req : Check) (w : ℕ) (now : Instant)
    → (evaluate p req w now).allowed ≡ false
    → (top : Violation) × ((evaluate p req w now).code ≡ some top.code)
      × ((evaluate p req w now).detail ≡ some top.detail)
      × IsTop top (evaluate p req w now).violations
unfolding evaluate
refusal_precedence p req w now h =
    let (vs, e) = either req.typed_unknown _ _ in
    let (top, code, detail, listed, best) = verdict-refused vs (ap (λ d. d.allowed) (sym e) ∙ h) in
    (
      top,
      ap (λ d. d.code) e ∙ code,
      ap (λ d. d.detail) e ∙ detail,
      subst (IsTop top) (sym (ap (λ d. d.violations) e ∙ listed)) best,
    )
