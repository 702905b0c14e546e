-- ===== src/Policy/Stages/Amounts/Passing.antt =====
-- What it means that a stage on amounts passes (internal/policy/evaluate.go, stages 6 to 8).
use daxie.Prelude.{
  ℕ, ◌≤◌, ◌+◌, ◌≡◌, ◌⊎◌, inl, inr, refl, true, false, ◌||◌, ◌==◌, Option, none, some, arith,
  Bool-cases,
}
use daxie.Prelude.Int.{ℤ, pos, negsuc, ◌≤ℤ◌}
use daxie.Prelude.Text.{Text}
use daxie.Policy.Types.{
  Policy, Check, Kind, Instant, effective_kind, spend_wei, max_gas_wei, max_fee_per_gas,
}
use daxie.Policy.Limits.{ResolvedLimits, exceeds}
use daxie.Policy.Stages.Amounts.{
  is_gasless, is_approval, tx_check, day_check, gas_check, stage_per_tx, stage_daily, stage_gas_cap,
  stage_unlimited, token_hard_deny, token_of, is_unlimited_amount,
}

-- A limit that is in force is kept.
abbrev pub Within : Option ℤ → ℕ → Type 0
Within none n = Unit
Within (some l) n = pos n ≤ℤ l

pub exceeds-false : (n : ℕ) (l : ℤ) → exceeds n l ≡ false → pos n ≤ℤ l
unfolding exceeds
exceeds-false n (pos l) h = ground arith
exceeds-false n (negsuc l) h = cc

pub exceeds-true : (n : ℕ) (l : ℤ) → exceeds n l ≡ true → ¬ (pos n ≤ℤ l)
unfolding exceeds
exceeds-true n (pos l) h = ground arith
exceeds-true n (negsuc l) h = ground arith

tx_check-none : (m : Option ℤ) (n : ℕ) (network : Text) → tx_check m n network ≡ none → Within m n
unfolding tx_check
tx_check-none none n network h = tt
tx_check-none (some l) n network h = ground (arith, exceeds-false n l)

day_check-none :
    (m : Option ℤ) (used debit : ℕ) (now : Instant)
    → day_check m used debit now ≡ none
    → Within m (used + debit)
unfolding day_check
day_check-none none used debit now h = tt
day_check-none (some l) used debit now h = ground (arith, exceeds-false (used + debit) l)

day_check-passes :
    (m : Option ℤ) (used debit : ℕ) (now : Instant)
    → Within m (used + debit)
    → day_check m used debit now ≡ none
unfolding day_check
day_check-passes none used debit now h = refl
day_check-passes (some l) used debit now h = ground (arith, exceeds-true (used + debit) l)

gas_check-none : (m : Option ℤ) (n : ℕ) → gas_check m n ≡ none → (n ≡ 0) ⊎ Within m n
unfolding gas_check
gas_check-none none n h = inr tt
gas_check-none (some l) n h = elim (Bool-cases (n == 0)) [
  | inl z ↦ inl (ground arith)
  | inr q ↦ inr (ground (arith, exceeds-false n l))
]

pub stage_per_tx-none :
    (lim : ResolvedLimits) (req : Check) (kind : Kind)
    → is_gasless kind ≡ false
    → stage_per_tx lim req kind ≡ none
    → Within lim.max_tx (spend_wei req + max_gas_wei req)
unfolding stage_per_tx
stage_per_tx-none lim req kind g h = tx_check-none lim.max_tx _ req.network (ground arith)

pub stage_daily-none :
    (lim : ResolvedLimits) (req : Check) (w : ℕ) (now : Instant)
    → is_gasless (effective_kind req) ≡ false
    → stage_daily lim req w now ≡ none
    → Within lim.max_day (w + (spend_wei req + max_gas_wei req))
unfolding stage_daily
stage_daily-none lim req w now g h = day_check-none lim.max_day w _ now (ground arith)

pub stage_gas_cap-none :
    (lim : ResolvedLimits) (req : Check)
    → stage_gas_cap lim req ≡ none
    → (max_fee_per_gas req ≡ 0) ⊎ Within lim.max_gas_price (max_fee_per_gas req)
unfolding stage_gas_cap
stage_gas_cap-none lim req h = gas_check-none lim.max_gas_price (max_fee_per_gas req) h

pub stage_unlimited-none :
    (p : Policy) (req : Check) (kind : Kind)
    → is_approval kind ≡ true
    → req.unlimited || is_unlimited_amount req.token_amt ≡ true
    → stage_unlimited p req kind ≡ none
    → (req.acked ≡ true) × (token_hard_deny p.tokens req.network (token_of req) ≡ false)
unfolding stage_unlimited
stage_unlimited-none p req kind k u h = ground arith

pub Within-antitone : (m : Option ℤ) (a b : ℕ) → a ≤ b → Within m b → Within m a
Within-antitone none a b le h = tt
Within-antitone (some l) a b le h = omega arith

-- A smaller window passes where a larger one does.
pub stage_daily-antitone :
    (lim : ResolvedLimits) (req : Check) (w' w : ℕ) (now : Instant)
    → w' ≤ w
    → stage_daily lim req w now ≡ none
    → stage_daily lim req w' now ≡ none
unfolding stage_daily
stage_daily-antitone lim req w' w now le h = elim (Bool-cases (is_gasless (effective_kind req))) [
  | inl g ↦ ground arith
  | inr b ↦
      let d = spend_wei req + max_gas_wei req in
      let passes : day_check lim.max_day w d now ≡ none = ground arith in
      ground (
        arith,
        day_check-passes lim.max_day w' d now (
            Within-antitone lim.max_day (w' + d) (w + d) (omega arith)
              (day_check-none lim.max_day w d now passes)),
      )
]
