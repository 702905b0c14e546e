-- ===== src/Policy/Candidates/Settlement.antt =====
-- The gas that a receipt settles, and its effect on what an entry counts for
-- (internal/policy/policy.go, `SettleActual`).
use daxie.Prelude.{ℕ, ◌≤◌, ◌≡◌, refl, ap, ◌∙◌, Bool, Option, none, some, if◌then◌else◌, arith, ltb}
use daxie.Prelude.Int.{ℤ, pos, negsuc}
use daxie.Prelude.Text.{Text, codes}
use daxie.Decimal.{set_string}
use daxie.Decimal.RoundTrip.{set_string-format_int}
use daxie.Policy.Counter.{Candidate, raise_to, gas_of}
use daxie.Policy.Reservation.{settled_gas, lower_to}
use daxie.Policy.Candidates.{settle_candidate}
use daxie.Policy.Candidates.Shrinking.{Shrinks}

-- An amount of text that reads as a natural number.
abbrev pub Reads : Text → ℕ → Type 0
Reads s n = set_string s ≡ some (pos n)

-- What an earlier settlement left behind, if there was one, is a natural number.
abbrev pub ReadsBefore : Option Text → Type 0
ReadsBefore none = Unit
ReadsBefore (some s) = (a : ℕ) × Reads s a

-- The bound that an earlier settlement sets.
abbrev pub NotAbove : (before : Option Text) → ReadsBefore before → ℕ → Type 0
NotAbove none h n = Unit
NotAbove (some s) h n = n ≤ h.0

lower_to-pos : (a b : ℕ) → lower_to (pos a) (some (pos b)) ≡ pos (if ltb b a then b else a)
unfolding lower_to
lower_to-pos a b = ground arith

-- Where the worst case and an earlier settlement read as natural numbers, settled gas is a natural
-- number that is never above what the receipt says, the worst case, or the earlier settlement.
pub settled_gas_bounds :
    (actual w : ℕ) (before : Option Text) (worst : Text) (b : ReadsBefore before)
    → Reads worst w
    → (n : ℕ) × (settled_gas actual before worst ≡ pos n)
      × (n ≤ actual)
      × (n ≤ w)
      × NotAbove before b n
unfolding settled_gas
settled_gas_bounds actual w none worst b h = (
  if ltb w actual then w else actual,
  rw h (lower_to-pos actual w),
  ground arith,
  ground arith,
  tt,
)
settled_gas_bounds actual w (some s) worst (a, r) h =
    let m : ℕ = if ltb a actual then a else actual in
    (
      if ltb w m then w else m,
      rw (h, r) (ap (λ z. lower_to z (some (pos w))) (lower_to-pos actual a) ∙ lower_to-pos m w),
      ground arith,
      ground arith,
      ground arith,
    )

-- A candidate whose amounts read as natural numbers.
pub record IsSound (c : Candidate) : Type 0 where
  pub worst : ℕ
  pub worst_reads : Reads c.gas_max_wei worst
  pub before : ReadsBefore c.gas_actual_wei

raise_to_le : (m n b : ℕ) → n ≤ b → raise_to m (some (pos n)) ≤ raise_to m (some (pos b))
unfolding raise_to
raise_to_le m n b h = ground arith

le_raise_to : (m : ℕ) (z : Option ℤ) → m ≤ raise_to m z
unfolding raise_to
le_raise_to m none = omega arith
le_raise_to m (some (pos v)) = ground arith
le_raise_to m (some (negsuc v)) = omega arith

zero_reads : set_string (codes "0") ≡ some (pos 0)
unfolding set_string
zero_reads = refl

raise_to-zero : (m : ℕ) → raise_to m (set_string (codes "0")) ≡ m
unfolding raise_to
raise_to-zero m = rw zero_reads (ground arith)

-- The amount of gas that counted before a settlement.
counted :
    (before : Option Text) (worst : Text) (w n : ℕ) (b : ReadsBefore before)
    → Reads worst w
    → n ≤ w
    → NotAbove before b n
    → (m : ℕ)
    → raise_to m (some (pos n))
      ≤ raise_to m (elim before [ some s ↦ set_string s | none ↦ set_string worst ])
counted none worst w n b h le above m = rw h (raise_to_le m n w le)
counted (some s) worst w n (a, r) h le above m = rw r (raise_to_le m n a above)

settle_gas_lem :
    (actual m : ℕ) (reverted : Bool) (c : Candidate)
    → IsSound c
    → raise_to m (gas_of (settle_candidate actual reverted c)) ≤ raise_to m (gas_of c)
unfolding gas_of settle_candidate
settle_gas_lem actual m reverted c s =
    let (n, e, _, le_worst, le_before) =
      settled_gas_bounds actual s.worst c.gas_actual_wei c.gas_max_wei s.before s.worst_reads in
    rw (set_string-format_int (settled_gas actual c.gas_actual_wei c.gas_max_wei), e)
      (counted c.gas_actual_wei c.gas_max_wei s.worst n s.before s.worst_reads le_worst le_before m)

pub settle-Shrinks :
    (actual : ℕ) (reverted : Bool) (c : Candidate)
    → IsSound c
    → Shrinks (settle_candidate actual reverted) c
unfolding settle_candidate
settle-Shrinks actual reverted c s = record {
  stays_released = λ h. h;
  value_shrinks = λ m. ground (arith, raise_to-zero m, le_raise_to m (set_string c.value_wei));
  gas_shrinks = λ m. ground (arith, settle_gas_lem actual m reverted c s);
}
