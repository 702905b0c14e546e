-- ===== src/Policy/Retry/Verdict.antt =====
-- The verdict, before and after a better retry_after (internal/policy/policy.go, `refineRetryAfter`).
use daxie.Prelude.{ℕ, ◌≡◌, refl, Bool, true, false, ◌==◌, Option, none, some, List, if◌then◌else◌}
use daxie.Prelude.Int.{ℤ}
use daxie.Decimal.{set_string}
use daxie.Policy.Types.{Decision, Detail}
use daxie.Policy.Retry.{
  WindowEntry, with_retry, refine_by, is_day_limit, refine_retry_after, first_fit, total_wei,
  sort_window,
}

-- The verdict, its code and the list of violations are the same.
abbrev pub SameVerdict : Decision → Decision → Type 0
SameVerdict d d' = (d'.allowed ≡ d.allowed) × (d'.code ≡ d.code) × (d'.violations ≡ d.violations)

either :
    (b : Bool) (d x y : Decision)
    → SameVerdict d x
    → SameVerdict d y
    → SameVerdict d (if b then x else y)
either true d x y hx hy = hx
either false d x y hx hy = hy

with_retry-SameVerdict : (d : Decision) (w : Option WindowEntry) → SameVerdict d (with_retry d w)
unfolding with_retry
with_retry-SameVerdict d none = (refl, refl, refl)
with_retry-SameVerdict d (some w) = either (w.ts == 0) d d _ (refl, refl, refl) (refl, refl, refl)

by_limit :
    (d : Decision) (l : Option ℤ) (f : ℤ → Option WindowEntry)
    → SameVerdict d (elim l [ none ↦ d | some l ↦ with_retry d (f l) ])
by_limit d none f = (refl, refl, refl)
by_limit d (some l) f = with_retry-SameVerdict d (f l)

refine_by-SameVerdict :
    (x : Option Detail) (d : Decision) (debit : ℕ) (ws : List WindowEntry)
    → SameVerdict d (refine_by x d debit ws)
unfolding refine_by
refine_by-SameVerdict (some (Detail.over_day l u a t)) d debit ws =
    by_limit d (set_string l) (λ l. first_fit (total_wei ws) debit l (sort_window ws))
refine_by-SameVerdict none d debit ws = (refl, refl, refl)
refine_by-SameVerdict (some (Detail.destination _ _ _)) d debit ws = (refl, refl, refl)
refine_by-SameVerdict (some (Detail.on_network _)) d debit ws = (refl, refl, refl)
refine_by-SameVerdict (some (Detail.drift _ _ _ _)) d debit ws = (refl, refl, refl)
refine_by-SameVerdict (some (Detail.permit_chain _)) d debit ws = (refl, refl, refl)
refine_by-SameVerdict (some (Detail.typed_message _ _ _ _)) d debit ws = (refl, refl, refl)
refine_by-SameVerdict (some (Detail.call _ _ _ _)) d debit ws = (refl, refl, refl)
refine_by-SameVerdict (some (Detail.over_tx _ _ _)) d debit ws = (refl, refl, refl)
refine_by-SameVerdict (some (Detail.token_spender _ _ _)) d debit ws = (refl, refl, refl)
refine_by-SameVerdict (some (Detail.over_gas _ _)) d debit ws = (refl, refl, refl)

-- Looking for an earlier retry_after changes neither the verdict, nor its code, nor the violations.
pub refine_retry_after-SameVerdict :
    (d : Decision) (debit : ℕ) (ws : List WindowEntry)
    → SameVerdict d (refine_retry_after d debit ws)
unfolding refine_retry_after
refine_retry_after-SameVerdict d debit ws =
    either d.allowed d d _ (refl, refl, refl)
      (either (is_day_limit d.code) d _ d (refine_by-SameVerdict d.detail d debit ws)
        (refl, refl, refl))
