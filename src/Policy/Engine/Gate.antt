-- ===== src/Policy/Engine/Gate.antt =====
-- What the daily gate compares with the limit (internal/policy/policy.go, `windowFor`).
use daxie.Prelude.{ℕ, ◌+◌, ◌-◌, ◌≤◌, ◌≡◌, refl, sym, ap, ◌∙◌, Option, none, some, List, arith}
use daxie.Prelude.Results.{ok}
use daxie.Prelude.Text.{Text}
use daxie.Policy.Types.{Address, Instant, Check}
use daxie.Policy.Counter.{CounterFile, Entry}
use daxie.Policy.Retry.{RbfContext}
use daxie.Policy.Store.{Store, pure}
use daxie.Policy.Store.Inversion.{held, IsQuiet, >>=-IsQuiet, >>=-ok, pure-ok}
use daxie.Policy.Engine.{
  aggregate_window, merged_envelope, this_debit, superseded, window_with, window_for,
}
use daxie.Policy.Engine.Budget.{total, about, aggregate-total}

-- The merged envelope is at least the debit, so the subtraction of `windowFor` is exact.
pub this_debit-le : (x : Entry) (c : Check) → this_debit c ≤ merged_envelope x c
unfolding this_debit merged_envelope
this_debit-le x c = ground arith

-- The id of the entry that is replaced.
abbrev pub replaced : Option Entry → Option Text
replaced none = none
replaced (some x) = some x.id

-- What the request adds to the rest of the window.
abbrev pub envelope : Option Entry → Check → ℕ
envelope none c = this_debit c
envelope (some x) c = merged_envelope x c

aggregate-ok :
    (network : Text) (as_ : List Address) (now : Instant) (ex : Option (Address × Text))
    (st : Store) {n : ℕ} {st1 : Store}
    → aggregate_window network as_ now ex st ≡ (ok n, st1)
    → (total (held st network) as_ now ex ≡ ok n) × (st1 ≡ st)
aggregate-ok network as_ now ex st h =
    let e = sym (aggregate-total network as_ now ex st) ∙ h in
    (ap (λ p. p.0) e, sym (ap (λ p. p.1) e))

window_with-gate :
    (accounts : List Address) (c : Check) (now : Instant) (o : Option Entry) (st : Store)
    {spent : ℕ} {rbf : Option RbfContext} {st1 : Store}
    → window_with accounts c now o st ≡ (ok (spent, rbf), st1)
    → (t : ℕ) × (total (held st c.network) accounts now (about c.account (replaced o)) ≡ ok t)
      × (spent + this_debit c ≡ t + envelope o c)
      × (st1 ≡ st)
unfolding window_with
window_with-gate accounts c now none st {spent} h =
    let (t, st0, e, g) =
      >>=-ok (aggregate_window c.network accounts now none) (λ spent. pure (spent, none)) st h in
    let (sum, same) = aggregate-ok c.network accounts now none st e in
    let (same_pair, same_st) = pure-ok (t, none) _ st0 _ g in
    let first : t ≡ spent = ap (λ p. p.0) same_pair in
    (t, sum, omega (arith, first), sym same_st ∙ same)
window_with-gate accounts c now (some x) st {spent} h =
    let (t, st0, e, g) =
      >>=-ok (aggregate_window c.network accounts now (some (c.account, x.id))) _ st h in
    let (sum, same) = aggregate-ok c.network accounts now (some (c.account, x.id)) st e in
    let (same_pair, same_st) = pure-ok (t + merged_envelope x c - this_debit c, _) _ st0 _ g in
    let first : t + merged_envelope x c - this_debit c ≡ spent = ap (λ p. p.0) same_pair in
    (t, sum, omega (arith, first, this_debit-le x c), sym same_st ∙ same)

aggregate_window-IsQuiet :
    (network : Text) (as_ : List Address) (now : Instant) (ex : Option (Address × Text))
    → IsQuiet (aggregate_window network as_ now ex)
aggregate_window-IsQuiet network as_ now ex st =
    ap (λ p. p.1) (aggregate-total network as_ now ex st)

window_with-IsQuiet :
    (accounts : List Address) (c : Check) (now : Instant) (o : Option Entry)
    → IsQuiet (window_with accounts c now o)
unfolding window_with
window_with-IsQuiet accounts c now none =
    >>=-IsQuiet (aggregate_window c.network accounts now none) _
      (aggregate_window-IsQuiet c.network accounts now none) (λ _ st. refl)
window_with-IsQuiet accounts c now (some x) =
    >>=-IsQuiet (aggregate_window c.network accounts now (some (c.account, x.id))) _
      (aggregate_window-IsQuiet c.network accounts now (some (c.account, x.id))) (λ _ st. refl)

pub window_for-IsQuiet :
    (accounts : List Address) (c : Check) (cf : CounterFile) (now : Instant)
    → IsQuiet (window_for accounts c cf now)
unfolding window_for
window_for-IsQuiet accounts c cf now = window_with-IsQuiet accounts c now (superseded c cf)

pub window_for-gate :
    (accounts : List Address) (c : Check) (cf : CounterFile) (now : Instant) (st : Store)
    {spent : ℕ} {rbf : Option RbfContext} {st1 : Store}
    → window_for accounts c cf now st ≡ (ok (spent, rbf), st1)
    → (t : ℕ) × (total
          (held st c.network)
          accounts
          now
          (about c.account (replaced (superseded c cf)))
        ≡ ok t)
      × (spent + this_debit c ≡ t + envelope (superseded c cf) c)
      × (st1 ≡ st)
unfolding window_for
window_for-gate accounts c cf now st h = window_with-gate accounts c now (superseded c cf) st h
