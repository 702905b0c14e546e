-- ===== src/Policy/Transitions/Replacement.antt =====
-- The reservation of a speed-up or a cancellation, whose debit stands under the id of the entry that
-- it replaces (internal/policy/policy.go, `debitCounter` and `counterTransition`).
use daxie.Prelude.{◌≡◌, true, is_some}
use daxie.Prelude.Results.{Result, ok, err}
use daxie.Prelude.Text.{Text}
use daxie.Policy.Types.{Policy, Check, Address}
use daxie.Policy.Counter.{CounterFile}
use daxie.Policy.Reservation.{Reservation}
use daxie.Policy.Store.{Error, Store}
use daxie.Policy.Store.Inversion.{held}
use daxie.Policy.Engine.{superseded}
use daxie.Policy.Reserve.Durable.{LacksId}

-- No counter file has an entry under this id.
abbrev pub NoEntry : Text → Store → Type 0
NoEntry id st = (network : Text) (a : Address) → LacksId id (held st network a)

-- ── the replacement writes no entry of its own ──

-- The request replaces an entry of the file.
abbrev pub Replaces : Check → Result Error CounterFile → Type 0
Replaces c (ok cf) = is_some (superseded c cf) ≡ true
Replaces c (err e) = Unit
