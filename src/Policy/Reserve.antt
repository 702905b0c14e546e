-- ===== src/Policy/Reserve.antt =====
-- The check and the reservation before a signature (internal/policy/policy.go, `Evaluate` and
-- `Reserve`). The loaded policy is an argument: an error, none, or the verified body.
pub mod Outcomes
pub mod Failure
pub mod Agreement
pub mod Budget
pub mod Durable
use daxie.Prelude.{
  ℕ, ◌+◌, Bool, true, false, ◌||◌, Option, none, some, List, [], ◌∷◌, ◌++◌, if◌then◌else◌, get_or,
  is_some,
}
use daxie.Prelude.Results.{Result, ok, err}
use daxie.Prelude.Text.{Text, codes, is_empty}
use daxie.Decimal.{format_nat}
use daxie.Policy.Types
use daxie.Policy.Types.{
  Policy, Check, Kind, Address, Instant, zero_address, effective_kind, spend_wei, Code, Decision,
}
use daxie.Policy.Stages.Amounts.{is_gasless}
use daxie.Policy.Evaluate.{allow, evaluate}
use daxie.Policy.Counter.{CounterFile, Entry, reserved_candidate, debit_entries}
use daxie.Policy.Reservation
use daxie.Policy.Reservation.{Reservation, ReservationState}
use daxie.Policy.Retry.{RbfContext, WindowEntry, window_entries, refine_retry_after}
use daxie.Policy.Store.{
  Error, Env, Action, Store, ◌>>=◌, ◌>>◌, pure, raise, lift, expect, load_counter, write_counter,
  read_log, write_log,
}
use daxie.Policy.Engine.{network_accounts, window_for, this_debit}

-- What a call reads from outside: the accounts that the keystore hook lists, the id and the instant
-- of the new reservation, and the clock inside the network lock.
pub record Call : Type 0 where
  pub hooked : List Address
  pub fresh_id : Text
  pub started : Instant
  pub now : Instant

-- ── retry_after ──

unfoldable gather : Text → List Address → Instant → Option RbfContext → Action (List WindowEntry)
gather network [] now rbf = pure []
gather network (a ∷ accounts) now rbf = do
  cf ← load_counter network a
  rest ← gather network accounts now rbf
  pure (window_entries rbf a now cf.entries ++ rest)

unfoldable pub refine_with : Decision → ℕ → Result Error (List WindowEntry) → Decision
refine_with dec debit (ok ws) = refine_retry_after dec debit ws
refine_with dec debit (err _) = dec

unfoldable pub refine :
    Decision → Check → List Address → Instant → Option RbfContext → Store → Decision
unfolding gather refine_with
refine dec c accounts now rbf st =
    refine_with dec (if is_some rbf then 0 else this_debit c)
      (gather c.network accounts now rbf st).0

-- ── the check without a write ──

unfoldable pub check_window : Call → Policy → Check → Action Decision
check_window call p c = do
  cf ← load_counter c.network c.account
  (spent, rbf) ← window_for (network_accounts call.hooked c.account) c cf call.now
  λ st. (
    ok (
        refine (evaluate p c spent call.now) c (network_accounts call.hooked c.account) call.now rbf
          st),
    st,
  )

unfoldable pub check_active : Env → Call → Check → Option Policy → Action Decision
unfolding check_window
check_active env call c none = pure allow
check_active env call c (some p) = expect env.net_lock >> check_window call p c

unfoldable pub engine_evaluate : Env → Call → Result Error (Option Policy) → Check → Action Decision
unfolding check_active
engine_evaluate env call active c = do present ← lift active; check_active env call c present

-- ── the reservation ──

unfoldable pub new_reservation : Call → Check → Reservation
new_reservation call c = record {
  id = call.fresh_id;
  account = c.account;
  dest = c.dest;
  spend_wei = format_nat (spend_wei c);
  max_gas_wei = format_nat (Types.max_gas_wei c);
  state = ReservationState.reserved;
  hash = [];
  actual_gas_wei = none;
  ts = call.started;
  network = c.network;
  policy_nonce = 0;
}

-- The zero value, which `Reserve` returns for a permit.
abbrev pub no_reservation : Reservation
no_reservation = record {
  id = [];
  account = zero_address;
  dest = zero_address;
  spend_wei = [];
  max_gas_wei = [];
  state = ReservationState.other [];
  hash = [];
  actual_gas_wei = none;
  ts = 0;
  network = [];
  policy_nonce = 0;
}

unfoldable pub write_reservation : Env → Reservation → Action (Unit {0})
write_reservation env r = do expect env.log_lock; log ← read_log; write_log env log r

asset_of : Check → Text
asset_of c =
    if is_empty c.asset then (if is_empty c.token then codes "eth" else c.token) else c.asset

unfoldable pub fresh_entry : Reservation → Check → Instant → Entry
unfolding asset_of
fresh_entry r c now = record {
  id = r.id;
  ts = now;
  account_nonce = c.account_nonce;
  kind = c.kind;
  asset = asset_of c;
  candidates = reserved_candidate (spend_wei c) (Types.max_gas_wei c) ∷ [];
}

unfoldable pub debit_counter : CounterFile → Reservation → Check → Instant → CounterFile
debit_counter cf r c now = record cf {
  entries =
      debit_entries cf c.is_rbf_delta c.account_nonce
        (reserved_candidate (spend_wei c) (Types.max_gas_wei c)) (fresh_entry r c now);
}

is_retryable : Code → Bool
is_retryable Code.day_limit = true
is_retryable Code.gas_cap = true
is_retryable Code.denied = false
is_retryable Code.tx_limit = false
is_retryable Code.allowlist = false
is_retryable Code.no_allowlist = false
is_retryable Code.pin_drift = false
is_retryable Code.typed_data = false
is_retryable Code.unlimited_unacked = false
is_retryable Code.contract_call = false

unfoldable pub denied_error : Decision → Error
unfolding is_retryable
denied_error d =
    let code = get_or d.code Code.denied in Error.policy_denied code d.detail (is_retryable code)

-- The record goes to the log before the debit goes to the counter.
unfoldable pub write_both : Env → Call → Policy → Check → CounterFile → Action Reservation
write_both env call p c cf = do
  write_reservation env (new_reservation call c)
  write_counter env c.network c.account
      (record (debit_counter cf (new_reservation call c) c call.now) { policy_nonce = p.nonce })
      call.now
  pure (new_reservation call c)

-- What follows the verdict.
unfoldable pub after_verdict :
    Env → Call → Policy → Check → CounterFile → Option RbfContext → Decision → Action Reservation
unfolding write_both refine
after_verdict env call p c cf rbf dec st =
    if dec.allowed
    then (if is_gasless (effective_kind c)
        then (ok no_reservation, st)
        else write_both env call p c cf st)
    else (
      err (denied_error (refine dec c (network_accounts call.hooked c.account) call.now rbf st)),
      st,
    )

unfoldable pub reserve_window : Env → Call → Policy → Check → Action Reservation
unfolding after_verdict
reserve_window env call p c = do
  cf ← load_counter c.network c.account
  (spent, rbf) ← window_for (network_accounts call.hooked c.account) c cf call.now
  after_verdict env call p c cf rbf (evaluate p c spent call.now)

unfoldable pub reserve_active : Env → Call → Check → Option Policy → Action Reservation
unfolding reserve_window
reserve_active env call c none = do
  write_reservation env (new_reservation call c)
  pure (new_reservation call c)
reserve_active env call c (some p) = expect env.net_lock >> reserve_window env call p c

unfoldable pub reserve : Env → Call → Result Error (Option Policy) → Check → Action Reservation
unfolding reserve_active
reserve env call active c = do present ← lift active; reserve_active env call c present
