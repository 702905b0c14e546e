-- ===== src/Policy/Engine.antt =====
-- The accounts of a network, and the spend window over all of them (internal/policy/policy.go,
-- `networkAccounts`, `aggregateWindow` and `windowFor`).
pub mod Accounts
pub mod Budget
pub mod Gate
use daxie.Prelude.{
  ℕ, ◌+◌, ◌-◌, Bool, true, false, not, ◌&&◌, ◌||◌, Option, none, some, List, [], ◌∷◌, ◌++◌, ltb,
  any, if◌then◌else◌,
}
use daxie.Prelude.Results.{Result, ok, err}
use daxie.Prelude.Text.{Text, codes, text_eq, is_empty}
use daxie.Decimal.{format_nat}
use daxie.Policy.Types
use daxie.Policy.Types.{
  Policy, Check, Kind, Address, Instant, zero_address, effective_kind, spend_wei, Decision,
}
use daxie.Policy.Stages.Amounts.{is_gasless}
use daxie.Policy.Evaluate.{allow, evaluate}
use daxie.Policy.Counter
use daxie.Policy.Counter.{
  CounterFile, Entry, Candidate, sum_window, sum_window_excluding, find_entry, find_entry_by_nonce,
  max_value_wei, reserved_candidate, debit_entries, update_first, update_primary,
}
use daxie.Policy.Reservation.{
  Reservation, Log, find_id, put, commit_reservation, settle_reservation, release_reservation,
}
use daxie.Policy.Candidates.{commit_candidate, release_candidate, settle_candidate}
use daxie.Policy.Retry.{RbfContext, WindowEntry, window_entries, refine_retry_after}
use daxie.Policy.Store
use daxie.Policy.Store.{
  Error, policy_denied, Store, Env, Action, ◌>>=◌, ◌>>◌, pure, raise, lift, expect, load_counter,
  write_counter, read_log, write_log, transition, network_key,
}

-- ── the accounts of a network ──

-- The closure `add`.
unfoldable pub add_account : List Address → Address → List Address
add_account out a =
    if text_eq a zero_address || any (λ b. text_eq b a) out then out else out ++ a ∷ []

unfoldable pub add_accounts : List Address → List Address → List Address
unfolding add_account
add_accounts out [] = out
add_accounts out (a ∷ as_) = add_accounts (add_account out a) as_

-- What the keystore hook lists, and the signing account.
unfoldable pub network_accounts : List Address → Address → List Address
unfolding add_accounts
network_accounts hooked signer = add_account (add_accounts [] hooked) signer

-- ── the window over all accounts ──

-- The window of one account, without an entry of it that is replaced.
unfoldable pub window_of : CounterFile → Address → Instant → Option (Address × Text) → ℕ
window_of cf acct now none = sum_window cf now
window_of cf acct now (some (a, id)) =
    if not (is_empty id) && text_eq acct a
    then sum_window_excluding cf now id
    else sum_window cf now

unfoldable pub aggregate_window : Text → List Address → Instant → Option (Address × Text) → Action ℕ
unfolding window_of
aggregate_window network [] now exclude = pure 0
aggregate_window network (a ∷ accounts) now exclude = do
  cf ← load_counter network a
  rest ← aggregate_window network accounts now exclude
  pure (window_of cf a now exclude + rest)

abbrev larger : ℕ → ℕ → ℕ
larger m v = if ltb m v then v else m

unfoldable pub merged_envelope : Entry → Check → ℕ
merged_envelope x c =
    larger (max_value_wei x) (spend_wei c) + larger (Counter.max_gas_wei x) (Types.max_gas_wei c)

unfoldable pub this_debit : Check → ℕ
this_debit c = spend_wei c + Types.max_gas_wei c

-- The entry that a speed-up or a cancellation replaces.
unfoldable pub superseded : Check → CounterFile → Option Entry
superseded c cf = if c.is_rbf_delta then find_entry_by_nonce cf c.account_nonce else none

unfoldable pub window_with :
    List Address → Check → Instant → Option Entry → Action (ℕ × Option RbfContext)
unfolding aggregate_window merged_envelope this_debit
window_with accounts c now none = do
  spent ← aggregate_window c.network accounts now none
  pure (spent, none)
window_with accounts c now (some x) = do
  excl ← aggregate_window c.network accounts now (some (c.account, x.id))
  let merged = merged_envelope x c
  pure (
    excl + merged - this_debit c,
    some (record { superseded_id = x.id; account = c.account; merged_env = merged }),
  )

-- The amount that the daily gate takes for the spend window.
unfoldable pub window_for :
    List Address → Check → CounterFile → Instant → Action (ℕ × Option RbfContext)
unfolding window_with superseded
window_for accounts c cf now = window_with accounts c now (superseded c cf)
