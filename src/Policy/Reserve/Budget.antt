-- ===== src/Policy/Reserve/Budget.antt =====
-- The spend of the whole network after a reservation, and the daily limit
-- (internal/policy/policy.go, `Reserve` with `windowFor` and `debitCounter`).
use daxie.Prelude.{
  ℕ, ◌+◌, ◌≤◌, ◌≡◌, ◌≢◌, refl, sym, ap, ◌∙◌, subst, inl, inr, Bool, true, false, Bool-cases, ◌&&◌,
  Option, none, some, arith, is_some, if◌then◌else◌, [], ◌∷◌,
}
use daxie.Prelude.Results.{Result, ok, err}
use daxie.Prelude.Text.{Text, is_empty, text_eq_refl}
use daxie.Policy.Types
use daxie.Policy.Types.{Policy, Check, Address, Instant, zero_address, effective_kind, spend_wei}
use daxie.Policy.Limits.{resolve_limits}
use daxie.Policy.Stages.Amounts.{is_gasless}
use daxie.Policy.Stages.Amounts.Passing.{Within, Within-antitone}
use daxie.Policy.Evaluate.Safety.{allowed-Within}
use daxie.Policy.Counter.{
  CounterFile, Entry, sum_window, sum_entries, sum_others, sum_window_excluding,
  find_entry_by_nonce, debit_entries, is_old, all_candidates_terminal, prune_counter,
  reserved_candidate,
}
use daxie.Policy.Counter.Entries.{DistinctIds, text_eq_ne, sum_others-le, sum-reject}
use daxie.Policy.Counter.Window.{debit_entries-fresh, debit_entries-replace}
use daxie.Policy.Store.{Error, Store, Env, stamped, network_key, read_counter, fill_names}
use daxie.Policy.Store.Inversion.{held, with_counter}
use daxie.Policy.Engine.{
  network_accounts, aggregate_window, superseded, this_debit, window_of, window_for,
  merged_envelope,
}
use daxie.Policy.Engine.Accounts.{network_accounts-Distinct, network_accounts-signer}
use daxie.Policy.Engine.Budget.{about, total-change, aggregate-total}
use daxie.Policy.Engine.Gate.{replaced, envelope, window_for-gate}
use daxie.Policy.Reservation.{Log, Reservation}
use daxie.Policy.Retry.{RbfContext}
use daxie.Policy.Reserve.{Call, reserve, debit_counter, new_reservation, fresh_entry}
use daxie.Policy.Reserve.Outcomes.{reserve-Reserved, debited, with_log, written}

-- ── the counter file that is written ──

pub held-with_counter :
    (st : Store) (network : Text) (a : Address) (cf : CounterFile) (now : Instant)
    → held (with_counter st network a cf now) network a ≡ ok (fill_names network a (stamped cf now))
unfolding read_counter
held-with_counter st network a cf now = rw (text_eq_refl (network_key network), text_eq_refl a) refl

held-elsewhere :
    (st : Store) (network : Text) (a b : Address) (cf : CounterFile) (now : Instant)
    → b ≢ a
    → held (with_counter st network a cf now) network b ≡ held st network b
held-elsewhere st network a b cf now h =
    rw (text_eq_refl (network_key network), text_eq_ne b a h) refl

pub sum_window-stamped :
    (network : Text) (a : Address) (cf : CounterFile) (now : Instant)
    → sum_window (fill_names network a (stamped cf now)) now ≡ sum_window cf now
unfolding sum_window fill_names prune_counter
sum_window-stamped network a cf now =
    sum-reject now (λ e. is_old e.ts now && all_candidates_terminal e) (λ e h. ground arith)
      cf.entries

window_of-replaced :
    (cf : CounterFile) (a : Address) (now : Instant) (id : Text)
    → sum_others cf.entries now id ≤ window_of cf a now (some (a, id))
unfolding window_of sum_window sum_window_excluding
window_of-replaced cf a now id = rw (text_eq_refl a) (elim (Bool-cases (is_empty id)) [
  | inl blank ↦ rw blank (sum_others-le now id cf.entries)
  | inr named ↦ rw named (omega arith)
])

-- What the window of an account becomes, by what a debit replaces.
debit-cases :
    (c : Check) (cf : CounterFile) (a : Address) (now : Instant) (n : Option ℕ) (fresh : Entry)
    → DistinctIds cf.entries
    → fresh.ts ≡ now
    → fresh.candidates ≡ reserved_candidate (spend_wei c) (Types.max_gas_wei c) ∷ []
    → (is_rbf : Bool) (o : Option Entry) → find_entry_by_nonce cf n ≡ o
    → sum_entries
        (debit_entries cf is_rbf n (reserved_candidate (spend_wei c) (Types.max_gas_wei c)) fresh)
        now
      ≤ window_of cf a now (about a (replaced (if is_rbf then o else none)))
        + envelope (if is_rbf then o else none) c
unfolding sum_window this_debit window_of merged_envelope
debit-cases c cf a now n fresh d ts cs false o f =
    omega (
      arith,
      debit_entries-fresh cf false n fresh (spend_wei c) (Types.max_gas_wei c) now refl ts cs,
    )
debit-cases c cf a now n fresh d ts cs true none f =
    let h : is_some (find_entry_by_nonce cf n) ≡ false = ap is_some f in
    omega
      (arith, debit_entries-fresh cf true n fresh (spend_wei c) (Types.max_gas_wei c) now h ts cs)
debit-cases c cf a now n fresh d ts cs true (some x) f = omega (
  arith,
  debit_entries-replace cf n fresh x (spend_wei c) (Types.max_gas_wei c) now d f,
  window_of-replaced cf a now x.id,
)

debited-window :
    (call : Call) (p : Policy) (c : Check) (cf : CounterFile)
    → DistinctIds cf.entries
    → sum_window (debited call p c cf) call.now
      ≤ window_of cf c.account call.now (about c.account (replaced (superseded c cf)))
        + envelope (superseded c cf) c
unfolding sum_window debit_counter superseded fresh_entry
debited-window call p c cf d =
    debit-cases c cf c.account call.now c.account_nonce
      (fresh_entry (new_reservation call c) c call.now) d refl refl c.is_rbf_delta
      (find_entry_by_nonce cf c.account_nonce) refl

-- The ids of a counter file that could be read.
abbrev pub HasDistinctIds : Result Error CounterFile → Type 0
HasDistinctIds (ok cf) = DistinctIds cf.entries
HasDistinctIds (err e) = Unit

-- Whatever passes the gate is within the limit for a day, counted after the write.
module _ (call : Call) (p : Policy) (c : Check) where
  IsBudgeted : (st' : Store) → Type 0
  IsBudgeted st' =
      (t : ℕ) × (aggregate_window c.network (network_accounts call.hooked c.account) call.now none
          st'
        ≡ (ok t, st'))
      × Within (resolve_limits p c.network).max_day t

  written-IsBudgeted :
      (st : Store) (log : Log) (cf : CounterFile) (spent : ℕ) (rbf : Option RbfContext)
      → held st c.network c.account ≡ ok cf
      → DistinctIds cf.entries
      → c.account ≢ zero_address
      → window_for (network_accounts call.hooked c.account) c cf call.now st ≡ (ok (spent, rbf), st)
      → Within (resolve_limits p c.network).max_day (spent + this_debit c)
      → IsBudgeted (written call p c st log cf)
  unfolding IsBudgeted
  written-IsBudgeted st log cf spent rbf holds d nz w fits =
      let accounts = network_accounts call.hooked c.account in
      let ex = replaced (superseded c cf) in
      let st' = written call p c st log cf in
      let (t0, sum0, gate, _) = window_for-gate accounts c cf call.now st w in
      let cf' = fill_names c.network c.account (stamped (debited call p c cf) call.now) in
      let (t', sum', change) =
        total-change c.account call.now ex (held st c.network) (held st' c.network)
          (λ b n.
            held-elsewhere (with_log st log (new_reservation call c)) c.network c.account b
              (debited call p c cf) call.now n)
          cf cf' holds
          (held-with_counter (with_log st log (new_reservation call c)) c.network c.account
            (debited call p c cf) call.now)
          accounts t0 (network_accounts-Distinct call.hooked c.account)
          (network_accounts-signer call.hooked c.account nz) sum0 in
      let le : t' ≤ spent + this_debit c = omega (
        arith,
        gate,
        change,
        sum_window-stamped c.network c.account (debited call p c cf) call.now,
        debited-window call p c cf d,
      ) in
      (
        t',
        aggregate-total c.network accounts call.now none st' ∙ ap (λ r. (r, st')) sum',
        Within-antitone _ t' _ le fits,
      )

-- With a policy in force, a reservation that succeeds leaves the spend window of the network,
-- over every account that the keystore lists and the signer, within the policy's daily limit: for
-- a request without unrecognised typed data that costs gas, from an account that is not the zero
-- address and whose counter entries, where the file can be read, have distinct ids.
pub reserve-Within :
    (env : Env) (call : Call) (p : Policy) (c : Check) (st : Store) (r : Reservation) (st' : Store)
    → c.typed_unknown ≡ false
    → is_gasless (effective_kind c) ≡ false
    → c.account ≢ zero_address
    → HasDistinctIds (held st c.network c.account)
    → reserve env call (ok (some p)) c st ≡ (ok r, st')
    → (t : ℕ) × (aggregate_window c.network
          (network_accounts call.hooked c.account)
          call.now
          none
          st'
        ≡ (ok t, st'))
      × Within (resolve_limits p c.network).max_day t
unfolding IsBudgeted this_debit
reserve-Within env call p c st r st' t k nz d h =
    let s = reserve-Reserved env call p c st k h in
    let fits = (allowed-Within p c s.spent call.now t k s.allowed).1 in
    subst (IsBudgeted call p c) (sym s.writes) (
      written-IsBudgeted call p c st s.log s.cf s.spent s.rbf s.holds
        (subst HasDistinctIds s.holds d) nz s.window fits)
