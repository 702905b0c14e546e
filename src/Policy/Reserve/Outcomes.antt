-- ===== src/Policy/Reserve/Outcomes.antt =====
-- The outcomes of a reservation: what a success has checked and written, and what a failure leaves
-- (internal/policy/policy.go, `Reserve`).
use daxie.Prelude.{ℕ, ◌≡◌, refl, sym, ap, ◌∙◌, Bool, true, false, Option, some, if◌then◌else◌}
use daxie.Prelude.Results.{Result, ok, err}
use daxie.Policy.Types.{Policy, Check, effective_kind, Decision}
use daxie.Policy.Stages.Amounts.{is_gasless}
use daxie.Policy.Evaluate.{evaluate}
use daxie.Policy.Counter.{CounterFile}
use daxie.Policy.Reservation.{Reservation, Log, load_all, append_and_compact}
use daxie.Policy.Retry.{RbfContext}
use daxie.Policy.Store.{Error, Store, Env, expect, load_counter, write_counter, read_log}
use daxie.Policy.Store.Inversion.{
  >>=-quiet, expect-IsQuiet, load_counter-IsQuiet, read_log-IsQuiet, held, >>=-ok, load_counter-ok,
  with_counter, write_counter-ok, read_log-ok, write_log-ok, pure-ok,
}
use daxie.Policy.Engine.{network_accounts, window_for}
use daxie.Policy.Engine.Gate.{window_for-IsQuiet}
use daxie.Policy.Reserve.{
  Call, new_reservation, write_reservation, debit_counter, after_verdict, write_both,
  reserve_window, reserve_active, reserve,
}

-- The counter file that a reservation writes.
abbrev pub debited : Call → Policy → Check → CounterFile → CounterFile
debited call p c cf = record (debit_counter cf (new_reservation call c) c call.now) {
  policy_nonce = p.nonce;
}

abbrev pub with_log : Store → Log → Reservation → Store
with_log st log r = record st { log = append_and_compact log r }

-- The store that a success leaves.
abbrev pub written : Call → Policy → Check → Store → Log → CounterFile → Store
written call p c st log cf =
    with_counter (with_log st log (new_reservation call c)) c.network c.account
      (debited call p c cf) call.now

-- What a successful reservation of a request that costs gas has read, checked and written.
pub record Reserved (call : Call) (p : Policy) (c : Check) (st st' : Store) : Type 0 where
  pub cf : CounterFile
  pub spent : ℕ
  pub rbf : Option RbfContext
  pub log : Log
  pub holds : held st c.network c.account ≡ ok cf
  pub window :
      window_for (network_accounts call.hooked c.account) c cf call.now st ≡ (ok (spent, rbf), st)
  pub allowed : (evaluate p c spent call.now).allowed ≡ true
  pub logged : load_all st.log ≡ some log
  pub writes : st' ≡ written call p c st log cf

write_reservation-ok :
    (env : Env) (r : Reservation) (st : Store) {x : Unit {0}} {st1 : Store}
    → write_reservation env r st ≡ (ok x, st1)
    → (log : Log) × (load_all st.log ≡ some log) × (st1 ≡ with_log st log r)
unfolding write_reservation
write_reservation-ok env r st h =
    let (_, _, g) = >>=-quiet (expect env.log_lock) _ st (expect-IsQuiet env.log_lock) h in
    let (log, e, g') = >>=-quiet read_log _ st read_log-IsQuiet g in
    (log, (read_log-ok st e).0, write_log-ok env log r st g')

write_both-ok :
    (env : Env) (call : Call) (p : Policy) (c : Check) (cf : CounterFile) (st : Store)
    {r : Reservation} {st' : Store}
    → write_both env call p c cf st ≡ (ok r, st')
    → (log : Log) × (load_all st.log ≡ some log) × (st' ≡ written call p c st log cf)
unfolding write_both
write_both-ok env call p c cf st h =
    let new = new_reservation call c in
    let (_, st1, e, g) = >>=-ok (write_reservation env new) _ st h in
    let (log, found, st1_is) = write_reservation-ok env new st e in
    let write = write_counter env c.network c.account (debited call p c cf) call.now in
    let (_, st2, e', g') = >>=-ok write _ st1 g in
    let st2_is = write_counter-ok env c.network c.account (debited call p c cf) call.now st1 e' in
    (
      log,
      found,
      sym (pure-ok new _ st2 _ g').1
          ∙ st2_is
          ∙ ap (λ s. with_counter s c.network c.account (debited call p c cf) call.now) st1_is,
    )

by_verdict :
    (allowed gasless : Bool) (x y z : Result Error Reservation × Store) {e : Error} {s : Store}
    {r : Reservation} {st' : Store}
    → gasless ≡ false
    → z ≡ (err e, s)
    → (if allowed then if gasless then x else y else z) ≡ (ok r, st')
    → (allowed ≡ true) × (y ≡ (ok r, st'))
by_verdict true true x y z k n h = cc
by_verdict true false x y z k n h = (refl, h)
by_verdict false g x y z k n h = cc

after_verdict-ok :
    (env : Env) (call : Call) (p : Policy) (c : Check) (cf : CounterFile) (rbf : Option RbfContext)
    (dec : Decision) (st : Store) {r : Reservation} {st' : Store}
    → is_gasless (effective_kind c) ≡ false
    → after_verdict env call p c cf rbf dec st ≡ (ok r, st')
    → (dec.allowed ≡ true) × (write_both env call p c cf st ≡ (ok r, st'))
unfolding after_verdict
after_verdict-ok env call p c cf rbf dec st k h =
    by_verdict dec.allowed (is_gasless (effective_kind c)) _ _ _ k refl h

-- Inversion of a success.
pub reserve-Reserved :
    (env : Env) (call : Call) (p : Policy) (c : Check) (st : Store) {r : Reservation} {st' : Store}
    → is_gasless (effective_kind c) ≡ false
    → reserve env call (ok (some p)) c st ≡ (ok r, st')
    → Reserved call p c st st'
unfolding reserve reserve_active reserve_window
reserve-Reserved env call p c st k h =
    let accounts = network_accounts call.hooked c.account in
    let (_, _, g0) = >>=-quiet (expect env.net_lock) _ st (expect-IsQuiet env.net_lock) h in
    let (cf, e1, g1) =
      >>=-quiet (load_counter c.network c.account) _ st (load_counter-IsQuiet c.network c.account)
        g0 in
    let ((spent, rbf), e2, g2) =
      >>=-quiet (window_for accounts c cf call.now) _ st (window_for-IsQuiet accounts c cf call.now)
        g1 in
    let (passed, g3) = after_verdict-ok env call p c cf rbf (evaluate p c spent call.now) st k g2 in
    let (log, logged, writes) = write_both-ok env call p c cf st g3 in
    record {
      cf = cf;
      spent = spent;
      rbf = rbf;
      log = log;
      holds = (load_counter-ok c.network c.account st e1).0;
      window = e2;
      allowed = passed;
      logged = logged;
      writes = writes;
    }
