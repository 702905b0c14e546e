-- ===== src/Policy/Reserve/Agreement.antt =====
-- The check without a write, and the reservation of the same request (internal/policy/policy.go,
-- `Evaluate` and `Reserve`).
use daxie.Prelude.{
  ◌≡◌, refl, sym, ap, ◌∙◌, Bool, true, false, Option, none, some, List, ℕ, if◌then◌else◌,
}
use daxie.Prelude.Results.{Result, ok, err}
use daxie.Policy.Types.{Policy, Check, Address, Instant, effective_kind, Decision}
use daxie.Policy.Stages.Amounts.{is_gasless}
use daxie.Policy.Evaluate.{evaluate}
use daxie.Policy.Counter.{CounterFile}
use daxie.Policy.Reservation.{Reservation, Log, load_all}
use daxie.Policy.Retry.{RbfContext, WindowEntry}
use daxie.Policy.Retry.Verdict.{SameVerdict, refine_retry_after-SameVerdict}
use daxie.Policy.Store.{
  or_corrupt, Error, Store, Env, expect, load_counter, write_counter, read_log, write_log,
  save_counter, save_log,
}
use daxie.Policy.Store.Inversion.{>>=-quiet, expect-IsQuiet, load_counter-IsQuiet, then-step}
use daxie.Policy.Engine.{network_accounts, window_for}
use daxie.Policy.Engine.Gate.{window_for-IsQuiet}
use daxie.Policy.Reserve.{
  Call, new_reservation, no_reservation, write_reservation, denied_error, refine, refine_with,
  after_verdict, write_both, reserve_window, reserve_active, reserve, check_window, check_active,
  engine_evaluate,
}
use daxie.Policy.Reserve.Outcomes.{with_log, written}

refine_with-SameVerdict :
    (d : Decision) (debit : ℕ) (r : Result Error (List WindowEntry))
    → SameVerdict d (refine_with d debit r)
unfolding refine_with
refine_with-SameVerdict d debit (ok ws) = refine_retry_after-SameVerdict d debit ws
refine_with-SameVerdict d debit (err e) = (refl, refl, refl)

refine-SameVerdict :
    (d : Decision) (c : Check) (accounts : List Address) (now : Instant) (rbf : Option RbfContext)
    (st : Store)
    → SameVerdict d (refine d c accounts now rbf st)
unfolding refine
refine-SameVerdict d c accounts now rbf st = refine_with-SameVerdict d _ _

-- What a check has read.
pub record Checked (env : Env) (call : Call) (p : Policy) (c : Check) (st : Store) (dec : Decision)
    : Type 0 where
  pub cf : CounterFile
  pub spent : ℕ
  pub rbf : Option RbfContext
  pub unlocked : expect env.net_lock st ≡ (ok tt, st)
  pub loads : load_counter c.network c.account st ≡ (ok cf, st)
  pub window :
      window_for (network_accounts call.hooked c.account) c cf call.now st ≡ (ok (spent, rbf), st)
  pub refined :
      refine
        (evaluate p c spent call.now)
        c
        (network_accounts call.hooked c.account)
        call.now
        rbf
        st
      ≡ dec

pub evaluate-Checked :
    (env : Env) (call : Call) (p : Policy) (c : Check) (st st' : Store) (dec : Decision)
    → engine_evaluate env call (ok (some p)) c st ≡ (ok dec, st')
    → Checked env call p c st dec
unfolding engine_evaluate check_active check_window
evaluate-Checked env call p c st st' dec h =
    let accounts = network_accounts call.hooked c.account in
    let (_, e0, g0) = >>=-quiet (expect env.net_lock) _ st (expect-IsQuiet env.net_lock) h in
    let (cf, e1, g1) =
      >>=-quiet (load_counter c.network c.account) _ st (load_counter-IsQuiet c.network c.account)
        g0 in
    let ((spent, rbf), e2, g2) =
      >>=-quiet (window_for accounts c cf call.now) _ st (window_for-IsQuiet accounts c cf call.now)
        g1 in
    record {
      cf = cf;
      spent = spent;
      rbf = rbf;
      unlocked = e0;
      loads = e1;
      window = e2;
      refined = cc;
    }

-- The reservation reaches the same verdict.
Checked-reserve :
    (env : Env) (call : Call) (p : Policy) (c : Check) (st : Store) (dec : Decision)
    (k : Checked env call p c st dec)
    → reserve env call (ok (some p)) c st
      ≡ after_verdict env call p c k.cf k.rbf (evaluate p c k.spent call.now) st
unfolding reserve reserve_active reserve_window
Checked-reserve env call p c st dec k =
    then-step (expect env.net_lock) _ st st tt k.unlocked
    ∙ then-step (load_counter c.network c.account) _ st st k.cf k.loads
    ∙ then-step (window_for (network_accounts call.hooked c.account) c k.cf call.now) _ st st
        (k.spent, k.rbf) k.window

pub same_verdict :
    (env : Env) (call : Call) (p : Policy) (c : Check) (st : Store) (dec : Decision)
    (k : Checked env call p c st dec)
    → (evaluate p c k.spent call.now).allowed ≡ dec.allowed
same_verdict env call p c st dec k =
    sym
      (refine-SameVerdict (evaluate p c k.spent call.now) c (network_accounts call.hooked c.account)
        call.now k.rbf st).0
    ∙ ap (λ (d : Decision). d.allowed) k.refined

denies :
    (allowed gasless : Bool) (x y z : Result Error Reservation × Store)
    → allowed ≡ false
    → (if allowed then if gasless then x else y else z) ≡ z
denies true g x y z h = cc
denies false g x y z h = refl

exempts :
    (allowed gasless : Bool) (x y z : Result Error Reservation × Store)
    → allowed ≡ true
    → gasless ≡ true
    → (if allowed then if gasless then x else y else z) ≡ x
exempts true true x y z h k = refl
exempts true false x y z h k = cc
exempts false g x y z h k = cc

proceeds :
    (allowed gasless : Bool) (x y z : Result Error Reservation × Store)
    → allowed ≡ true
    → gasless ≡ false
    → (if allowed then if gasless then x else y else z) ≡ y
proceeds true false x y z h k = refl
proceeds true true x y z h k = cc
proceeds false g x y z h k = cc

-- With a policy in force, when a check answers with a refusal, a reservation of the same request
-- fails with that refusal, its refined retry_after included, and writes nothing.
pub refused-reserve :
    (env : Env) (call : Call) (p : Policy) (c : Check) (st st' : Store) (dec : Decision)
    → engine_evaluate env call (ok (some p)) c st ≡ (ok dec, st')
    → dec.allowed ≡ false
    → reserve env call (ok (some p)) c st ≡ (err (denied_error dec), st)
unfolding after_verdict
refused-reserve env call p c st st' dec h no_ =
    let k = evaluate-Checked env call p c st st' dec h in
    let d = evaluate p c k.spent call.now in
    let refuses = same_verdict env call p c st dec k ∙ no_ in
    Checked-reserve env call p c st dec k
    ∙ denies d.allowed (is_gasless (effective_kind c)) _ _ _ refuses
    ∙ ap (λ d. (err (denied_error d), st)) k.refined

-- With a policy in force, a permit that the check allows succeeds without a reservation: nothing
-- is written.
pub permit-reserve :
    (env : Env) (call : Call) (p : Policy) (c : Check) (st st' : Store) (dec : Decision)
    → is_gasless (effective_kind c) ≡ true
    → engine_evaluate env call (ok (some p)) c st ≡ (ok dec, st')
    → dec.allowed ≡ true
    → reserve env call (ok (some p)) c st ≡ (ok no_reservation, st)
unfolding after_verdict
permit-reserve env call p c st st' dec g h passed =
    let k = evaluate-Checked env call p c st st' dec h in
    let d = evaluate p c k.spent call.now in
    Checked-reserve env call p c st dec k
    ∙ exempts d.allowed (is_gasless (effective_kind c)) _ _ _
        (same_verdict env call p c st dec k ∙ passed) g

-- The environment in which every lock is free and every write goes through.
abbrev pub calm : Env
calm = record { log_lock = none; log_write = none; net_lock = none; counter_write = none }

write_both-calm :
    (call : Call) (p : Policy) (c : Check) (cf : CounterFile) (st : Store) (log : Log)
    → load_all st.log ≡ some log
    → write_both calm call p c cf st ≡ (ok (new_reservation call c), written call p c st log cf)
unfolding write_both write_reservation write_counter read_log write_log save_log save_counter
write_both-calm call p c cf st log e =
    let new = new_reservation call c in
    then-step (write_reservation calm new) _ st (with_log st log new) tt
      (then-step read_log (λ l. write_log calm l new) st st log (ap (λ o. (or_corrupt o, st)) e))

-- With a policy in force, where no lock or write fails and the log can be read, a request that
-- the check allows and that costs gas is reserved, and the reservation is the new record.
pub allowed-reserve :
    (call : Call) (p : Policy) (c : Check) (st st' : Store) (dec : Decision) (log : Log)
    → is_gasless (effective_kind c) ≡ false
    → load_all st.log ≡ some log
    → engine_evaluate calm call (ok (some p)) c st ≡ (ok dec, st')
    → dec.allowed ≡ true
    → (st'' : Store) × (reserve calm call (ok (some p)) c st ≡ (ok (new_reservation call c), st''))
unfolding after_verdict
allowed-reserve call p c st st' dec log g e h passed =
    let k = evaluate-Checked calm call p c st st' dec h in
    let d = evaluate p c k.spent call.now in
    (
      written call p c st log k.cf,
      Checked-reserve calm call p c st dec k
          ∙ proceeds d.allowed (is_gasless (effective_kind c)) _ _ _
              (same_verdict calm call p c st dec k ∙ passed) g
          ∙ write_both-calm call p c k.cf st log e,
    )
