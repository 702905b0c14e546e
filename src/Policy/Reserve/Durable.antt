-- ===== src/Policy/Reserve/Durable.antt =====
-- What a successful reservation leaves for later, in the log and in the ids of the counter file
-- (internal/policy/policy.go, `Reserve`; reservation.go; orphan.go).
use daxie.Prelude.{◌≡◌, refl, sym, ap, ◌∙◌, subst, false, not, some}
use daxie.Prelude.Results.{Result, ok, err}
use daxie.Prelude.Text.{Text, text_eq, is_empty}
use daxie.Policy.Types.{Policy, Check, effective_kind}
use daxie.Policy.Stages.Amounts.{is_gasless}
use daxie.Policy.Counter.{CounterFile}
use daxie.Policy.Counter.Entries.{Lacks, DistinctIds}
use daxie.Policy.Counter.Ids.{debit_entries-DistinctIds, prune_counter-DistinctIds}
use daxie.Policy.Reservation.{Reservation, Log, find_id, load_all, compacted, orphans, is_reserved}
use daxie.Policy.Reservation.Log.{
  load_all-IsLog, load_all-append_and_compact, find_id-compacted, find-reject,
}
use daxie.Policy.Store.{Error, Store, Env, stamped, fill_names}
use daxie.Policy.Store.Inversion.{held}
use daxie.Policy.Reserve.{Call, reserve, debit_counter, new_reservation, fresh_entry}
use daxie.Policy.Reserve.Outcomes.{reserve-Reserved, debited, with_log}
use daxie.Policy.Reserve.Budget.{HasDistinctIds, held-with_counter}

-- The ids of a counter file that could be read do not have this one.
abbrev pub LacksId : Text → Result Error CounterFile → Type 0
LacksId id (ok cf) = Lacks id cf.entries
LacksId id (err e) = Unit

debited-DistinctIds :
    (call : Call) (p : Policy) (c : Check) (cf : CounterFile)
    → Lacks call.fresh_id cf.entries
    → DistinctIds cf.entries
    → HasDistinctIds (ok (fill_names c.network c.account (stamped (debited call p c cf) call.now)))
unfolding fill_names debit_counter fresh_entry new_reservation
debited-DistinctIds call p c cf n d =
    prune_counter-DistinctIds (record (debited call p c cf) { version = 1 }) call.now
      (debit_entries-DistinctIds cf c.is_rbf_delta c.account_nonce _
        (fresh_entry (new_reservation call c) c call.now) n d)

-- With a policy in force, for a request that costs gas, a success under an id that the signer's
-- counter file does not have keeps that file's ids distinct, so the next reservation may rely on
-- it again.
pub reserve-HasDistinctIds :
    (env : Env) (call : Call) (p : Policy) (c : Check) (st : Store) (r : Reservation) (st' : Store)
    → is_gasless (effective_kind c) ≡ false
    → LacksId call.fresh_id (held st c.network c.account)
    → HasDistinctIds (held st c.network c.account)
    → reserve env call (ok (some p)) c st ≡ (ok r, st')
    → HasDistinctIds (held st' c.network c.account)
reserve-HasDistinctIds env call p c st r st' k n d h =
    let s = reserve-Reserved env call p c st k h in
    subst (λ s'. HasDistinctIds (held s' c.network c.account)) (sym s.writes)
      (subst HasDistinctIds
        (sym (
          held-with_counter (with_log st s.log (new_reservation call c)) c.network c.account
            (debited call p c s.cf) call.now))
        (debited-DistinctIds call p c s.cf (subst (LacksId call.fresh_id) s.holds n)
          (subst HasDistinctIds s.holds d)))

-- With a policy in force, for a request that costs gas, a success under an id that is not empty
-- leaves the record in the log: the file reads back, the lookup finds the record, and it is among
-- the orphans.
pub reserve-logged :
    (env : Env) (call : Call) (p : Policy) (c : Check) (st : Store) (r : Reservation) (st' : Store)
    → is_gasless (effective_kind c) ≡ false
    → is_empty call.fresh_id ≡ false
    → reserve env call (ok (some p)) c st ≡ (ok r, st')
    → (log : Log) × (load_all st'.log ≡ some log)
      × (find_id log call.fresh_id ≡ some (new_reservation call c))
      × (find_id (orphans log) call.fresh_id ≡ some (new_reservation call c))
unfolding new_reservation find_id orphans is_reserved
reserve-logged env call p c st r st' k n h =
    let s = reserve-Reserved env call p c st k h in
    let new = new_reservation call c in
    let found = (find_id-compacted s.log new) in
    (
      compacted s.log new,
      ap (λ (s : Store). load_all s.log) s.writes
          ∙ load_all-append_and_compact s.log new n (load_all-IsLog st.log s.log s.logged),
      found,
      find-reject (λ x. text_eq x.id call.fresh_id) (λ x. not (is_reserved x.state)) _ new found
          refl,
    )
