-- ===== src/Send/Pipeline.antt =====
-- A send under its lease: authorize and runSend (internal/service/tx.go).
use daxie.Prelude.{ℕ, Option, none, some}
use daxie.Prelude.Results.{Result, ok, err}
use daxie.Prelude.Text.{Text}
use daxie.Policy.Types.{Policy, Check}
use daxie.Policy.Store.{Error}
use daxie.Policy.Reservation.{Reservation}
use daxie.Policy.Reserve.{Call, reserve}
use daxie.Policy.Transitions
use daxie.Journal.Record.{Record, signed}
use daxie.Journal.Store.{Fault, append}
use daxie.Journal.Nonce.{Account, Lease, acquire}
use daxie.Send.{
  Failure, World, Op, ◌>>=◌, on_store, on_journal, release_lease, Answers, Authorized, TxStatus,
  journal_failed, chain_failed, sign_failed,
}
use daxie.Send.Outcome.{Broadcast, finish}

-- ── authorize ──

-- An operation that cleans up after an error.
abbrev pub cleanup :
    {A : Type 0} → Op (Unit {0}) → Result Failure A × World → Result Failure A × World
cleanup op (ok a, w) = (ok a, w)
cleanup op (err e, w) = (err e, (op w).1)

abbrev pub lift : {A : Type 0} → Result Failure A → Op A
lift r w = (r, w)

-- What the intent and the world outside say: the pending nonce of the chain, a pinned nonce, the
-- request for a nonce, the policy, and the signed bytes and their hash for a nonce.
pub record Intent : Type 0 where
  pub from : Text
  pub chain_pending : Option ℕ
  pub forced : Option ℕ
  pub check : ℕ → Result Failure Check
  pub call : Call
  pub loaded : Result Error (Option Policy)
  pub sign : ℕ → Option (Text × Text)
  pub draft : Record

abbrev pub signed_record : Record → ℕ → Text → Text → Text → Record
signed_record draft nonce raw hash reservation_id = record draft {
  version = 1;
  status = signed;
  nonce = nonce;
  tx_hash = hash;
  raw_tx = raw;
  reservation_id = reservation_id;
}

module _ (to_address : Text → Text) (ans : Answers) (in_ : Intent) where
  abbrev pub with_lease : Result Fault Lease × Account → World → Result Failure Lease × World
  with_lease (ok l, st) w = (ok l, record w { account = st; lease = l })
  with_lease (err e, st) w = (err (journal_failed e), record w { account = st })

  unfoldable pub acquire_lease : ℕ → Op Lease
  acquire_lease n w = with_lease (acquire to_address ans.nonces in_.from n in_.forced w.account) w

  unfoldable pub append_signed : ℕ → Text → (Text × Text) → Op Record
  append_signed nonce reservation_id s = on_journal (
      append ans.appending ans.fresh ans.stamp
        (signed_record in_.draft nonce s.0 s.1 reservation_id))

  unfoldable pub authorized : Text → Text → Record → Op Authorized
  authorized reservation_id hash x w =
      (ok (record { hash = hash; journal_id = x.id; reservation_id = reservation_id }), w)

  unfoldable pub journal_signed : ℕ → Text → Option (Text × Text) → Op Authorized
  unfolding append_signed authorized
  journal_signed nonce reservation_id none = lift (err sign_failed)
  journal_signed nonce reservation_id (some s) =
      append_signed nonce reservation_id s >>= authorized reservation_id s.1

  unfoldable pub sign_and_append : ℕ → Reservation → Op Authorized
  unfolding journal_signed
  sign_and_append nonce r = journal_signed nonce r.id (in_.sign nonce)

  unfoldable pub reserve_spend : Check → Op Reservation
  reserve_spend c = on_store (reserve ans.reserving in_.call in_.loaded c)

  unfoldable pub give_back : Text → Op (Unit {0})
  give_back id = on_store (Transitions.release ans.releasing ans.now id)

  unfoldable pub signed_spend : ℕ → Reservation → Op Authorized
  unfolding sign_and_append give_back
  signed_spend nonce r w = cleanup (give_back r.id) (sign_and_append nonce r w)

  unfoldable pub spend : ℕ → Result Failure Check → Op Authorized
  unfolding reserve_spend signed_spend
  spend nonce (err e) = lift (err e)
  spend nonce (ok c) = reserve_spend c >>= signed_spend nonce

  -- The reservation and what follows it, under the lease.
  unfoldable pub under_lease : ℕ → Op Authorized
  unfolding spend
  under_lease nonce = spend nonce (in_.check nonce)

  unfoldable pub leased_send : Lease → Op Authorized
  unfolding under_lease release_lease
  leased_send l w = cleanup release_lease (under_lease l.nonce w)

  unfoldable pub authorize_at : Option ℕ → Op Authorized
  unfolding acquire_lease leased_send
  authorize_at none = lift (err chain_failed)
  authorize_at (some n) = acquire_lease n >>= leased_send

  -- `authorize`
  unfoldable pub authorize : Op Authorized
  unfolding authorize_at
  authorize = authorize_at in_.chain_pending

  -- `runSend` without a wait.
  unfoldable pub run_send : Broadcast → Op TxStatus
  unfolding authorize finish
  run_send outcome = authorize >>= λ a. finish ans a outcome
