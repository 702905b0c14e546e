-- ===== src/Send/Outcome.antt =====
-- The end of a send: settle, abort and the switch of runSend (internal/service/tx.go).
use daxie.Prelude.{ℕ, Bool, true, false, not, ◌&&◌, none, some, if◌then◌else◌}
use daxie.Prelude.Results.{Result, ok, err}
use daxie.Prelude.Text.{Text, codes, is_empty}
use daxie.Policy.Transitions
use daxie.Journal.Record.{Record, Status, signed, failed}
use daxie.Journal.Store.{Fault, set_state}
use daxie.Journal.Queries.{by_id}
use daxie.Send.{
  Failure, World, Op, ◌>>◌, ignore, on_store, on_journal, commit_lease, release_lease, Answers,
  Authorized, TxStatus, pending, confirmed, mined_reverted, journal_status, to_status, chain_failed,
  broadcast_failed, reverted,
}

-- The gas of a settled receipt; an error is dropped.
unfoldable pub settle_gas : Answers → Authorized → TxStatus → Op (Unit {0})
settle_gas ans a pending w = (ok tt, w)
settle_gas ans a (confirmed none) w = (ok tt, w)
settle_gas ans a (confirmed (some gas)) w =
    ignore (on_store (Transitions.settle_actual ans.settling ans.now a.reservation_id gas false)) w
settle_gas ans a (mined_reverted gas) w =
    ignore (on_store (Transitions.settle_actual ans.settling ans.now a.reservation_id gas true)) w

unfoldable pub record_status : Answers → Authorized → TxStatus → Op (Unit {0})
record_status ans a st = on_journal (
    set_state ans.setting ans.stamp a.journal_id (to_status (journal_status st) (some a.hash) none))

unfoldable pub commit_spend : Answers → Authorized → Op (Unit {0})
commit_spend ans a = on_store (Transitions.commit ans.committing ans.now a.reservation_id a.hash)

-- `settle`
unfoldable pub settle : Answers → Authorized → TxStatus → Op (Unit {0})
unfolding record_status commit_spend settle_gas commit_lease
settle ans a st =
    record_status ans a st
    >> commit_spend ans a
    >> settle_gas ans a st
    >> commit_lease ans.finishing

-- ── abort ──

abbrev pub unless_empty : Text → Op (Unit {0}) → Op (Unit {0})
unless_empty id op w = if is_empty id then (ok tt, w) else op w

abbrev pub is_signed : Status → Bool
is_signed signed = true
is_signed _ = false

abbrev pub is_failed : Status → Bool
is_failed failed = true
is_failed _ = false

-- A record that is missing or cannot be read counts as signed.
abbrev pub status_or_signed : Result Fault Record → Status
status_or_signed (ok r) = r.status
status_or_signed (err e) = signed

unfoldable pub read_status : Answers → Authorized → World → Status
unfolding by_id
read_status ans a w =
    if is_empty a.journal_id
    then signed
    else status_or_signed (by_id ans.reading a.journal_id w.account.journal).0

abbrev pub incomplete : Text
incomplete = codes "send did not complete; reservation released and nonce freed"

unfoldable pub mark_failed : Answers → Authorized → Status → Op (Unit {0})
mark_failed ans a status w =
    if is_signed status
    then on_journal
        (set_state ans.failing ans.stamp a.journal_id (to_status failed none (some incomplete))) w
    else (ok tt, w)

unfoldable pub free_reservation : Answers → Authorized → Op (Unit {0})
free_reservation ans a = on_store (Transitions.release ans.releasing ans.now a.reservation_id)

-- No recorded broadcast: the errors on the way to the release of the lease are dropped.
unfoldable pub undo : Answers → Authorized → Status → Op (Unit {0})
unfolding mark_failed free_reservation release_lease
undo ans a status =
    ignore (unless_empty a.journal_id (mark_failed ans a status))
    >> ignore (unless_empty a.reservation_id (free_reservation ans a))
    >> release_lease

unfoldable pub abort_with : Answers → Authorized → Status → Op (Unit {0})
unfolding commit_lease undo
abort_with ans a status w =
    if not (is_signed status) && not (is_failed status)
    then commit_lease ans.last w
    else undo ans a status w

-- `abort`
unfoldable pub abort : Answers → Authorized → Op (Unit {0})
unfolding read_status abort_with
abort ans a w = abort_with ans a (read_status ans a w) w

-- ── the outcome of the broadcast ──

-- What our receipt says after "nonce too low": it cannot be read, there is none, or it is there.
pub data Recheck : Type 0 where
  inconclusive no_receipt mined : Recheck
  mined_reverting : ℕ → Recheck

pub data Broadcast : Type 0 where
  accepted transport_exhausted rejected : Broadcast
  nonce_too_low : Recheck → Broadcast

-- What follows an operation within `runSend`: the deferred abort, if it fails.
abbrev pub or_abort :
    {A : Type 0}
    → Answers
    → Authorized
    → Result Failure A
    → Result Failure (Unit {0}) × World
    → Result Failure A × World
or_abort ans a result (ok x, w) = (result, w)
or_abort ans a result (err e, w) = (err e, (abort ans a w).1)

-- The switch of `runSend`, without a wait.
unfoldable pub finish : Answers → Authorized → Broadcast → Op TxStatus
unfolding settle abort commit_lease
finish ans a accepted w = or_abort ans a (ok pending) (settle ans a pending w)
finish ans a transport_exhausted w = (err broadcast_failed, (commit_lease ans.finishing w).1)
finish ans a rejected w = (err broadcast_failed, (abort ans a w).1)
finish ans a (nonce_too_low inconclusive) w =
    or_abort ans a (err chain_failed) (commit_lease ans.finishing w)
finish ans a (nonce_too_low no_receipt) w = (err broadcast_failed, (abort ans a w).1)
finish ans a (nonce_too_low mined) w = or_abort ans a (ok pending) (settle ans a pending w)
finish ans a (nonce_too_low (mined_reverting gas)) w =
    or_abort ans a (err reverted) (settle ans a (mined_reverted gas) w)
