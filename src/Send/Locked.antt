-- ===== src/Send/Locked.antt =====
-- The account lock at the end of a lease, of settle and abort, and of the switch of runSend
-- (internal/service/tx.go).
use daxie.Prelude.{◌≡◌, ◌⊎◌, refl, inl, inr, false, not, ◌&&◌, Bool-cases, none, some}
use daxie.Prelude.Results.{Result, ok, err}
use daxie.Prelude.Text.{Text, is_empty}
use daxie.Journal.Record.{Status}
use daxie.Journal.Nonce
use daxie.Journal.Nonce.{Account, NonceEnv, Lease, acquire}
use daxie.Send.{
  Failure, World, Op, after, ◌>>◌, commit_lease, release_lease, Answers, Authorized, TxStatus,
  pending, confirmed, mined_reverted,
}
use daxie.Send.Outcome.{
  settle_gas, record_status, commit_spend, settle, unless_empty, is_signed, is_failed, mark_failed,
  free_reservation, undo, read_status, abort_with, abort, inconclusive, no_receipt, mined,
  mined_reverting, Broadcast, accepted, transport_exhausted, rejected, nonce_too_low, or_abort,
  finish,
}

-- The lease still owns the lock, or the lock is free.
abbrev pub Owned : World → Type 0
Owned w = (w.lease.finished ≡ false) ⊎ (w.account.locked ≡ false)

abbrev pub IsFree : World → Type 0
IsFree w = w.account.locked ≡ false

-- A success leaves the lock free, and an error leaves it owned.
abbrev Ends : {A : Type 0} → Result Failure A × World → Type 0
Ends (ok a, w) = IsFree w
Ends (err e, w) = Owned w

-- ── the end of a lease ──

commit-IsFree :
    (env : NonceEnv) (l : Lease) (st : Account)
    → (l.finished ≡ false) ⊎ (st.locked ≡ false)
    → (Nonce.commit env l st).1.1.locked ≡ false
unfolding Nonce.commit
commit-IsFree env l st (inl n) = rw n refl
commit-IsFree env l st (inr f) = elim (Bool-cases l.finished) [ inl y ↦ rw y f | inr n ↦ rw n refl ]

release-IsFree :
    (l : Lease) (st : Account)
    → (l.finished ≡ false) ⊎ (st.locked ≡ false)
    → (Nonce.release l st).1.1.locked ≡ false
unfolding Nonce.release
release-IsFree l st (inl n) = rw n refl
release-IsFree l st (inr f) = elim (Bool-cases l.finished) [ inl y ↦ rw y f | inr n ↦ rw n refl ]

commit_lease-IsFree : (env : NonceEnv) (w : World) → Owned w → IsFree (commit_lease env w).1
unfolding commit_lease
commit_lease-IsFree env w h = commit-IsFree env w.lease w.account h

pub release_lease-IsFree : (w : World) → Owned w → IsFree (release_lease w).1
unfolding release_lease
release_lease-IsFree w h = release-IsFree w.lease w.account h

IsFree-Ends : {A : Type 0} (out : Result Failure A × World) → IsFree out.1 → Ends out
IsFree-Ends (ok a, w) h = h
IsFree-Ends (err e, w) h = inr h

after-Ends :
    {A B : Type 0} (f : A → Op B) (out : Result Failure A × World)
    → Owned out.1
    → ((a : A) (w : World) → Owned w → Ends (f a w))
    → Ends (after f out)
after-Ends f (ok a, w) h k = k a w h
after-Ends f (err e, w) h k = h

-- ── settle and abort ──

settle_gas-Owned :
    (ans : Answers) (a : Authorized) (st : TxStatus) (w : World)
    → Owned w
    → Owned (settle_gas ans a st w).1
unfolding settle_gas
settle_gas-Owned ans a pending w h = h
settle_gas-Owned ans a (confirmed none) w h = h
settle_gas-Owned ans a (confirmed (some gas)) w h = h
settle_gas-Owned ans a (mined_reverted gas) w h = h

pub after-Owned :
    {A B : Type 0} (f : A → Op B) (out : Result Failure A × World)
    → Owned out.1
    → ((a : A) (w : World) → Owned w → Owned (f a w).1)
    → Owned (after f out).1
after-Owned f (ok a, w) h k = k a w h
after-Owned f (err e, w) h k = h

record_status-Owned :
    (ans : Answers) (a : Authorized) (st : TxStatus) (w : World)
    → Owned w
    → Owned (record_status ans a st w).1
unfolding record_status
record_status-Owned ans a st w h = h

commit_spend-Owned :
    (ans : Answers) (a : Authorized) (w : World) → Owned w → Owned (commit_spend ans a w).1
unfolding commit_spend
commit_spend-Owned ans a w h = h

settle-Ends :
    (ans : Answers) (a : Authorized) (st : TxStatus) (w : World)
    → Owned w
    → Ends (settle ans a st w)
unfolding settle
settle-Ends ans a st w h =
    after-Ends (λ _. commit_lease ans.finishing)
      ((record_status ans a st >> commit_spend ans a >> settle_gas ans a st) w)
      (after-Owned (λ _. settle_gas ans a st) ((record_status ans a st >> commit_spend ans a) w)
        (after-Owned (λ _. commit_spend ans a) (record_status ans a st w)
          (record_status-Owned ans a st w h) (λ x w k. commit_spend-Owned ans a w k))
        (λ x w k. settle_gas-Owned ans a st w k))
      (λ x w k. IsFree-Ends (commit_lease ans.finishing w) (commit_lease-IsFree ans.finishing w k))

unless_empty-Owned :
    (id : Text) (op : Op (Unit {0})) (w : World)
    → Owned w
    → Owned (op w).1
    → Owned (unless_empty id op w).1
unless_empty-Owned id op w h k = elim (Bool-cases (is_empty id)) [ inl y ↦ rw y h | inr n ↦ rw n k ]

mark_failed-Owned :
    (ans : Answers) (a : Authorized) (status : Status) (w : World)
    → Owned w
    → Owned (mark_failed ans a status w).1
unfolding mark_failed
mark_failed-Owned ans a status w h = elim (Bool-cases (is_signed status)) [
  | inl y ↦ rw y h
  | inr n ↦ rw n h
]

free_reservation-Owned :
    (ans : Answers) (a : Authorized) (w : World) → Owned w → Owned (free_reservation ans a w).1
unfolding free_reservation
free_reservation-Owned ans a w h = h

abbrev marked : Answers → Authorized → Status → World → World
marked ans a status w = (unless_empty a.journal_id (mark_failed ans a status) w).1

marked-Owned :
    (ans : Answers) (a : Authorized) (status : Status) (w : World)
    → Owned w
    → Owned (marked ans a status w)
marked-Owned ans a status w h =
    unless_empty-Owned a.journal_id (mark_failed ans a status) w h
      (mark_failed-Owned ans a status w h)

undo-IsFree :
    (ans : Answers) (a : Authorized) (status : Status) (w : World)
    → Owned w
    → IsFree (undo ans a status w).1
unfolding undo
undo-IsFree ans a status w h =
    release_lease-IsFree
      (unless_empty a.reservation_id (free_reservation ans a) (marked ans a status w)).1
      (unless_empty-Owned a.reservation_id (free_reservation ans a) (marked ans a status w)
        (marked-Owned ans a status w h)
        (free_reservation-Owned ans a (marked ans a status w) (marked-Owned ans a status w h)))

abort-IsFree : (ans : Answers) (a : Authorized) (w : World) → Owned w → IsFree (abort ans a w).1
unfolding abort abort_with
abort-IsFree ans a w h =
    elim (Bool-cases
      (not (is_signed (read_status ans a w)) && not (is_failed (read_status ans a w)))) [
        | inl y ↦ rw y (commit_lease-IsFree ans.last w h)
        | inr n ↦ rw n (undo-IsFree ans a (read_status ans a w) w h)
      ]

-- ── the switch ──

or_abort-IsFree :
    {A : Type 0} (ans : Answers) (a : Authorized) (result : Result Failure A)
    (out : Result Failure (Unit {0}) × World)
    → Ends out
    → IsFree (or_abort ans a result out).1
or_abort-IsFree ans a result (ok x, w) h = h
or_abort-IsFree ans a result (err e, w) h = abort-IsFree ans a w h

pub finish-IsFree :
    (ans : Answers) (a : Authorized) (b : Broadcast) (w : World)
    → Owned w
    → IsFree (finish ans a b w).1
unfolding finish
finish-IsFree ans a accepted w h =
    or_abort-IsFree ans a (ok pending) (settle ans a pending w) (settle-Ends ans a pending w h)
finish-IsFree ans a transport_exhausted w h = commit_lease-IsFree ans.finishing w h
finish-IsFree ans a rejected w h = abort-IsFree ans a w h
finish-IsFree ans a (nonce_too_low inconclusive) w h =
    or_abort-IsFree ans a (err Failure.chain_failed) (commit_lease ans.finishing w)
      (IsFree-Ends _ (commit_lease-IsFree ans.finishing w h))
finish-IsFree ans a (nonce_too_low no_receipt) w h = abort-IsFree ans a w h
finish-IsFree ans a (nonce_too_low mined) w h =
    or_abort-IsFree ans a (ok pending) (settle ans a pending w) (settle-Ends ans a pending w h)
finish-IsFree ans a (nonce_too_low (mined_reverting gas)) w h =
    or_abort-IsFree ans a (err Failure.reverted) (settle ans a (mined_reverted gas) w)
      (settle-Ends ans a (mined_reverted gas) w h)
