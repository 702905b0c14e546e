-- ===== src/Send/Unlocked.antt =====
-- The account lock at the end of a send (authorize and runSend of internal/service/tx.go).
use daxie.Prelude.{ℕ, ◌≡◌, ap, ◌∙◌, inl, false, Option, none, some}
use daxie.Prelude.Results.{Result, ok, err}
use daxie.Prelude.Text.{Text}
use daxie.Policy.Types.{Check}
use daxie.Policy.Reservation.{Reservation}
use daxie.Journal.Store.{Fault}
use daxie.Journal.Nonce.{Account, Lease, acquire}
use daxie.Journal.Nonce.Derivation.{Acquires, leased, refused, acquire-Acquires, chosen}
use daxie.Send.{Failure, World, after, release_lease, Answers, Authorized}
use daxie.Send.Outcome.{Broadcast, finish}
use daxie.Send.Pipeline.{
  cleanup, Intent, with_lease, authorize_at, leased_send, spend, signed_spend, reserve_spend,
  give_back, journal_signed, append_signed, authorized, acquire_lease, sign_and_append, under_lease,
  authorize, run_send,
}
use daxie.Send.Locked.{Owned, IsFree, release_lease-IsFree, after-Owned, finish-IsFree}

-- A success owns the lock, and an error leaves it free.
abbrev Begins : {A : Type 0} → Result Failure A × World → Type 0
Begins (ok a, w) = Owned w
Begins (err e, w) = IsFree w

cleanup-Begins :
    {A : Type 0} (out : Result Failure A × World) → Owned out.1 → Begins (cleanup release_lease out)
cleanup-Begins (ok a, w) h = h
cleanup-Begins (err e, w) h = release_lease-IsFree w h

module _ (to_address : Text → Text) (ans : Answers) (in_ : Intent) where
  journal_signed-Owned :
      (n : ℕ) (id : Text) (s : Option (Text × Text)) (w : World)
      → Owned w
      → Owned (journal_signed to_address ans in_ n id s w).1
  unfolding journal_signed append_signed authorized
  journal_signed-Owned n id none w h = h
  journal_signed-Owned n id (some s) w h =
      after-Owned (authorized to_address ans in_ id s.1) (append_signed to_address ans in_ n id s w)
        h (λ x w k. k)

  cleanup-Owned :
      {A : Type 0} (id : Text) (out : Result Failure A × World)
      → Owned out.1
      → Owned (cleanup (give_back to_address ans in_ id) out).1
  unfolding give_back
  cleanup-Owned id (ok a, w) h = h
  cleanup-Owned id (err e, w) h = h

  signed_spend-Owned :
      (n : ℕ) (r : Reservation) (w : World)
      → Owned w
      → Owned (signed_spend to_address ans in_ n r w).1
  unfolding signed_spend sign_and_append
  signed_spend-Owned n r w h =
      cleanup-Owned r.id (journal_signed to_address ans in_ n r.id (in_.sign n) w)
        (journal_signed-Owned n r.id (in_.sign n) w h)

  spend-Owned :
      (n : ℕ) (c : Result Failure Check) (w : World)
      → Owned w
      → Owned (spend to_address ans in_ n c w).1
  unfolding spend reserve_spend
  spend-Owned n (err e) w h = h
  spend-Owned n (ok c) w h =
      after-Owned (signed_spend to_address ans in_ n) (reserve_spend to_address ans in_ c w) h
        (λ r w k. signed_spend-Owned n r w k)

  leased_send-Begins :
      (l : Lease) (w : World) → Owned w → Begins (leased_send to_address ans in_ l w)
  unfolding leased_send under_lease
  leased_send-Begins l w h =
      cleanup-Begins (spend to_address ans in_ l.nonce (in_.check l.nonce) w)
        (spend-Owned l.nonce (in_.check l.nonce) w h)

  acquired-Begins :
      (w : World) (n : ℕ) (out : Result Fault Lease × Account)
      → IsFree w
      → Acquires w.account n out
      → Begins (after (leased_send to_address ans in_) (with_lease to_address ans in_ out w))
  acquired-Begins w n _ free (leased l s e f h) =
      leased_send-Begins l (record w { account = s; lease = l })
        (inl (ap (λ (x : Lease). x.finished) e))
  acquired-Begins w n _ free (refused e s h) = ap (λ (x : Account). x.locked) h ∙ free

  authorize_at-Begins :
      (o : Option ℕ) (w : World) → IsFree w → Begins (authorize_at to_address ans in_ o w)
  unfolding authorize_at acquire_lease
  authorize_at-Begins none w h = h
  authorize_at-Begins (some n) w h =
      acquired-Begins w (chosen to_address ans.nonces in_.from n in_.forced w.account)
        (acquire to_address ans.nonces in_.from n in_.forced w.account) h
        (acquire-Acquires to_address ans.nonces in_.from n in_.forced w.account)

  finished-IsFree :
      (b : Broadcast) (out : Result Failure Authorized × World)
      → Begins out
      → IsFree (after (λ a. finish ans a b) out).1
  finished-IsFree b (ok a, w) h = finish-IsFree ans a b w h
  finished-IsFree b (err e, w) h = h

  -- Whatever the file system, the locks, the chain, the policy and the signer answer, a send that
  -- starts with the account lock free ends with it free: after a success, a refusal, a failed write and
  -- each outcome of the broadcast.
  pub run_send-IsFree :
      (b : Broadcast) (w : World)
      → w.account.locked ≡ false
      → (run_send to_address ans in_ b w).1.account.locked ≡ false
  unfolding run_send authorize
  run_send-IsFree b w h =
      finished-IsFree b (authorize_at to_address ans in_ in_.chain_pending w)
        (authorize_at-Begins in_.chain_pending w h)
