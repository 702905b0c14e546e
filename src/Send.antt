-- ===== src/Send.antt =====
-- The life of one transaction, from the nonce to the broadcast (internal/service/tx.go): the files, the
-- answers of the environment, and operations in sequence. The operations of the policy, the journal
-- and the nonces are those of their modules.
pub mod Locked
pub mod Outcome
pub mod Pipeline
pub mod Unlocked
use daxie.Prelude.{
  ℕ, Bool, true, false, not, ◌&&◌, Option, none, some, List, [], ◌∷◌, if◌then◌else◌,
}
use daxie.Prelude.Results.{Result, ok, err}
use daxie.Prelude.Text.{Text, codes, is_empty}
use daxie.Policy.Types.{Instant, Policy, Check}
use daxie.Policy.Store.{Store, Action, Error}
use daxie.Policy.Reservation.{Reservation}
use daxie.Policy.Reserve.{Call, reserve}
use daxie.Policy.Transitions
use daxie.Journal.Record.{Record, Status, signed, failed, StateMutation}
use daxie.Journal.Store.{Fault, append, set_state}
use daxie.Journal.Queries.{by_id}
use daxie.Journal.Nonce
use daxie.Journal.Nonce.{Account, NonceEnv, Lease, acquire}

-- What a send fails with: an operation, the chain or the signer, or a revert.
pub data Failure : Type 0 where
  policy_failed : Error → Failure
  journal_failed : Fault → Failure
  chain_failed broadcast_failed sign_failed reverted : Failure
  refused : Text → Failure

-- The files of the policy, those of the account with its lock, and the lease of this send.
pub record World : Type 0 where
  pub store : Store
  pub account : Account
  pub lease : Lease

abbrev pub Op : Type 0 → Type 0
Op A = World → Result Failure A × World

abbrev pub after : {A B : Type 0} → (A → Op B) → Result Failure A × World → Result Failure B × World
after f (ok a, w) = f a w
after f (err e, w) = (err e, w)

infixl 5 ◌>>=◌ ◌>>◌
abbrev pub ◌>>=◌ : {A B : Type 0} → Op A → (A → Op B) → Op B
◌>>=◌ m f w = after f (m w)

abbrev pub ◌>>◌ : {B : Type 0} → Op (Unit {0}) → Op B → Op B
m >> k = m >>= λ _. k

-- An operation whose error the code drops.
abbrev pub ignore : {A : Type 0} → Op A → Op (Unit {0})
ignore m w = (ok tt, (m w).1)

abbrev pub relabel : {A E : Type 0} → (E → Failure) → Result E A → Result Failure A
relabel f (ok a) = ok a
relabel f (err e) = err (f e)

-- ── the operations of the parts ──

abbrev pub on_store : {A : Type 0} → Action A → Op A
on_store m w = let out = m w.store in (relabel policy_failed out.0, record w { store = out.1 })

abbrev pub on_journal : {A : Type 0} → daxie.Journal.Store.Step A → Op A
on_journal m w =
    let out = m w.account.journal in
    (relabel journal_failed out.0, record w { account = record w.account { journal = out.1 } })

abbrev pub on_lease :
    (Lease → Account → Lease × (Result Fault (Unit {0}) × Account)) → Op (Unit {0})
on_lease f w =
    let out = f w.lease w.account in
    (relabel journal_failed out.1.0, record w { account = out.1.1; lease = out.0 })

unfoldable pub commit_lease : NonceEnv → Op (Unit {0})
commit_lease env = on_lease (Nonce.commit env)

unfoldable pub release_lease : Op (Unit {0})
release_lease = on_lease Nonce.release

-- What the environment answers to each of the calls, and the clock.
pub record Answers : Type 0 where
  pub now : Instant
  pub stamp : Text
  pub fresh : Option Text
  pub nonces : NonceEnv
  pub reserving : daxie.Policy.Store.Env
  pub appending : daxie.Journal.Store.Env
  pub setting : daxie.Journal.Store.Env
  pub committing : daxie.Policy.Store.Env
  pub settling : daxie.Policy.Store.Env
  pub finishing : NonceEnv
  pub reading : daxie.Journal.Store.Env
  pub failing : daxie.Journal.Store.Env
  pub releasing : daxie.Policy.Store.Env
  pub last : NonceEnv

-- `authorized`, of which the lease is in the world.
pub record Authorized : Type 0 where
  pub hash : Text
  pub journal_id : Text
  pub reservation_id : Text

-- The status that a send settles with; the number is the gas of the receipt.
pub data TxStatus : Type 0 where
  pending : TxStatus
  confirmed : Option ℕ → TxStatus
  mined_reverted : ℕ → TxStatus

abbrev pub journal_status : TxStatus → Status
journal_status pending = Status.broadcast
journal_status (confirmed gas) = Status.confirmed
journal_status (mined_reverted gas) = Status.reverted

abbrev pub to_status : Status → Option Text → Option Text → StateMutation
to_status st hash error = record {
  status = st;
  tx_hash = hash;
  receipt = none;
  replaced_by = none;
  replaces = none;
  error = error;
  reservation_id = none;
}
