-- ===== src/Policy/Tests/Sends.antt =====
-- A send that is accepted (internal/service/tx.go).
use daxie.Prelude.{◌≡◌, refl, false, some, none, []}
use daxie.Prelude.Results.{ok}
use daxie.Prelude.Text.{codes}
use daxie.Policy.Reserve.Agreement
use daxie.Journal.Tests.{calm, sent, nonces, account, same}
use daxie.Send.{World, Answers}
use daxie.Send.Outcome.{accepted}
use daxie.Send.Pipeline.{Intent, run_send}
use daxie.Send.Unlocked.{run_send-IsFree}
use daxie.Policy.Tests.Data.{policy, send, call, noon, store}

abbrev answers : Answers
answers = record {
  now = noon;
  stamp = codes "t2";
  fresh = some (codes "B");
  nonces = nonces;
  reserving = Agreement.calm;
  appending = calm;
  setting = calm;
  committing = Agreement.calm;
  settling = Agreement.calm;
  finishing = nonces;
  reading = calm;
  failing = calm;
  releasing = Agreement.calm;
  last = nonces;
}

abbrev intent : Intent
intent = record {
  from = codes "0xa1";
  chain_pending = some 2;
  forced = none;
  check = λ n. ok (record send { account_nonce = some n });
  call = record call { hooked = [] };
  loaded = ok (some policy);
  sign = λ n. some (codes "0x02", codes "0x03");
  draft = record sent { id = []; ts = [] };
}

abbrev world : World
world = record { store = store; account = account; lease = record { nonce = 0; finished = false } }

run_send-IsFree_example : (run_send same answers intent accepted world).1.account.locked ≡ false
run_send-IsFree_example = run_send-IsFree same answers intent accepted world refl
