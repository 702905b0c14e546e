-- ===== src/Journal/Tests.antt =====
-- Runs of the journal and its nonces on small inputs (internal/journal).
use daxie.Prelude.{◌≡◌, ◌<◌, refl, true, false, Option, none, some, [], ◌∷◌, arith}
use daxie.Prelude.Results.{ok, err}
use daxie.Prelude.Text.{Text, codes, text_eq, text_lt}
use daxie.Journal.Record.{
  Record, StateMutation, broadcast, confirmed, eth_transfer, is_terminal, consumes_nonce,
}
use daxie.Journal.Fold.{fold_latest, fold_from, keep_later, max_seq, newest_from}
use daxie.Journal.Store.{
  File, Fault, Env, Line, written, nothing, torn, whole, records, truncate_torn, read_all, joined,
  write_line, append_line, stays, maybe_compact, next_seq, with_lock, stamp, stamped, publish,
  append_with, append, set_state, moved,
}
use daxie.Journal.Store.Outcomes.{view}
use daxie.Journal.Store.Refinement.{Updates, append-Updates}
use daxie.Journal.Store.Transition.{set_state-Updates}
use daxie.Journal.Queries.{read}
use daxie.Journal.Nonce.{
  Account, cached, NonceEnv, Lease, count, max_u64, parse_cache, read_cache, write_cache, take_lock,
  tally, journal_next, next_nonce, choose, acquire, commit, release, reset_cache, next_of,
}
use daxie.Journal.Nonce.Derivation.{journal_tally}
use daxie.Journal.Nonce.Leases.{lease_excludes, appended-never_reused, reset_cache-frees, larger}
use daxie.Journal.Ulid.{Entropy, new_ulid}
use daxie.Journal.Ulid.Order.{new_ulid-sorts}

abbrev pub calm : Env
calm = record {
  dirs_fail = false;
  lock_fails = false;
  read_fails = false;
  repair_fails = false;
  open_fails = false;
  write = whole;
  sync_fails = false;
  close_fails = false;
  size = some 900;
  rewrite_fails = false;
}

abbrev pub sent : Record
sent = record {
  version = 1;
  id = codes "A";
  seq = 1;
  ts = codes "t1";
  chain_id = 1;
  network = codes "main";
  kind = eth_transfer;
  status = broadcast;
  source = codes "cli";
  from = codes "0xa1";
  to = codes "0xb2";
  nonce = 4;
  tx_hash = codes "0x01";
  raw_tx = codes "0x02";
  value_wei = codes "30";
  asset = record {
    kind = codes "eth";
    contract = none;
    alias = [];
    decimals = none;
    amount = none;
    token_id = none;
  };
  fees = record {
    mode = codes "legacy";
    gas_limit = 21000;
    max_fee_per_gas = none;
    max_priority_per_gas = none;
    gas_price = some (codes "9");
    speed = [];
  };
  reservation_id = codes "r1";
  worst_case_gas_wei = codes "5";
  replaces = none;
  replaced_by = none;
  receipt = none;
  error = none;
  rpc = [];
}

-- The next transaction of the account, as it comes to the journal.
abbrev next : Record
next = record sent { version = 0; id = []; seq = 0; ts = []; nonce = 5; tx_hash = codes "0x03" }

-- A record, a blank line, and a part of a record that a crash left.
abbrev file : File
file = record { lines = written sent ∷ Line.blank ∷ []; tail = torn }

abbrev to_confirmed : StateMutation
to_confirmed = record {
  status = confirmed;
  tx_hash = none;
  receipt = none;
  replaced_by = none;
  replaces = none;
  error = none;
  reservation_id = none;
}

abbrev now : Text
now = codes "t2"

abbrev two : Text
two = codes "B"

-- ── the map of latest records ──

append-Updates_example :
    Updates
      (view file)
      two
      (stamp two now (next_seq (records file.lines)) next)
      (stamp two now (next_seq (records file.lines)) next)
      (append calm (some two) now next file)
unfolding stamp max_seq records
append-Updates_example = append-Updates calm (some two) now next file (omega arith)

known : view file (codes "A") ≡ some sent
unfolding view newest_from records text_eq
known = refl

set_state-Updates_example :
    Updates
      (view file)
      (codes "A")
      (moved to_confirmed now (next_seq (records file.lines)) sent)
      tt
      (set_state calm now (codes "A") to_confirmed file)
unfolding max_seq records
set_state-Updates_example =
    set_state-Updates calm now (codes "A") to_confirmed file (omega arith) refl sent known

-- ── nonces ──

abbrev pub nonces : NonceEnv
nonces = record {
  dirs_fail = false;
  lock_fails = false;
  cache_read_fails = false;
  cache_write_fails = false;
  store = calm;
}

abbrev pub same : Text → Text
same t = t

abbrev addr : Text
addr = codes "0xa1"

-- The file after the second transaction was journaled.
abbrev second : Record
second = record next { version = 1; id = two; seq = 2; ts = now }

abbrev longer : File
longer = record { lines = written sent ∷ Line.blank ∷ written second ∷ []; tail = nothing }

appended : append calm (some two) now next file ≡ (ok second, longer)
unfolding append with_lock read_all truncate_torn records append_with stamped stamp next_seq max_seq
    publish append_line write_line joined maybe_compact stays fold_latest fold_from keep_later
    text_eq
appended = refl

abbrev pub account : Account
account = record { journal = longer; cache = cached 3; locked = false }

abbrev held : Account
held = record account { locked = true }

abbrev lease : Lease
lease = record { nonce = 6; finished = false }

-- With a pending nonce of 2 and a cache of 3, the journal decides.
acquired : acquire same nonces addr 2 none account ≡ (ok lease, held)
unfolding acquire take_lock choose next_nonce journal_next tally count read read_cache parse_cache
    max_u64 with_lock read_all truncate_torn records fold_latest fold_from keep_later text_eq
    is_terminal consumes_nonce
acquired = refl

appended-never_reused_example : next.nonce < lease.nonce
unfolding max_seq records text_eq consumes_nonce
appended-never_reused_example =
    appended-never_reused same calm (some two) now next second file longer nonces addr 2 account
      lease held (omega arith) appended refl (omega arith, (omega arith, tt)) refl acquired

lease_excludes_example :
    ((e : Fault) × (acquire same nonces addr 9 (some 1) held ≡ (err e, held)))
    × ((commit nonces lease held).1.1.locked ≡ false)
    × ((release lease held).1.1.locked ≡ false)
lease_excludes_example =
    lease_excludes same nonces nonces addr 2 9 none (some 1) account lease held acquired

-- A cache that is ahead of the journal, and what a reset makes of it.
abbrev ahead : Account
ahead = record account { cache = cached 40 }

abbrev lowered : Account
lowered = record account { cache = cached 6 }

was_reset : reset_cache same nonces addr ahead ≡ (ok tt, lowered)
unfolding reset_cache take_lock write_cache journal_next tally count read with_lock read_all
    truncate_torn records fold_latest fold_from keep_later text_eq is_terminal consumes_nonce
was_reset = refl

again : acquire same nonces addr 2 none lowered ≡ (ok lease, record lowered { locked = true })
unfolding acquire take_lock choose next_nonce journal_next tally count read read_cache parse_cache
    max_u64 with_lock read_all truncate_torn records fold_latest fold_from keep_later text_eq
    is_terminal consumes_nonce
again = refl

reset_cache-frees_example :
    lease.nonce ≡ larger 2 (next_of same (journal_tally same nonces addr ahead))
reset_cache-frees_example =
    reset_cache-frees same nonces nonces addr 2 ahead lowered lease
      (record lowered { locked = true }) was_reset again

-- ── identifiers ──

abbrev zeros : Entropy
zeros = record { b1 = 0; b2 = 0; b3 = 0; b4 = 0; b5 = 0; c1 = 0; c2 = 0; c3 = 0; c4 = 0; c5 = 0 }

abbrev ones : Entropy
ones = record zeros { b1 = 255; c5 = 255 }

abbrev id_of : Option Text → Text
id_of none = []
id_of (some t) = t

new_ulid-sorts_example :
    text_lt (id_of (new_ulid 1024 (some ones))) (id_of (new_ulid 1025 (some zeros))) ≡ true
unfolding new_ulid
new_ulid-sorts_example =
    new_ulid-sorts 1024 1025 ones zeros (id_of (new_ulid 1024 (some ones)))
      (id_of (new_ulid 1025 (some zeros))) (omega arith) (omega arith) refl refl
