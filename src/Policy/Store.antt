-- ===== src/Policy/Store.antt =====
-- What the engine keeps on disk, and how an operation reads and writes it (internal/policy/counter.go,
-- reservation.go and policy.go). An operation is an `Action`: what it has written stays written when
-- it fails later.
pub mod Inversion
use daxie.Prelude.{Bool, Option, none, some, List, [], ◌&&◌, if◌then◌else◌}
use daxie.Prelude.Results.{Result, ok, err}
use daxie.Prelude.Text.{Text, text_eq, to_lower, is_empty}
use daxie.Policy.Types.{Address, Instant, Code, Detail}
use daxie.Policy.Counter.{CounterFile, counter_version, prune_counter}
use daxie.Policy.Reservation.{Reservation, Line, Log, load_all, append_and_compact, find_id}

-- A refusal carries its code, its payload and whether it may be retried.
pub data Error : Type 0 where
  policy_denied : Code → Option Detail → Bool → Error
  reservation_missing state_corrupt state_error lock_timeout read_only seal_violation rollback
        admin_auth bad_flags no_staged_rotation bad_typed_allow bad_contract_allow :
      Error

-- A counter file is absent, not valid JSON, or a document.
pub data CounterState : Type 0 where
  missing corrupt : CounterState
  stored : CounterFile → CounterState

pub record Store : Type 0 where
  pub log : List Line
  pub counters : Text → Address → CounterState

-- What the file system and the locks answer during an operation; `none` is success.
pub record Env : Type 0 where
  pub log_lock : Option Error
  pub log_write : Option Error
  pub net_lock : Option Error
  pub counter_write : Option Error

abbrev pub Action : Type 0 → Type 0
Action A = Store → Result Error A × Store

-- What follows an outcome: nothing after an error.
abbrev pub after : {A B : Type 0} → (A → Action B) → Result Error A × Store → Result Error B × Store
after f (ok a, st) = f a st
after f (err e, st) = (err e, st)

infixl 5 ◌>>=◌ ◌>>◌
abbrev pub ◌>>=◌ : {A B : Type 0} → Action A → (A → Action B) → Action B
◌>>=◌ m f st = after f (m st)

abbrev pub ◌>>◌ : {B : Type 0} → Action (Unit {0}) → Action B → Action B
m >> k = m >>= λ _. k

module _ {A : Type 0} where
  abbrev pub pure : A → Action A
  pure a st = (ok a, st)

  abbrev pub raise : Error → Action A
  raise e st = (err e, st)

  abbrev pub lift : Result Error A → Action A
  lift r st = (r, st)

-- Fails with what the environment answers, if that is an error.
abbrev pub expect : Option Error → Action (Unit {0})
expect none = pure tt
expect (some e) = raise e

abbrev pub network_key : Text → Text
network_key = to_lower

unfoldable pub fill_names : Text → Address → CounterFile → CounterFile
fill_names network addr cf = record cf {
  network = if is_empty cf.network then to_lower network else cf.network;
  from = if is_empty cf.from then to_lower addr else cf.from;
}

unfoldable pub read_counter : CounterState → Text → Address → Result Error CounterFile
unfolding fill_names
read_counter missing network addr = ok (record {
  version = counter_version;
  policy_nonce = 0;
  network = to_lower network;
  from = to_lower addr;
  entries = [];
})
read_counter corrupt network addr = err state_error
read_counter (stored cf) network addr = ok (fill_names network addr cf)

unfoldable pub load_counter : Text → Address → Action CounterFile
unfolding read_counter
load_counter network addr st =
    lift (read_counter (st.counters (network_key network) addr) network addr) st

-- The counters after a write of one file.
abbrev pub set_counter :
    Text → Address → CounterState → (Text → Address → CounterState) → Text → Address → CounterState
set_counter network addr c counters n a =
    if text_eq n (network_key network) && text_eq a addr then c else counters n a

abbrev pub stamped : CounterFile → Instant → CounterFile
stamped cf now = prune_counter (record cf { version = counter_version }) now

unfoldable pub save_counter : Text → Address → CounterFile → Instant → Action (Unit {0})
save_counter network addr cf now st =
    (ok tt, record st { counters = set_counter network addr (stored (stamped cf now)) st.counters })

unfoldable pub write_counter : Env → Text → Address → CounterFile → Instant → Action (Unit {0})
unfolding save_counter
write_counter env network addr cf now = expect env.counter_write >> save_counter network addr cf now

abbrev pub or_corrupt : Option Log → Result Error Log
or_corrupt (some log) = ok log
or_corrupt none = err state_corrupt

-- The reservation log, or `state.corrupt`.
unfoldable pub read_log : Action Log
read_log st = (or_corrupt (load_all st.log), st)

unfoldable pub save_log : Log → Reservation → Action (Unit {0})
save_log log r st = (ok tt, record st { log = append_and_compact log r })

unfoldable pub write_log : Env → Log → Reservation → Action (Unit {0})
unfolding save_log
write_log env log r = expect env.log_write >> save_log log r

-- `transition`: the change of a record that has to be in the log.
unfoldable pub apply_transition :
    Env → (Reservation → Reservation) → Log → Option Reservation → Action (Unit {0})
apply_transition env change log none = raise reservation_missing
apply_transition env change log (some r) = write_log env log (change r)

unfoldable pub transition : Env → Text → (Reservation → Reservation) → Action (Unit {0})
unfolding apply_transition read_log write_log
transition env id change =
    if is_empty id
    then raise reservation_missing
    else do expect env.log_lock; log ← read_log; apply_transition env change log (find_id log id)
