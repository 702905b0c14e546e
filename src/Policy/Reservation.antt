-- ===== src/Policy/Reservation.antt =====
-- The durable reservation log (internal/policy/reservation.go) and what a commit, a release and a
-- settlement do to one record of it (internal/policy/policy.go).
pub mod Log
use daxie.Prelude.{
  ℕ, Bool, true, false, not, ◌&&◌, ◌||◌, Option, none, some, List, [], ◌∷◌, ◌++◌, find, map, reject,
  if◌then◌else◌, is_some,
}
use daxie.Prelude.Int.{ℤ, pos, ltb_ℤ}
use daxie.Prelude.Text.{Text, codes, text_eq, is_empty}
use daxie.Decimal.{set_string, format_int, format_nat}
use daxie.Policy.Types.{Address, Instant}

-- `other` is a state that no constant of the source names.
pub data ReservationState : Type 0 where
  reserved committed released : ReservationState
  other : Text → ReservationState

pub record Reservation : Type 0 where
  pub id : Text
  pub account : Address
  pub dest : Address
  pub spend_wei : Text
  pub max_gas_wei : Text
  pub state : ReservationState
  pub hash : Text
  pub actual_gas_wei : Option Text
  pub ts : Instant
  pub network : Text
  pub policy_nonce : ℕ

-- A line of the file: empty, not valid JSON, or a record.
pub data Line : Type 0 where
  blank garbled : Line
  written : Reservation → Line

-- The map by id and the order in which ids were first seen, as one list of the latest records.
abbrev pub Log : Type 0
Log = List Reservation

unfoldable pub find_id : Log → Text → Option Reservation
find_id log id = find (λ r. text_eq r.id id) log

-- `byID[r.ID] = r`, with a new id at the end of the order.
unfoldable pub put : Reservation → Log → Log
put r [] = r ∷ []
put r (x ∷ xs) = if text_eq x.id r.id then r ∷ xs else x ∷ put r xs

unfoldable pub all_blank : List Line → Bool
all_blank [] = true
all_blank (blank ∷ ls) = all_blank ls
all_blank (garbled ∷ ls) = false
all_blank (written _ ∷ ls) = false

-- The fold over the lines. Only the last line that is not empty may fail to parse.
unfoldable pub load_from : Log → List Line → Option Log
unfolding all_blank
load_from log [] = some log
load_from log (blank ∷ ls) = load_from log ls
load_from log (garbled ∷ ls) = if all_blank ls then some log else none
load_from log (written r ∷ ls) = load_from (if is_empty r.id then log else put r log) ls

-- `none` is `state.corrupt`.
unfoldable pub load_all : List Line → Option Log
unfolding load_from
load_all ls = load_from [] ls

unfoldable pub terminal_state : ReservationState → Bool → Bool
terminal_state released settled = true
terminal_state committed settled = settled
terminal_state reserved settled = false
terminal_state (other _) settled = false

unfoldable pub is_terminal : Reservation → Bool
unfolding terminal_state
is_terminal r = terminal_state r.state (is_some r.actual_gas_wei)

-- The log with `mutated` put in, and finished records dropped but for that one.
unfoldable pub compacted : Log → Reservation → Log
compacted log mutated =
    reject (λ r. is_terminal r && not (text_eq r.id mutated.id)) (put mutated log)

unfoldable pub append_and_compact : Log → Reservation → List Line
append_and_compact log mutated = map written (compacted log mutated)

unfoldable pub is_reserved : ReservationState → Bool
is_reserved reserved = true
is_reserved committed = false
is_reserved released = false
is_reserved (other _) = false

-- The records that a crash left behind.
unfoldable pub orphans : Log → Log
unfolding is_reserved
orphans log = reject (λ r. not (is_reserved r.state)) log

-- ── what the operations do to one record ──

unfoldable pub commit_state : ReservationState → ReservationState
commit_state released = released
commit_state reserved = committed
commit_state committed = committed
commit_state (other _) = committed

unfoldable pub commit_hash : ReservationState → Text → Text → Text
commit_hash released old new = old
commit_hash reserved old new = new
commit_hash committed old new = new
commit_hash (other _) old new = new

-- A released record stays as it is.
unfoldable pub commit_reservation : Text → Reservation → Reservation
unfolding commit_state commit_hash
commit_reservation hash r = record r {
  state = commit_state r.state;
  hash = commit_hash r.state r.hash hash;
}

-- The smaller of `a` and an amount that was read.
unfoldable pub lower_to : ℤ → Option ℤ → ℤ
lower_to a none = a
lower_to a (some b) = if ltb_ℤ b a then b else a

-- The gas that is settled: never above an earlier settlement or the worst case.
unfoldable pub settled_gas : ℕ → Option Text → Text → ℤ
unfolding lower_to
settled_gas actual before worst =
    lower_to (lower_to (pos actual) (elim before [ some s ↦ set_string s | none ↦ none ]))
      (set_string worst)

unfoldable pub settle_reservation : ℕ → Bool → Reservation → Reservation
unfolding settled_gas
settle_reservation actual reverted r = record r {
  actual_gas_wei = some (format_int (settled_gas actual r.actual_gas_wei r.max_gas_wei));
  spend_wei = if reverted then codes "0" else r.spend_wei;
}

-- `none`: a committed record is never released.
unfoldable pub release_reservation : Reservation → Option Reservation
release_reservation r = elim r.state [
  | committed ↦ none
  | reserved ↦ some (record r { state = released })
  | released ↦ some (record r { state = released })
  | other _ ↦ some (record r { state = released })
]
