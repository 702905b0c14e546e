-- ===== src/Policy/Retry.antt =====
-- The instant at which a request that the daily limit refused may be tried again
-- (internal/policy/policy.go, `refineRetryAfter`).
pub mod Verdict
pub mod Earliest
use daxie.Prelude.{
  ℕ, ◌+◌, ◌-◌, Bool, true, false, ◌&&◌, ◌==◌, Option, none, some, List, [], ◌∷◌, ◌++◌, ltb, length,
  zero, suc, if◌then◌else◌,
}
use daxie.Prelude.Int.{ℤ}
use daxie.Prelude.Text.{Text, text_eq}
use daxie.Decimal.{set_string}
use daxie.Policy.Types.{Address, Instant, day, rfc3339, Code, Detail, Decision}
use daxie.Policy.Limits.{exceeds}
use daxie.Policy.Counter.{Entry, is_old, entry_all_released, max_value_wei, max_gas_wei}

pub record RbfContext : Type 0 where
  pub superseded_id : Text
  pub account : Address
  pub merged_env : ℕ

pub record WindowEntry : Type 0 where
  pub ts : Instant
  pub wei : ℕ

is_superseded : Option RbfContext → Address → Entry → Bool
is_superseded none acct e = false
is_superseded (some rbf) acct e = text_eq acct rbf.account && text_eq e.id rbf.superseded_id

merged_of : Option RbfContext → ℕ
merged_of none = 0
merged_of (some rbf) = rbf.merged_env

-- What one entry puts on the list.
entry_of : Option RbfContext → Address → Instant → Entry → List WindowEntry
unfolding is_superseded merged_of
entry_of rbf acct now e =
    if is_old e.ts now
    then []
    else if is_superseded rbf acct e
    then record { ts = e.ts; wei = merged_of rbf } ∷ []
    else if entry_all_released e
    then []
    else record { ts = e.ts; wei = max_value_wei e + max_gas_wei e } ∷ []

unfoldable pub window_entries :
    Option RbfContext → Address → Instant → List Entry → List WindowEntry
unfolding entry_of
window_entries rbf acct now [] = []
window_entries rbf acct now (e ∷ es) = entry_of rbf acct now e ++ window_entries rbf acct now es

unfoldable pub total_wei : List WindowEntry → ℕ
total_wei [] = 0
total_wei (w ∷ ws) = w.wei + total_wei ws

-- The inner loop for one `i`: whatever is earlier than the entry at `i` is swapped with it.
unfoldable bubble : WindowEntry → List WindowEntry → WindowEntry × List WindowEntry
bubble w [] = (w, [])
bubble w (x ∷ xs) =
    if ltb x.ts w.ts
    then (let (m, rest) = bubble x xs in (m, w ∷ rest))
    else (let (m, rest) = bubble w xs in (m, x ∷ rest))

-- The exchange sort, by the entries left.
unfoldable sort_rounds : ℕ → List WindowEntry → List WindowEntry
unfolding bubble
sort_rounds n [] = []
sort_rounds zero (w ∷ ws) = w ∷ ws
sort_rounds (suc n) (w ∷ ws) = let (m, rest) = bubble w ws in m ∷ sort_rounds n rest

unfoldable pub sort_window : List WindowEntry → List WindowEntry
unfolding sort_rounds
sort_window ws = sort_rounds (length ws) ws

-- Entries age out oldest first until the debit fits.
unfoldable pub first_fit : ℕ → ℕ → ℤ → List WindowEntry → Option WindowEntry
first_fit remaining debit limit [] = none
first_fit remaining debit limit (w ∷ ws) =
    let left = remaining - w.wei in
    let rest = first_fit left debit limit ws in
    if exceeds (left + debit) limit then rest else some w

unfoldable set_retry : Option Detail → ℕ → Option Detail
set_retry none t = none
set_retry (some (Detail.over_day limit used attempted _)) t =
    some (Detail.over_day limit used attempted t)
set_retry (some (Detail.destination a r y)) t = some (Detail.destination a r y)
set_retry (some (Detail.on_network n)) t = some (Detail.on_network n)
set_retry (some (Detail.drift r n a b)) t = some (Detail.drift r n a b)
set_retry (some (Detail.permit_chain r)) t = some (Detail.permit_chain r)
set_retry (some (Detail.typed_message r c n i)) t = some (Detail.typed_message r c n i)
set_retry (some (Detail.call r c s n)) t = some (Detail.call r c s n)
set_retry (some (Detail.over_tx l a n)) t = some (Detail.over_tx l a n)
set_retry (some (Detail.token_spender r a n)) t = some (Detail.token_spender r a n)
set_retry (some (Detail.over_gas l a)) t = some (Detail.over_gas l a)

unfoldable with_retry : Decision → Option WindowEntry → Decision
unfolding set_retry
with_retry dec none = dec
with_retry dec (some w) = if w.ts == 0 then dec else record dec {
  retry_after = some (rfc3339 (w.ts + day));
  detail = set_retry dec.detail (rfc3339 (w.ts + day));
}

unfoldable refine_by : Option Detail → Decision → ℕ → List WindowEntry → Decision
unfolding with_retry first_fit sort_window total_wei
refine_by (some (Detail.over_day limit _ _ _)) dec debit ws = elim (set_string limit) [
  | none ↦ dec
  | some l ↦ with_retry dec (first_fit (total_wei ws) debit l (sort_window ws))
]
refine_by _ dec debit ws = dec

unfoldable is_day_limit : Option Code → Bool
is_day_limit (some Code.day_limit) = true
is_day_limit _ = false

-- A refusal for another reason is left as it is.
unfoldable pub refine_retry_after : Decision → ℕ → List WindowEntry → Decision
unfolding refine_by is_day_limit
refine_retry_after dec debit ws =
    if dec.allowed
    then dec
    else if is_day_limit dec.code
    then refine_by dec.detail dec debit ws
    else dec
