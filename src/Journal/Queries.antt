-- ===== src/Journal/Queries.antt =====
-- The queries of the journal (internal/journal/store.go), each on the map of the latest records.
pub mod Latest
use daxie.Prelude.{
  ℕ, Bool, true, false, not, ◌&&◌, ◌||◌, Option, none, some, List, [], ◌∷◌, ltb, if◌then◌else◌,
  reject,
}
use daxie.Prelude.Text.{Text, text_eq, is_empty}
use daxie.Journal.Record.{Record, is_terminal}
use daxie.Journal.Fold.{fold_latest, find_id}
use daxie.Journal.Store.{Env, Step, ◌>>=◌, ◌>>◌, pure, raise, Fault, not_found, read_all, with_lock}

-- `read`: the map of the latest records, under the shared lock.
unfoldable pub read : Env → Step (List Record)
unfolding with_lock read_all
read env = with_lock env (read_all env false) >>= λ recs. pure (fold_latest recs)

abbrev pub or_not_found : Option Record → Step Record
or_not_found none = raise not_found
or_not_found (some r) = pure r

-- `ByID`
unfoldable pub by_id : Env → Text → Step Record
unfolding read
by_id env id = read env >>= λ latest. or_not_found (find_id latest id)

abbrev pub newer : Option Record → Record → Option Record
newer none r = some r
newer (some f) r = if ltb f.seq r.seq then some r else some f

-- The loop of `ByReservation` and `ByHash`: of the records that fit, one with the largest number.
unfoldable pub latest_where : (Record → Bool) → Option Record → List Record → Option Record
latest_where p found [] = found
latest_where p found (r ∷ rs) = latest_where p (if p r then newer found r else found) rs

unfoldable pub by_reservation : Env → Text → Step Record
unfolding read latest_where
by_reservation env rid = read env >>= λ latest.
    or_not_found (latest_where (λ r. text_eq r.reservation_id rid) none latest)

-- `sortBySeqDesc`, which keeps the order of equal numbers.
unfoldable pub insert_desc : Record → List Record → List Record
insert_desc r [] = r ∷ []
insert_desc r (x ∷ xs) = if ltb r.seq x.seq then x ∷ insert_desc r xs else r ∷ x ∷ xs

unfoldable pub sort_by_seq_desc : List Record → List Record
unfolding insert_desc
sort_by_seq_desc [] = []
sort_by_seq_desc (r ∷ rs) = insert_desc r (sort_by_seq_desc rs)

-- `Unresolved`
unfoldable pub unresolved : Env → Step (List Record)
unfolding read
unresolved env = read env >>= λ latest.
    pure (sort_by_seq_desc (reject (λ (r : Record). is_terminal r.status) latest))

-- `to_address` and `to_hash` stand for HexToAddress and HexToHash of go-ethereum, with the values as
-- canonical texts; `zero_address` is the empty address.
module _ (to_address to_hash : Text → Text) where
  unfoldable pub by_hash : Env → Text → Step Record
  unfolding read latest_where
  by_hash env hash = read env >>= λ latest. or_not_found (
      latest_where (λ r. text_eq (to_hash r.tx_hash) (to_hash hash) && not (is_empty r.tx_hash))
        none latest)

  -- `List`: the records of one account, or of all for the zero address.
  unfoldable pub list_records : Env → Text → Text → Step (List Record)
  unfolding read
  list_records env zero_address from = read env >>= λ latest. pure (
      sort_by_seq_desc (
        reject (λ (r : Record). not (text_eq from zero_address || text_eq (to_address r.from) from))
          latest))
