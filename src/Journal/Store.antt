-- ===== src/Journal/Store.antt =====
-- The journal file of one chain, and the operations of its store (internal/journal/store.go and
-- store_jsonl.go). An operation is a `Step`: what it has written stays written when it fails later.
pub mod Outcomes
pub mod Refinement
pub mod Transition
use daxie.Prelude.{
  ℕ, ◌+◌, ◌-◌, ◌*◌, ◌%◌, ◌^◌, Bool, true, false, not, ◌&&◌, ◌||◌, Option, none, some, List, [], ◌∷◌,
  ◌++◌, map, ltb, leb, ◌==◌, if◌then◌else◌, length, is_some, get_or, reject,
}
use daxie.Prelude.Results.{Result, ok, err}
use daxie.Prelude.Text.{Text, text_eq, is_empty}
use daxie.Journal.Record.{Status, Record, StateMutation, is_terminal, record_version, apply_to}
use daxie.Journal.Fold.{fold_latest, find_id, max_seq}
use daxie.Journal.Sort.{sort_snapshot}

-- A line that ends in a newline: white space, no JSON record, or a record.
pub data Line : Type 0 where
  blank garbled : Line
  written : Record → Line

-- What follows the last newline: nothing, white space, or a part of a record.
pub data Tail : Type 0 where
  nothing spaces torn : Tail

-- A missing file is one with no lines and nothing after them.
pub record File : Type 0 where
  pub lines : List Line
  pub tail : Tail

pub data Fault : Type 0 where
  state_corrupt lock_timeout not_found : Fault

-- How the write of a line ends: it is whole, a part of it is in the file, or none.
pub data Write : Type 0 where
  whole partial refused : Write

-- What the file system and the locks answer during an operation; `false` is success. A size is that
-- of the file after the line is written.
pub record Env : Type 0 where
  pub dirs_fail : Bool
  pub lock_fails : Bool
  pub read_fails : Bool
  pub repair_fails : Bool
  pub open_fails : Bool
  pub write : Write
  pub sync_fails : Bool
  pub close_fails : Bool
  pub size : Option ℕ
  pub rewrite_fails : Bool

abbrev pub Step : Type 0 → Type 0
Step A = File → Result Fault A × File

-- What follows an outcome: nothing after an error.
abbrev pub after : {A B : Type 0} → (A → Step B) → Result Fault A × File → Result Fault B × File
after f (ok a, file) = f a file
after f (err e, file) = (err e, file)

infixl 5 ◌>>=◌ ◌>>◌
abbrev pub ◌>>=◌ : {A B : Type 0} → Step A → (A → Step B) → Step B
◌>>=◌ m f file = after f (m file)

abbrev pub ◌>>◌ : {B : Type 0} → Step (Unit {0}) → Step B → Step B
m >> k = m >>= λ _. k

module _ {A : Type 0} where
  abbrev pub pure : A → Step A
  pure a file = (ok a, file)

  abbrev pub raise : Fault → Step A
  raise e file = (err e, file)

-- Fails with the fault, if the environment says so.
abbrev pub refuse : Bool → Fault → Step (Unit {0})
refuse false e = pure tt
refuse true e = raise e

-- ── reading ──

-- The records of the lines: a blank line is passed over, and so is one that does not parse.
unfoldable pub records : List Line → List Record
records [] = []
records (blank ∷ ls) = records ls
records (garbled ∷ ls) = records ls
records (written r ∷ ls) = r ∷ records ls

-- The rest after the last newline is dropped, and cut off under the exclusive lock.
unfoldable pub truncate_torn : Env → Bool → Tail → Step (Unit {0})
truncate_torn env repair nothing = pure tt
truncate_torn env repair spaces = pure tt
truncate_torn env false torn = pure tt
truncate_torn env true torn =
    refuse env.repair_fails state_corrupt >> λ file. (ok tt, record file { tail = nothing })

-- `readAll`: the records in the order of the file. Their largest sequence number is `max_seq 0`.
unfoldable pub read_all : Env → Bool → Step (List Record)
unfolding records truncate_torn
read_all env repair file =
    (refuse env.read_fails state_corrupt
        >> truncate_torn env repair file.tail
        >> pure (records file.lines))
      file

-- ── writing ──

-- The line that a record ends, after what follows the last newline.
unfoldable pub joined : Tail → Record → Line
joined nothing r = written r
joined spaces r = written r
joined torn r = garbled

unfoldable pub write_line : Write → Record → Step (Unit {0})
unfolding joined
write_line whole r file =
    (ok tt, record { lines = file.lines ++ joined file.tail r ∷ []; tail = nothing })
write_line partial r file = (err state_corrupt, record file { tail = torn })
write_line refused r file = (err state_corrupt, file)

-- `appendLine`
unfoldable pub append_line : Env → Record → Step (Unit {0})
unfolding write_line
append_line env r =
    refuse env.open_fails state_corrupt
    >> write_line env.write r
    >> refuse env.sync_fails state_corrupt
    >> refuse env.close_fails state_corrupt

abbrev pub superseded_threshold : ℕ
superseded_threshold = 5000

abbrev pub size_threshold : ℕ
size_threshold = 8 * 2 ^ 20

-- `compact`: one line for each id, in ascending order.
unfoldable pub compact : Env → List Record → Step (Unit {0})
compact env folded = refuse env.rewrite_fails state_corrupt >> λ _.
    (ok tt, record { lines = map written (sort_snapshot folded); tail = nothing })

-- Whether the file stays as it is: too few lines are superseded, and the file is small or has no size.
unfoldable pub stays : ℕ → Option ℕ → Bool
stays superseded none = ltb superseded superseded_threshold
stays superseded (some n) = ltb superseded superseded_threshold && ltb n size_threshold

-- `maybeCompact`: `before` was read before the record was appended.
unfoldable pub maybe_compact : Env → List Record → Record → Step (Unit {0})
unfolding compact stays
maybe_compact env before r =
    let folded = fold_latest (before ++ r ∷ []) in
    if stays (length (before ++ r ∷ []) - length folded) env.size
    then pure tt
    else compact env folded

-- A uint64.
abbrev pub u64 : ℕ
u64 = 2 ^ 64

unfoldable pub next_seq : List Record → ℕ
next_seq recs = (max_seq 0 recs + 1) % u64

-- `withLock`: the directories and the exclusive lock come first.
unfoldable pub with_lock : {A : Type 0} → Env → Step A → Step A
with_lock env body =
    refuse env.dirs_fail state_corrupt >> refuse env.lock_fails lock_timeout >> body

-- ── mutations ──

-- The fields that `Append` fills in; `fresh` is a new ULID.
unfoldable pub stamp : Text → Text → ℕ → Record → Record
stamp fresh now seq r = record r {
  version = if r.version == 0 then record_version else r.version;
  id = if is_empty r.id then fresh else r.id;
  ts = if is_empty r.ts then now else r.ts;
  seq = seq;
}

-- A record without an id needs a ULID, which the source of entropy may refuse.
unfoldable pub stamped : Option Text → Text → ℕ → Record → Step Record
unfolding stamp
stamped fresh now seq r =
    refuse (is_empty r.id && not (is_some fresh)) state_corrupt
    >> pure (stamp (get_or fresh []) now seq r)

-- What both mutations end with.
unfoldable pub publish : Env → List Record → Record → Step (Unit {0})
unfolding append_line maybe_compact
publish env recs r = append_line env r >> maybe_compact env recs r

unfoldable pub append_with : Env → Option Text → Text → Record → List Record → Step Record
unfolding stamped publish
append_with env fresh now r recs = do
  s ← stamped fresh now (next_seq recs) r
  publish env recs s
  pure s

-- `Append`, which returns the record as it is written.
unfoldable pub append : Env → Option Text → Text → Record → Step Record
unfolding with_lock read_all append_with
append env fresh now r = with_lock env (read_all env true >>= append_with env fresh now r)

abbrev pub moved : StateMutation → Text → ℕ → Record → Record
moved m now seq prior = record (apply_to m prior) { seq = seq; ts = now }

unfoldable pub set_state_with :
    Env → Text → StateMutation → List Record → Option Record → Step (Unit {0})
unfolding publish
set_state_with env now m recs none = raise not_found
set_state_with env now m recs (some prior) = publish env recs (moved m now (next_seq recs) prior)

-- `SetState`
unfoldable pub set_state : Env → Text → Text → StateMutation → Step (Unit {0})
unfolding with_lock read_all set_state_with
set_state env now id m =
    if is_empty id
    then raise state_corrupt
    else with_lock env (
        read_all env true >>= λ recs. set_state_with env now m recs (find_id (fold_latest recs) id))
