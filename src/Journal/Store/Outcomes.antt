-- ===== src/Journal/Store/Outcomes.antt =====
-- How the parts of an operation on the journal file end (readAll, appendLine and maybeCompact of
-- internal/journal/store_jsonl.go), whatever the environment answers.
use daxie.Prelude.{
  ◌≡◌, refl, ap, ◌∙◌, inl, inr, Bool, true, false, Bool-cases, Option, none, List, [], ◌∷◌, ◌++◌,
  map, length, ◌-◌,
}
use daxie.Prelude.Results.{Result, ok, err}
use daxie.Prelude.Text.{Text}
use daxie.Journal.Record.{Record}
use daxie.Journal.Fold.{fold_latest, newest_from}
use daxie.Journal.Sort.{sort_snapshot}
use daxie.Journal.Sort.Snapshot.{newest_from-snapshot}
use daxie.Journal.Store.{
  Line, blank, garbled, written, Tail, nothing, spaces, torn, File, Fault, state_corrupt, Write,
  whole, partial, refused, Env, Step, after, refuse, records, truncate_torn, read_all, joined,
  write_line, append_line, compact, stays, maybe_compact, with_lock, lock_timeout, ◌>>◌,
}

-- The map from an id to its latest record.
abbrev pub Map : Type 0
Map = Text → Option Record

-- The map that a file stands for.
unfoldable pub view : File → Map
view file id = newest_from none id (records file.lines)

-- White space or nothing after the last newline.
abbrev pub IsClean : Tail → Type 0
IsClean nothing = Unit
IsClean spaces = Unit
IsClean torn = ⊥

-- ── withLock ──

module _ {A : Type 0} (P : Result Fault A × File → Type 0) (body : Step A) (file : File) where
  both_refuse :
      (b c : Bool)
      → P (err state_corrupt, file)
      → P (err lock_timeout, file)
      → P (body file)
      → P ((refuse b state_corrupt >> refuse c lock_timeout >> body) file)
  both_refuse true c h k l = h
  both_refuse false true h k l = k
  both_refuse false false h k l = l

  -- What holds of both refusals and of the body holds of the locked body.
  pub with_lock-elim :
      (env : Env)
      → P (err state_corrupt, file)
      → P (err lock_timeout, file)
      → P (body file)
      → P (with_lock env body file)
  unfolding with_lock
  with_lock-elim env = both_refuse env.dirs_fail env.lock_fails

-- ── readAll ──

pub data Read (file : File) : Result Fault (List Record) × File → Type 0 where
  failed : (e : Fault) (f : File) → f.lines ≡ file.lines → Read file (err e, f)
  got :
      (rs : List Record) (f : File)
      → rs ≡ records file.lines
      → f.lines ≡ file.lines
      → IsClean f.tail
      → Read file (ok rs, f)

truncate_torn-Read :
    (env : Env) (t : Tail) (file : File)
    → file.tail ≡ t
    → Read file (after (λ _ f. (ok (records file.lines), f)) (truncate_torn env true t file))
unfolding truncate_torn
truncate_torn-Read env nothing file e = got _ file refl refl (rw e tt)
truncate_torn-Read env spaces file e = got _ file refl refl (rw e tt)
truncate_torn-Read env torn file e = elim (Bool-cases env.repair_fails) [
  | inl bad ↦ rw bad (failed state_corrupt file refl)
  | inr good ↦ rw good (got _ _ refl refl tt)
]

pub read_all-Read : (env : Env) (file : File) → Read file (read_all env true file)
unfolding read_all
read_all-Read env file = elim (Bool-cases env.read_fails) [
  | inl bad ↦ rw bad (failed state_corrupt file refl)
  | inr good ↦ rw good (truncate_torn-Read env file.tail file refl)
]

-- ── appendLine ──

pub data Wrote (r : Record) (file : File) : Result Fault (Unit {0}) × File → Type 0 where
  kept : (e : Fault) (f : File) → f.lines ≡ file.lines → Wrote r file (err e, f)
  recorded :
      (res : Result Fault (Unit {0})) (f : File)
      → records f.lines ≡ records file.lines ++ r ∷ []
      → Wrote r file (res, f)

pub records-append :
    (ls : List Line) (r : Record) → records (ls ++ written r ∷ []) ≡ records ls ++ r ∷ []
unfolding records
records-append [] r = refl
records-append (blank ∷ ls) r = records-append ls r
records-append (garbled ∷ ls) r = records-append ls r
records-append (written x ∷ ls) r = ap (λ l. x ∷ l) (records-append ls r)

joined-clean : (t : Tail) (r : Record) → IsClean t → joined t r ≡ written r
unfolding joined
joined-clean nothing r h = refl
joined-clean spaces r h = refl
joined-clean torn r h = absurd h

flush-Wrote :
    (env : Env) (r : Record) (file f : File)
    → records f.lines ≡ records file.lines ++ r ∷ []
    → Wrote r file (
        after
          (λ _. refuse env.close_fails state_corrupt)
          (after (λ _. refuse env.sync_fails state_corrupt) (ok tt, f)))
flush-Wrote env r file f h = elim (Bool-cases env.sync_fails) [
  | inl bad ↦ rw bad (recorded _ f h)
  | inr good ↦ rw good (elim (Bool-cases env.close_fails) [
    | inl bad ↦ rw bad (recorded _ f h)
    | inr good ↦ rw good (recorded _ f h)
  ])
]

write_line-Wrote :
    (env : Env) (w : Write) (r : Record) (file : File)
    → IsClean file.tail
    → Wrote r file (
        after
          (λ _. refuse env.close_fails state_corrupt)
          (after (λ _. refuse env.sync_fails state_corrupt) (write_line w r file)))
unfolding write_line
write_line-Wrote env whole r file h =
    flush-Wrote env r file _ (rw (joined-clean file.tail r h) (records-append file.lines r))
write_line-Wrote env partial r file h = kept state_corrupt _ refl
write_line-Wrote env refused r file h = kept state_corrupt file refl

pub append_line-Wrote :
    (env : Env) (r : Record) (file : File)
    → IsClean file.tail
    → Wrote r file (append_line env r file)
unfolding append_line
append_line-Wrote env r file h = elim (Bool-cases env.open_fails) [
  | inl bad ↦ rw bad (kept state_corrupt file refl)
  | inr good ↦ rw good (write_line-Wrote env env.write r file h)
]

-- ── maybeCompact ──

-- The file stands for the records, up to superseded ones.
abbrev pub StandsFor : List Record → File → Type 0
StandsFor rs f = (id : Text) → newest_from none id (records f.lines) ≡ newest_from none id rs

records-written : (rs : List Record) → records (map written rs) ≡ rs
unfolding records
records-written [] = refl
records-written (r ∷ rs) = ap (λ l. r ∷ l) (records-written rs)

compact-StandsFor :
    (env : Env) (rs : List Record) (f : File)
    → StandsFor rs f
    → StandsFor rs (compact env (fold_latest rs) f).1
unfolding compact
compact-StandsFor env rs f h = elim (Bool-cases env.rewrite_fails) [
  | inl bad ↦ rw bad h
  | inr good ↦ rw good (λ id.
      ap (newest_from none id) (records-written (sort_snapshot (fold_latest rs)))
      ∙ newest_from-snapshot id rs)
]

pub maybe_compact-StandsFor :
    (env : Env) (before : List Record) (r : Record) (f : File)
    → StandsFor (before ++ r ∷ []) f
    → StandsFor (before ++ r ∷ []) (maybe_compact env before r f).1
unfolding maybe_compact
maybe_compact-StandsFor env before r f h =
    elim (Bool-cases
      (stays (length (before ++ r ∷ []) - length (fold_latest (before ++ r ∷ []))) env.size)) [
        | inl s ↦ rw s h
        | inr s ↦ rw s (compact-StandsFor env (before ++ r ∷ []) f h)
      ]
