-- ===== src/Journal/Queries/Latest.antt =====
-- What a read of the journal gives to its caller (`read` of internal/journal/store.go).
use daxie.Prelude.{◌≡◌, refl, sym, ap, ◌∙◌, inl, inr, false, Bool-cases, Option, none, some, List}
use daxie.Prelude.Results.{Result, ok, err, ok-injective, err-ne-ok}
use daxie.Prelude.Text.{Text}
use daxie.Journal.Record.{Record}
use daxie.Journal.Fold.{fold_latest, find_id, find_id-fold_latest}
use daxie.Journal.Store.{
  Tail, nothing, spaces, torn, File, Fault, state_corrupt, lock_timeout, not_found, Env, after,
  records, truncate_torn, read_all,
}
use daxie.Journal.Store.Outcomes.{view, with_lock-elim}
use daxie.Journal.Queries.{read, or_not_found, by_id}

-- A reader leaves the file alone, and has the records of its lines or an error.
pub data Reads (file : File) (rs : List Record) : Result Fault (List Record) × File → Type 0 where
  reads : (xs : List Record) (f : File) → xs ≡ rs → f ≡ file → Reads file rs (ok xs, f)
  fails : (e : Fault) (f : File) → f ≡ file → Reads file rs (err e, f)

truncate_torn-Reads :
    (env : Env) (t : Tail) (file : File)
    → Reads file
        (records file.lines)
        (after (λ _ f. (ok (records file.lines), f)) (truncate_torn env false t file))
unfolding truncate_torn
truncate_torn-Reads env nothing file = reads _ file refl refl
truncate_torn-Reads env spaces file = reads _ file refl refl
truncate_torn-Reads env torn file = reads _ file refl refl

read_all-Reads :
    (env : Env) (file : File) → Reads file (records file.lines) (read_all env false file)
unfolding read_all
read_all-Reads env file = elim (Bool-cases env.read_fails) [
  | inl bad ↦ rw bad (fails state_corrupt file refl)
  | inr good ↦ rw good (truncate_torn-Reads env file.tail file)
]

fold-Reads :
    (file : File) (rs : List Record) (out : Result Fault (List Record) × File)
    → Reads file rs out
    → Reads file (fold_latest rs) (after (λ xs f. (ok (fold_latest xs), f)) out)
fold-Reads file rs _ (reads xs f e h) = reads _ f (ap fold_latest e) h
fold-Reads file rs _ (fails e f h) = fails e f h

pub read-Reads :
    (env : Env) (file : File) → Reads file (fold_latest (records file.lines)) (read env file)
unfolding read
read-Reads env file = fold-Reads file (records file.lines) _ (
    with_lock-elim (Reads file (records file.lines)) (read_all env false) file env
      (fails state_corrupt file refl) (fails lock_timeout file refl) (read_all-Reads env file))

-- ── what a successful read says ──

pub Reads-ok :
    {file : File} {rs : List Record} {out : Result Fault (List Record) × File} {xs : List Record}
    {f : File}
    → Reads file rs out
    → out ≡ (ok xs, f)
    → (xs ≡ rs) × (f ≡ file)
Reads-ok (reads ys g e h) eq =
    (sym (ok-injective ys _ (ap (λ p. p.0) eq)) ∙ e, sym (ap (λ p. p.1) eq) ∙ h)
Reads-ok (fails e f h) eq = absurd (err-ne-ok e _ (ap (λ p. p.0) eq))

query-ok :
    (file : File) (id : Text) (r : Record) (f : File) (out : Result Fault (List Record) × File)
    → Reads file (fold_latest (records file.lines)) out
    → after (λ latest. or_not_found (find_id latest id)) out ≡ (ok r, f)
    → (view file id ≡ some r) × (f ≡ file)
unfolding view
query-ok file id r f _ (reads xs g e h) eq =
    found (find_id xs id) (ap (λ l. find_id l id) e ∙ find_id-fold_latest id (records file.lines))
      eq
  where
    found :
        (o : Option Record)
        → o ≡ view file id
        → or_not_found o g ≡ (ok r, f)
        → (view file id ≡ some r) × (f ≡ file)
    found none v eq = absurd (err-ne-ok not_found r (ap (λ p. p.0) eq))
    found (some x) v eq =
        (sym v ∙ ap some (ok-injective x r (ap (λ p. p.0) eq)), sym (ap (λ p. p.1) eq) ∙ h)
query-ok file id r f _ (fails e g h) eq = absurd (err-ne-ok e r (ap (λ p. p.0) eq))

-- A query by id that succeeds gives the latest record of the id, and leaves the file as it is.
pub by_id_lem :
    (env : Env) (id : Text) (file : File) (r : Record) (f : File)
    → by_id env id file ≡ (ok r, f)
    → (view file id ≡ some r) × (f ≡ file)
unfolding by_id
by_id_lem env id file r f eq = query-ok file id r f (read env file) (read-Reads env file) eq
