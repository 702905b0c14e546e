-- ===== src/Journal/Store/Refinement.antt =====
-- `Append` of internal/journal/store.go as an update of one entry of a map.
use daxie.Prelude.{
  ℕ, ◌+◌, ◌≡◌, ◌≤◌, ◌<◌, refl, ap, ◌∙◌, inl, inr, true, not, ◌&&◌, Bool-cases, Option, none, some,
  List, [], ◌∷◌, ◌++◌, arith, if◌then◌else◌, leb, ltb, is_some, get_or,
}
use daxie.Prelude.Results.{Result, ok, err}
use daxie.Prelude.Text.{Text, text_eq, is_empty}
use daxie.Journal.Record.{Record}
use daxie.Journal.Fold.{max_seq, later, advance, newest_from, newest_from-append}
use daxie.Journal.Store.{
  File, Fault, state_corrupt, lock_timeout, Env, after, pure, records, read_all, append_line,
  maybe_compact, u64, next_seq, stamp, stamped, append_with, append, publish, ◌>>=◌,
}
use daxie.Journal.Store.Outcomes.{
  Map, view, IsClean, Read, failed, got, Wrote, kept, recorded, StandsFor, read_all-Read,
  append_line-Wrote, maybe_compact-StandsFor, with_lock-elim,
}

abbrev pub Keeps : Map → Map → Type 0
Keeps m m' = (j : Text) → m' j ≡ m j

-- One entry is set, and the others are as they were.
abbrev pub Sets : Text → Record → Map → Map → Type 0
Sets id s m m' = (j : Text) → m' j ≡ (if text_eq id j then some s else m j)

-- What an update of the entry `id` to `s` may come to: it succeeds, it fails after the record was
-- written, or it fails and changes nothing.
pub data Updates {A : Type 0} (m : Map) (id : Text) (s : Record) (a : A)
    : Result Fault A × File → Type 0 where
  done : (x : A) (f : File) → x ≡ a → Sets id s m (view f) → Updates m id s a (ok x, f)
  unsure : (e : Fault) (f : File) → Sets id s m (view f) → Updates m id s a (err e, f)
  unchanged : (e : Fault) (f : File) → Keeps m (view f) → Updates m id s a (err e, f)

-- ── the new record is the newest of its id ──

abbrev seq_of : Option Record → ℕ
seq_of none = 0
seq_of (some r) = r.seq

seq_of-later :
    (cur : Option Record) (r : Record) (m : ℕ)
    → seq_of cur ≤ m
    → (later cur r).seq ≤ (if ltb m r.seq then r.seq else m)
seq_of-later none r m h = ground arith
seq_of-later (some x) r m h = elim (Bool-cases (leb x.seq r.seq)) [
  | inl up ↦ rw up (ground arith)
  | inr down ↦ rw down (ground arith)
]

seq_of-advance :
    (cur : Option Record) (id : Text) (r : Record) (m : ℕ)
    → seq_of cur ≤ m
    → seq_of (advance id cur r) ≤ (if ltb m r.seq then r.seq else m)
seq_of-advance cur id r m h = elim (Bool-cases (text_eq r.id id)) [
  | inl same ↦ rw same (seq_of-later cur r m h)
  | inr other ↦ rw other (ground arith)
]

seq_of-newest :
    (cur : Option Record) (id : Text) (m : ℕ) (rs : List Record)
    → seq_of cur ≤ m
    → seq_of (newest_from cur id rs) ≤ max_seq m rs
unfolding newest_from max_seq
seq_of-newest cur id m [] h = h
seq_of-newest cur id m (r ∷ rs) h =
    seq_of-newest (advance id cur r) id (if ltb m r.seq then r.seq else m) rs
      (seq_of-advance cur id r m h)

later_self : (cur : Option Record) (s : Record) → seq_of cur ≤ s.seq → later cur s ≡ s
later_self none s h = refl
later_self (some x) s h = ground arith

next_seq-eq : (rs : List Record) → max_seq 0 rs + 1 < u64 → next_seq rs ≡ max_seq 0 rs + 1
unfolding next_seq
next_seq-eq rs h = omega arith

Sets-newest :
    (rs : List Record) (s : Record) (f : File)
    → max_seq 0 rs + 1 < u64
    → s.seq ≡ next_seq rs
    → StandsFor (rs ++ s ∷ []) f
    → Sets s.id s (λ id. newest_from none id rs) (view f)
unfolding view newest_from
Sets-newest rs s f b e h j =
    h j
    ∙ newest_from-append none j rs (s ∷ [])
    ∙ ap (λ x. if text_eq s.id j then some x else newest_from none j rs)
        (later_self (newest_from none j rs) s
          (omega (arith, seq_of-newest none j 0 rs (omega arith), next_seq-eq rs b)))

pub Keeps-lines : (file f : File) → f.lines ≡ file.lines → Keeps (view file) (view f)
unfolding view
Keeps-lines file f h j = rw h refl

-- ── from a written line to the end of the operation ──

module _ (file : File) (s : Record) where
  settle-Updates :
      (out : Result Fault (Unit {0}) × File)
      → Sets s.id s (view file) (view out.1)
      → Updates (view file) s.id s tt out
  settle-Updates (ok tt, f) h = done tt f refl h
  settle-Updates (err e, f) h = unsure e f h

  Wrote-Updates :
      (env : Env) (g : File)
      → g.lines ≡ file.lines
      → max_seq 0 (records file.lines) + 1 < u64
      → s.seq ≡ next_seq (records file.lines)
      → (out : Result Fault (Unit {0}) × File) → Wrote s g out
      → Updates (view file) s.id s tt (after (λ _. maybe_compact env (records file.lines) s) out)
  unfolding view
  Wrote-Updates env g eg b es _ (kept e f h) = unchanged e f (Keeps-lines file f (h ∙ eg))
  Wrote-Updates env g eg b es _ (recorded (err e) f h) = unsure e f (
      Sets-newest (records file.lines) s f b es
        (λ id. ap (newest_from none id) (h ∙ ap (λ l. records l ++ s ∷ []) eg)))
  Wrote-Updates env g eg b es _ (recorded (ok _) f h) =
      settle-Updates (maybe_compact env (records file.lines) s f) (
        Sets-newest (records file.lines) s (maybe_compact env (records file.lines) s f).1 b es (
          maybe_compact-StandsFor env (records file.lines) s f
            (λ id. ap (newest_from none id) (h ∙ ap (λ l. records l ++ s ∷ []) eg))))

  pub publish-Updates :
      (env : Env) (g : File)
      → g.lines ≡ file.lines
      → IsClean g.tail
      → max_seq 0 (records file.lines) + 1 < u64
      → s.seq ≡ next_seq (records file.lines)
      → Updates (view file) s.id s tt (publish env (records file.lines) s g)
  unfolding publish
  publish-Updates env g eg clean b es =
      Wrote-Updates env g eg b es (append_line env s g) (append_line-Wrote env s g clean)

  -- The operation that returns the record itself.
  return-Updates :
      (out : Result Fault (Unit {0}) × File)
      → Updates (view file) s.id s tt out
      → Updates (view file) s.id s s (after (λ _. pure s) out)
  return-Updates _ (done x f e h) = done s f refl h
  return-Updates _ (unsure e f h) = unsure e f h
  return-Updates _ (unchanged e f h) = unchanged e f h

-- ── Append ──

module _ (env : Env) (fresh : Option Text) (now : Text) (r : Record) (file : File)
    (bounded : max_seq 0 (records file.lines) + 1 < u64) where
  abbrev new_record : Record
  new_record = stamp (get_or fresh []) now (next_seq (records file.lines)) r

  stamp-seq : (id now' : Text) (n : ℕ) → (stamp id now' n r).seq ≡ n
  unfolding stamp
  stamp-seq id now' n = refl

  append_with-Updates :
      (out : Result Fault (List Record) × File)
      → Read file out
      → Updates
          (view file)
          new_record.id
          new_record
          new_record
          (after (append_with env fresh now r) out)
  unfolding append_with stamped
  append_with-Updates _ (failed e f h) = unchanged e f (Keeps-lines file f h)
  append_with-Updates _ (got rs f er h clean) =
      rw er (elim (Bool-cases (is_empty r.id && not (is_some fresh))) [
        | inl bad ↦ rw bad (unchanged state_corrupt f (Keeps-lines file f h))
        | inr good ↦ rw good (
            return-Updates file new_record (publish env (records file.lines) new_record f) (
              publish-Updates file new_record env f h clean bounded
                (stamp-seq (get_or fresh []) now (next_seq (records file.lines)))))
      ])

  -- Whatever the environment answers, `Append` is an update of the map of latest records at one id:
  -- it succeeds, sets the entry of the stamped record and returns that record, or it fails and has
  -- set the entry, or it fails and the map is as it was. The file is any, with corrupt lines and a torn
  -- tail included, and the next sequence number fits 64 bits.
  pub append-Updates :
      Updates (view file) new_record.id new_record new_record (append env fresh now r file)
  unfolding append
  append-Updates =
      with_lock-elim (Updates (view file) new_record.id new_record new_record)
        (read_all env true >>= append_with env fresh now r) file env
        (unchanged state_corrupt file (λ j. refl)) (unchanged lock_timeout file (λ j. refl))
        (append_with-Updates (read_all env true file) (read_all-Read env file))
