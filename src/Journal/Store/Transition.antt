-- ===== src/Journal/Store/Transition.antt =====
-- `SetState` of internal/journal/store.go as an update of one entry of a map.
use daxie.Prelude.{
  ◌+◌, ◌≡◌, ◌<◌, refl, inl, inr, true, false, Bool-cases, Option, none, some, List, [], ◌∷◌, leb,
  subst, some-injective,
}
use daxie.Prelude.Results.{Result, err}
use daxie.Prelude.Text.{Text, text_eq, text_eq_sound, is_empty}
use daxie.Journal.Record.{Record, StateMutation, apply_to}
use daxie.Journal.Fold.{
  fold_latest, find_id, max_seq, later, advance, newest_from, find_id-fold_latest,
}
use daxie.Journal.Store.{
  File, Fault, state_corrupt, lock_timeout, not_found, Env, after, records, read_all, u64, next_seq,
  publish, moved, set_state_with, set_state,
}
use daxie.Journal.Store.Outcomes.{Map, view, Read, failed, got, read_all-Read, with_lock-elim}
use daxie.Journal.Store.Refinement.{Keeps, Keeps-lines, Updates, unchanged, publish-Updates}

advance-id :
    (id : Text) (cur : Option Record) (r : Record)
    → ((x : Record) → cur ≡ some x → x.id ≡ id)
    → (x : Record) → advance id cur r ≡ some x
    → x.id ≡ id
advance-id id cur r h x e = elim (Bool-cases (text_eq r.id id)) [
  | inl same ↦
      later-id id cur r h (text_eq_sound r.id id same) x
        (some-injective (later cur r) x (rw same at e))
  | inr other ↦ h x (rw other at e)
]
  where
    later-id :
        (id : Text) (cur : Option Record) (r : Record)
        → ((x : Record) → cur ≡ some x → x.id ≡ id)
        → r.id ≡ id
        → (x : Record) → later cur r ≡ x
        → x.id ≡ id
    later-id id none r h i x e = rw (← e) i
    later-id id (some y) r h i x e = elim (Bool-cases (leb y.seq r.seq)) [
      | inl up ↦ rw (← (rw up at e)) i
      | inr down ↦ rw (← (rw down at e)) (h y refl)
    ]

newest_from-id :
    (cur : Option Record) (id : Text) (rs : List Record) (p : Record)
    → ((x : Record) → cur ≡ some x → x.id ≡ id)
    → newest_from cur id rs ≡ some p
    → p.id ≡ id
unfolding newest_from
newest_from-id cur id [] p h e = h p e
newest_from-id cur id (r ∷ rs) p h e =
    newest_from-id (advance id cur r) id rs p (advance-id id cur r h) e

module _ (env : Env) (now id : Text) (m : StateMutation) (file : File)
    (bounded : max_seq 0 (records file.lines) + 1 < u64) (named : is_empty id ≡ false) where
  abbrev pub next_record : Record → Record
  next_record = moved m now (next_seq (records file.lines))

  set_state_with-Updates :
      (prior : Record)
      → view file id ≡ some prior
      → (out : Result Fault (List Record) × File) → Read file out
      → Updates
          (view file)
          id
          (next_record prior)
          tt
          (after (λ rs. set_state_with env now m rs (find_id (fold_latest rs) id)) out)
  unfolding view set_state_with apply_to
  set_state_with-Updates prior v _ (failed e f h) = unchanged e f (Keeps-lines file f h)
  set_state_with-Updates prior v _ (got rs f er h clean) =
      rw (er, find_id-fold_latest id (records file.lines), v)
        (subst
          (λ i.
            Updates (view file) i (next_record prior) tt
              (publish env (records file.lines) (next_record prior) f))
          (newest_from-id none id (records file.lines) prior (λ x e. cc) v)
          (publish-Updates file (next_record prior) env f h clean bounded refl))

  -- Whatever the environment answers, `SetState` on the id of a known record is an update of the map
  -- of latest records at that id, to the record with the transition applied and the next sequence
  -- number: it succeeds and sets the entry, or it fails and has set it, or it fails and the map is as
  -- it was. The id is not empty and the next sequence number fits 64 bits.
  pub set_state-Updates :
      (prior : Record)
      → view file id ≡ some prior
      → Updates (view file) id (next_record prior) tt (set_state env now id m file)
  unfolding set_state
  set_state-Updates prior v = rw named (
      with_lock-elim (Updates (view file) id (next_record prior) tt) _ file env
        (unchanged state_corrupt file (λ j. refl)) (unchanged lock_timeout file (λ j. refl))
        (set_state_with-Updates prior v (read_all env true file) (read_all-Read env file)))

pub data Refuses (m : Map) : Result Fault (Unit {0}) × File → Type 0 where
  refuses : (e : Fault) (f : File) → Keeps m (view f) → Refuses m (err e, f)

set_state_with-Refuses :
    (env : Env) (now id : Text) (m : StateMutation) (file : File)
    → view file id ≡ none
    → (out : Result Fault (List Record) × File) → Read file out
    → Refuses
        (view file)
        (after (λ rs. set_state_with env now m rs (find_id (fold_latest rs) id)) out)
unfolding view set_state_with
set_state_with-Refuses env now id m file v _ (failed e f h) = refuses e f (Keeps-lines file f h)
set_state_with-Refuses env now id m file v _ (got rs f er h clean) =
    rw (er, find_id-fold_latest id (records file.lines), v)
      (refuses not_found f (Keeps-lines file f h))

-- A transition of an id that no record has fails, and the map of latest records is as it was.
pub set_state-Refuses :
    (env : Env) (now id : Text) (m : StateMutation) (file : File)
    → view file id ≡ none
    → Refuses (view file) (set_state env now id m file)
unfolding set_state
set_state-Refuses env now id m file v = elim (Bool-cases (is_empty id)) [
  | inl e ↦ rw e (refuses state_corrupt file (λ j. refl))
  | inr n ↦ rw n (
      with_lock-elim (Refuses (view file)) _ file env (refuses state_corrupt file (λ j. refl))
        (refuses lock_timeout file (λ j. refl))
        (set_state_with-Refuses env now id m file v (read_all env true file)
          (read_all-Read env file)))
]
