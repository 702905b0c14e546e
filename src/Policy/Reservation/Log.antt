-- ===== src/Policy/Reservation/Log.antt =====
-- The reservation log as a map from ids to their latest records, and the file that holds it
-- (internal/policy/reservation.go, `loadAll` and `appendAndCompact`).
use daxie.Prelude.{
  ◌≡◌, ◌≢◌, refl, sym, ap, ◌∙◌, inl, inr, Bool, true, false, not, ◌&&◌, Bool-cases, none, some,
  List, [], ◌∷◌, ◌++◌, All, All-append, arith, find, map, reject, if◌then◌else◌, append-nil, subst,
  some-injective, false≢true, append_assoc,
}
use daxie.Prelude.Text.{Text, text_eq, text_eq_sound, text_eq_refl, is_empty}
use daxie.Policy.Counter.Entries.{text_eq_ne}
use daxie.Policy.Reservation.{
  Reservation, Line, written, blank, garbled, Log, find_id, put, all_blank, load_from, load_all,
  is_terminal, compacted, append_and_compact,
}

abbrev pub Lacks : Text → Log → Type 0
Lacks id = All (λ (r : Reservation). r.id ≢ id)

-- Each record has an id of its own, which is not empty.
abbrev pub IsLog : Log → Type 0
IsLog [] = Unit
IsLog (r ∷ rs) = (is_empty r.id ≡ false) × Lacks r.id rs × IsLog rs

Lacks-put :
    (id : Text) (r : Reservation) (log : Log) → r.id ≢ id → Lacks id log → Lacks id (put r log)
unfolding put
Lacks-put id r [] n h = (n, tt)
Lacks-put id r (x ∷ xs) n h = elim (Bool-cases (text_eq x.id r.id)) [
  | inl same ↦ rw same (n, h.1)
  | inr other ↦ rw other (h.0, Lacks-put id r xs n h.1)
]

pub put-IsLog :
    (r : Reservation) (log : Log) → is_empty r.id ≡ false → IsLog log → IsLog (put r log)
unfolding put
put-IsLog r [] n h = (n, tt, tt)
put-IsLog r (x ∷ xs) n h = elim (Bool-cases (text_eq x.id r.id)) [
  | inl same ↦ rw same (n, subst (λ i. Lacks i xs) (text_eq_sound x.id r.id same) h.1, h.2)
  | inr other ↦ rw other (
    h.0,
    Lacks-put x.id r xs (λ e. false≢true (sym other ∙ ap (text_eq x.id) e ∙ text_eq_refl x.id)) h.1,
    put-IsLog r xs n h.2,
  )
]

Lacks-reject :
    (id : Text) (q : Reservation → Bool) (log : Log) → Lacks id log → Lacks id (reject q log)
Lacks-reject id q [] h = tt
Lacks-reject id q (x ∷ xs) h = elim (Bool-cases (q x)) [
  | inl drop_it ↦ rw drop_it (Lacks-reject id q xs h.1)
  | inr keep ↦ rw keep (h.0, Lacks-reject id q xs h.1)
]

reject-IsLog : (q : Reservation → Bool) (log : Log) → IsLog log → IsLog (reject q log)
reject-IsLog q [] h = tt
reject-IsLog q (x ∷ xs) h = elim (Bool-cases (q x)) [
  | inl drop_it ↦ rw drop_it (reject-IsLog q xs h.2)
  | inr keep ↦ rw keep (h.0, Lacks-reject x.id q xs h.1, reject-IsLog q xs h.2)
]

-- ── what a read gives ──

garbled-IsLog :
    (b : Bool) (acc log : Log) → IsLog acc → (if b then some acc else none) ≡ some log → IsLog log
garbled-IsLog true acc log h e = subst IsLog (some-injective acc log e) h
garbled-IsLog false acc log h e = cc

written-IsLog :
    (b : Bool) (r : Reservation) (acc : Log)
    → is_empty r.id ≡ b
    → IsLog acc
    → IsLog (if b then acc else put r acc)
written-IsLog true r acc e h = h
written-IsLog false r acc e h = put-IsLog r acc e h

load_from-IsLog :
    (acc : Log) (ls : List Line) (log : Log) → IsLog acc → load_from acc ls ≡ some log → IsLog log
unfolding load_from
load_from-IsLog acc [] log h e = subst IsLog (some-injective acc log e) h
load_from-IsLog acc (blank ∷ ls) log h e = load_from-IsLog acc ls log h e
load_from-IsLog acc (garbled ∷ ls) log h e = garbled-IsLog (all_blank ls) acc log h e
load_from-IsLog acc (written r ∷ ls) log h e =
    load_from-IsLog (if is_empty r.id then acc else put r acc) ls log
      (written-IsLog (is_empty r.id) r acc refl h) e

-- Whatever lines the file has, a log that is read from it has one record for each id, and no record
-- without an id.
pub load_all-IsLog : (ls : List Line) (log : Log) → load_all ls ≡ some log → IsLog log
unfolding load_all
load_all-IsLog ls log e = load_from-IsLog [] ls log tt e

-- ── what a write leaves ──

put-new : (r : Reservation) (acc : Log) → Lacks r.id acc → put r acc ≡ acc ++ r ∷ []
unfolding put
put-new r [] h = refl
put-new r (x ∷ xs) h = rw (text_eq_ne x.id r.id h.0) (ap (λ l. x ∷ l) (put-new r xs h.1))

-- Records that may follow a list of others.
Apart : Log → Log → Type 0
Apart acc [] = Unit
Apart acc (r ∷ rs) = Lacks r.id acc × Apart acc rs

Apart-snoc :
    (acc : Log) (r : Reservation) (rs : Log)
    → Apart acc rs
    → Lacks r.id rs
    → Apart (acc ++ r ∷ []) rs
unfolding Apart
Apart-snoc acc r [] h n = tt
Apart-snoc acc r (x ∷ xs) h n = (
  All-append (λ (y : Reservation). y.id ≢ x.id) acc (r ∷ []) h.0 ((λ e. n.0 (sym e)), tt),
  Apart-snoc acc r xs h.1 n.1,
)

load_from-written :
    (acc log : Log)
    → Apart acc log
    → IsLog log
    → load_from acc (map written log) ≡ some (acc ++ log)
unfolding load_from Apart
load_from-written acc [] a h = ap some (sym (append-nil acc))
load_from-written acc (r ∷ rs) a h =
    rw (h.0, load_from)
      (ap (λ l. load_from l (map written rs)) (put-new r acc a.0)
        ∙ load_from-written (acc ++ r ∷ []) rs (Apart-snoc acc r rs a.1 h.1) h.2
        ∙ ap some (append_assoc acc (r ∷ []) rs))

Apart-nil : (log : Log) → Apart [] log
unfolding Apart
Apart-nil [] = tt
Apart-nil (r ∷ rs) = (tt, Apart-nil rs)

-- What a write leaves in the file reads back as the compacted log, when the record has an id.
pub load_all-append_and_compact :
    (log : Log) (r : Reservation)
    → is_empty r.id ≡ false
    → IsLog log
    → load_all (append_and_compact log r) ≡ some (compacted log r)
unfolding load_all append_and_compact compacted
load_all-append_and_compact log r n h =
    load_from-written [] (compacted log r) (Apart-nil _) (
      reject-IsLog (λ x. is_terminal x && not (text_eq x.id r.id)) (put r log)
        (put-IsLog r log n h))

-- ── lookups ──

find_id-put : (r : Reservation) (log : Log) → find_id (put r log) r.id ≡ some r
unfolding find_id put
find_id-put r [] = rw (text_eq_refl r.id) refl
find_id-put r (x ∷ xs) = elim (Bool-cases (text_eq x.id r.id)) [
  | inl same ↦ rw (same, text_eq_refl r.id) refl
  | inr other ↦ rw (other, other) (find_id-put r xs)
]

find_id-put_other :
    (r : Reservation) (id : Text) (log : Log) → r.id ≢ id → find_id (put r log) id ≡ find_id log id
unfolding find_id put
find_id-put_other r id [] n = rw (text_eq_ne r.id id n) refl
find_id-put_other r id (x ∷ xs) n = elim (Bool-cases (text_eq x.id r.id)) [
  | inl same ↦ rw same (
      rw
        (text_eq_ne r.id id n, text_eq_ne x.id id (λ e. n (sym (text_eq_sound x.id r.id same) ∙ e)))
        refl)
  | inr other ↦
      rw other (ap (λ o. if text_eq x.id id then some x else o) (find_id-put_other r id xs n))
]

pub find-reject :
    (p q : Reservation → Bool) (log : Log) (r : Reservation)
    → find p log ≡ some r
    → q r ≡ false
    → find p (reject q log) ≡ some r
find-reject p q [] r f k = cc
find-reject p q (x ∷ xs) r f k = elim (Bool-cases (p x)) [
  | inl hit ↦ ground (arith, ap q)
  | inr miss ↦
      let f' : find p xs ≡ some r = ground arith in
      elim (Bool-cases (q x)) [
        | inl drop_it ↦ rw drop_it (find-reject p q xs r f' k)
        | inr keep ↦ rw keep (rw miss (find-reject p q xs r f' k))
      ]
]

-- The record that was written is found.
pub find_id-compacted : (log : Log) (m : Reservation) → find_id (compacted log m) m.id ≡ some m
unfolding find_id compacted
find_id-compacted log m =
    find-reject (λ r. text_eq r.id m.id) _ (put m log) m (find_id-put m log)
      (ground (arith, text_eq_refl m.id))

-- A write for one id keeps the record of any other id that is not finished: released, or committed
-- and settled.
pub unfinished-kept :
    (log : Log) (m : Reservation) (id : Text) (r : Reservation)
    → m.id ≢ id
    → is_terminal r ≡ false
    → find_id log id ≡ some r
    → find_id (compacted log m) id ≡ some r
unfolding find_id compacted
unfinished-kept log m id r n t f =
    find-reject (λ x. text_eq x.id id) _ (put m log) r (find_id-put_other m id log n ∙ f)
      (ground arith)

-- A lookup finds a record of that id.
pub find_id-id : (log : Log) (id : Text) (r : Reservation) → find_id log id ≡ some r → r.id ≡ id
unfolding find_id
find_id-id [] id r f = cc
find_id-id (x ∷ xs) id r f = elim (Bool-cases (text_eq x.id id)) [
  | inl hit ↦
      let e : x ≡ r = ground arith in
      ap (λ (y : Reservation). y.id) (sym e) ∙ text_eq_sound x.id id hit
  | inr miss ↦ find_id-id xs id r (ground arith)
]
