-- ===== src/Policy/Transitions/Lifecycle.antt =====
-- What a commit, a release and a settlement leave in the reservation log (internal/policy/policy.go,
-- `Commit`, `Release` and `SettleActual`).
use daxie.Prelude.{
  ◌≡◌, refl, sym, ap, ◌∙◌, subst, Bool, true, false, ℕ, Option, none, some, if◌then◌else◌,
}
use daxie.Prelude.Results.{Result, ok, err}
use daxie.Prelude.Text.{Text, text_eq, is_empty}
use daxie.Policy.Types.{Instant, zero_address}
use daxie.Policy.Counter.{Candidate, CounterFile, Entry, find_entry}
use daxie.Policy.Reservation.{
  Reservation, Log, find_id, load_all, append_and_compact, compacted, commit_reservation,
  settle_reservation, release_reservation,
}
use daxie.Policy.Reservation
use daxie.Policy.Reservation.Log.{
  load_all-IsLog, load_all-append_and_compact, find_id-compacted, find_id-id,
}
use daxie.Policy.Candidates.{commit_candidate, settle_candidate, release_candidate}
use daxie.Policy.Store.{
  or_corrupt, Error, Store, Env, Action, after, ◌>>=◌, pure, raise, expect, load_counter,
  write_counter, save_counter, read_log, transition, apply_transition,
}
use daxie.Policy.Store.Inversion.{
  >>=-ok, >>=-quiet, expect-IsQuiet, read_log-IsQuiet, read_log-ok, write_log-ok,
}
use daxie.Policy.Transitions.{
  change_found, change_counter, counter_of, lookup, counter_transition, commit, release_found,
  release_log, release, settle_actual,
}

-- ── the counter side leaves the log alone ──

abbrev KeepsLog : {A : Type 0} → Action A → Type 0
KeepsLog m = (st : Store) → (m st).1.log ≡ st.log

after-KeepsLog :
    {A B : Type 0} (f : A → Action B) (r : Result Error A) (st : Store)
    → ((a : A) → KeepsLog (f a))
    → (after f (r, st)).1.log ≡ st.log
after-KeepsLog f (ok a) st q = q a st
after-KeepsLog f (err e) st q = refl

>>=-KeepsLog :
    {A B : Type 0} (m : Action A) (f : A → Action B)
    → KeepsLog m
    → ((a : A) → KeepsLog (f a))
    → KeepsLog (m >>= f)
>>=-KeepsLog m f km kf st = after-KeepsLog f (m st).0 (m st).1 kf ∙ km st

expect-KeepsLog : (o : Option Error) → KeepsLog (expect o)
expect-KeepsLog o st = ap (λ (s : Store). s.log) (expect-IsQuiet o st)

change_found-KeepsLog :
    (env : Env) (r : Reservation) (now : Instant) (f : Candidate → Candidate) (id : Text)
    (cf : CounterFile) (o : Option Entry)
    → KeepsLog (change_found env r now f id cf o)
unfolding change_found write_counter save_counter
change_found-KeepsLog env r now f id cf none = λ st. refl
change_found-KeepsLog env r now f id cf (some x) =
    >>=-KeepsLog (expect env.counter_write) _ (expect-KeepsLog env.counter_write) (λ _ st. refl)

if_keeps :
    (b : Bool) (m k : Action (Unit {0})) → KeepsLog m → KeepsLog k → KeepsLog (if b then m else k)
if_keeps true m k hm hk = hm
if_keeps false m k hm hk = hk

counter_of-KeepsLog :
    (env : Env) (id : Text) (now : Instant) (f : Candidate → Candidate) (o : Option Reservation)
    → KeepsLog (counter_of env id now f o)
unfolding counter_of change_counter load_counter
counter_of-KeepsLog env id now f none = λ st. refl
counter_of-KeepsLog env id now f (some r) =
    if_keeps (text_eq r.account zero_address) (pure tt) (change_counter env r now f id) (λ s. refl)
      (>>=-KeepsLog (expect env.net_lock) _ (expect-KeepsLog env.net_lock) λ _.
        >>=-KeepsLog (load_counter r.network r.account) _ (λ s. refl)
          λ cf. change_found-KeepsLog env r now f id cf (find_entry cf id))

counter_transition-KeepsLog :
    (env : Env) (id : Text) (now : Instant) (f : Candidate → Candidate)
    → KeepsLog (counter_transition env id now f)
unfolding counter_transition lookup
counter_transition-KeepsLog env id now f =
    if_keeps (is_empty id) (pure tt) (lookup env id >>= counter_of env id now f) (λ s. refl)
      (>>=-KeepsLog (lookup env id) (counter_of env id now f) (λ s. refl)
        (counter_of-KeepsLog env id now f))

-- ── the log side ──

else_ok :
    {A : Type 0} (b : Bool) (e : Error) (m : Action A) (st : Store) (a : A) (st' : Store)
    → (if b then raise e else m) st ≡ (ok a, st')
    → (b ≡ false) × (m st ≡ (ok a, st'))
else_ok true e m st a st' h = cc
else_ok false e m st a st' h = (refl, h)

-- What the log holds under an id after a change of the record that it held before.
abbrev pub Changed : Store → Text → (Reservation → Reservation) → Store → Type 0
Changed st id change st' =
    (log log' : Log) × (r : Reservation) × (load_all st.log ≡ some log)
    × (find_id log id ≡ some r)
    × (load_all st'.log ≡ some log')
    × (find_id log' id ≡ some (change r))

apply-ok :
    (env : Env) (change : Reservation → Reservation) (log : Log) (o : Option Reservation)
    (st st' : Store)
    → apply_transition env change log o st ≡ (ok tt, st')
    → (r : Reservation) × (o ≡ some r) × (st'.log ≡ append_and_compact log (change r))
unfolding apply_transition
apply-ok env change log none st st' h = cc
apply-ok env change log (some r) st st' h =
    (r, refl, ap (λ (s : Store). s.log) (write_log-ok env log (change r) st h))

transition-Changed :
    (env : Env) (id : Text) (change : Reservation → Reservation)
    → ((r : Reservation) → (change r).id ≡ r.id)
    → (st st' : Store) → transition env id change st ≡ (ok tt, st')
    → Changed st id change st'
unfolding transition
transition-Changed env id change keeps st st' h =
    let (named, h') = else_ok (is_empty id) Error.reservation_missing _ st tt st' h in
    let (_, _, g) = >>=-quiet (expect env.log_lock) _ st (expect-IsQuiet env.log_lock) h' in
    let (log, e, g') = >>=-quiet read_log _ st read_log-IsQuiet g in
    let loads = (read_log-ok st e).0 in
    let (r, found, writes) = apply-ok env change log (find_id log id) st st' g' in
    let same : (change r).id ≡ id = keeps r ∙ find_id-id log id r found in
    (
      log,
      compacted log (change r),
      r,
      loads,
      found,
      ap load_all writes
          ∙ load_all-append_and_compact log (change r) (ap is_empty same ∙ named)
              (load_all-IsLog st.log log loads),
      subst (λ i. find_id (compacted log (change r)) i ≡ some (change r)) same
          (find_id-compacted log (change r)),
    )

both-Changed :
    (env : Env) (now : Instant) (id : Text) (change : Reservation → Reservation)
    (f : Candidate → Candidate)
    → ((r : Reservation) → (change r).id ≡ r.id)
    → (st st' : Store)
    → (transition env id change >>= λ _. counter_transition env id now f) st ≡ (ok tt, st')
    → Changed st id change st'
both-Changed env now id change f keeps st st' h =
    let (_, st1, e, g) =
      >>=-ok (transition env id change) (λ _. counter_transition env id now f) st h in
    let (log, log', r, loads, found, loads', found') =
      transition-Changed env id change keeps st st1 e in
    let same : st'.log ≡ st1.log =
      sym (ap (λ p. p.1.log) g) ∙ counter_transition-KeepsLog env id now f st1 in
    (log, log', r, loads, found, ap load_all same ∙ loads', found')

-- A commit that succeeds found the record, and reading the file back finds it committed with the
-- hash, or unchanged when it had been released.
pub commit-Changed :
    (env : Env) (now : Instant) (id hash : Text) (st st' : Store)
    → commit env now id hash st ≡ (ok tt, st')
    → Changed st id (commit_reservation hash) st'
unfolding commit commit_reservation
commit-Changed env now id hash st st' h =
    both-Changed env now id (commit_reservation hash) (commit_candidate hash) (λ r. refl) st st' h

-- A settlement that succeeds found the record, and reading the file back finds it with the settled gas
-- and, after a revert, with no value.
pub settle-Changed :
    (env : Env) (now : Instant) (id : Text) (actual : ℕ) (reverted : Bool) (st st' : Store)
    → settle_actual env now id actual reverted st ≡ (ok tt, st')
    → Changed st id (settle_reservation actual reverted) st'
unfolding settle_actual settle_reservation
settle-Changed env now id actual reverted st st' h =
    both-Changed env now id (settle_reservation actual reverted) (settle_candidate actual reverted)
      (λ r. refl) st st' h

-- ── release ──

release_committed :
    (r : Reservation) → r.state ≡ Reservation.committed → release_reservation r ≡ none
unfolding release_reservation
release_committed r h = rw h refl

committed_stays :
    (env : Env) (log : Log) (o : Option Reservation) (r : Reservation) (st : Store)
    → o ≡ some r
    → r.state ≡ Reservation.committed
    → (release_found env log o st).1 ≡ st
unfolding release_found
committed_stays env log o r st f c = rw f (rw (release_committed r c, release_found) refl)

lock_stays :
    (env : Env) (id : Text) (st : Store) (log : Log) (r : Reservation) (o : Option Error)
    → load_all st.log ≡ some log
    → find_id log id ≡ some r
    → r.state ≡ Reservation.committed
    → ((expect o >>= λ _. read_log >>= λ l. release_found env l (find_id l id)) st).1 ≡ st
unfolding read_log
lock_stays env id st log r none loads found c =
    ap (λ q. (after (λ l. release_found env l (find_id l id)) (or_corrupt q, st)).1) loads
    ∙ committed_stays env log (find_id log id) r st found c
lock_stays env id st log r (some e) loads found c = refl

if_log :
    (b : Bool) (m k : Action (Unit {0})) (st : Store)
    → (m st).1.log ≡ st.log
    → (k st).1.log ≡ st.log
    → ((if b then m else k) st).1.log ≡ st.log
if_log true m k st hm hk = hm
if_log false m k st hm hk = hk

-- A record that a readable log has as committed is never released: whatever the locks and the
-- file system answer, a release of its id leaves the log as it was.
pub committed-kept :
    (env : Env) (now : Instant) (id : Text) (st : Store) (log : Log) (r : Reservation)
    → load_all st.log ≡ some log
    → find_id log id ≡ some r
    → r.state ≡ Reservation.committed
    → (release env now id st).1.log ≡ st.log
unfolding release release_log
committed-kept env now id st log r loads found c =
    let after_log = λ (_ : Unit {0}). counter_transition env id now release_candidate in
    if_log (is_empty id) (pure tt) (release_log env id >>= after_log) st refl (
      after-KeepsLog after_log (release_log env id st).0 (release_log env id st).1
        (λ _. counter_transition-KeepsLog env id now release_candidate)
      ∙ ap (λ (s : Store). s.log) (lock_stays env id st log r env.log_lock loads found c))
