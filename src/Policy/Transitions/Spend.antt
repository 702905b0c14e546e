-- ===== src/Policy/Transitions/Spend.antt =====
-- The spend windows after a commit, a release and a settlement (internal/policy/policy.go,
-- `Commit`, `Release` and `SettleActual`).
use daxie.Prelude.{
  ℕ, ◌≤◌, ◌≡◌, refl, sym, subst, Bool, true, false, Option, none, some, All, All-map, All-always,
  if◌then◌else◌,
}
use daxie.Prelude.Results.{Result, ok, err}
use daxie.Prelude.Text.{Text, is_empty}
use daxie.Policy.Types.{Address, Instant}
use daxie.Policy.Counter.{Candidate, CounterFile, Entry}
use daxie.Policy.Candidates.{commit_candidate, settle_candidate, release_candidate}
use daxie.Policy.Candidates.Shrinking.{Shrinks, commit-Shrinks, release-Shrinks}
use daxie.Policy.Candidates.Settlement.{IsSound, settle-Shrinks}
use daxie.Policy.Reservation.{
  Reservation, Log, find_id, release_reservation, commit_reservation, settle_reservation,
}
use daxie.Policy.Store.{
  Error, Store, Env, Action, after, ◌>>=◌, pure, raise, expect, read_log, write_log, transition,
  apply_transition, read_counter, network_key,
}
use daxie.Policy.Store.Inversion.{
  held, KeepsCounters, >>=-KeepsCounters, IsQuiet-keeps, expect-IsQuiet, read_log-IsQuiet,
  write_log-KeepsCounters,
}
use daxie.Policy.Transitions.{
  counter_transition, release_found, release_log, commit, release, settle_actual,
}
use daxie.Policy.Transitions.Windows.{
  window_read, held_window, Lowered, Lowered-refl, if_Lowers, ShrinksIn, ShrinksAll,
  counter_transition-Lowered,
}

-- ── the log side writes no counter ──

apply_transition-KeepsCounters :
    (env : Env) (change : Reservation → Reservation) (log : Log) (o : Option Reservation)
    → KeepsCounters (apply_transition env change log o)
unfolding apply_transition
apply_transition-KeepsCounters env change log none = λ st. refl
apply_transition-KeepsCounters env change log (some r) = write_log-KeepsCounters env log (change r)

pub if_keeps :
    (b : Bool) (m k : Action (Unit {0}))
    → KeepsCounters m
    → KeepsCounters k
    → KeepsCounters (if b then m else k)
if_keeps true m k hm hk = hm
if_keeps false m k hm hk = hk

-- A step on the log: under its lock, with what is read.
locked-KeepsCounters :
    (env : Env) (f : Log → Action (Unit {0}))
    → ((log : Log) → KeepsCounters (f log))
    → KeepsCounters (expect env.log_lock >>= λ _. read_log >>= f)
locked-KeepsCounters env f h =
    >>=-KeepsCounters (expect env.log_lock) (λ _. read_log >>= f)
      (IsQuiet-keeps (expect env.log_lock) (expect-IsQuiet env.log_lock))
      λ _. >>=-KeepsCounters read_log f (IsQuiet-keeps read_log read_log-IsQuiet) h

transition-KeepsCounters :
    (env : Env) (id : Text) (change : Reservation → Reservation)
    → KeepsCounters (transition env id change)
unfolding transition
transition-KeepsCounters env id change =
    if_keeps (is_empty id) (raise Error.reservation_missing) _ (λ st. refl)
      (locked-KeepsCounters env (λ log. apply_transition env change log (find_id log id))
        (λ log. apply_transition-KeepsCounters env change log (find_id log id)))

released-KeepsCounters :
    (env : Env) (log : Log) (o : Option Reservation)
    → KeepsCounters
        (elim o as (λ _. Action (Unit {0})) [ none ↦ pure tt | some r ↦ write_log env log r ])
released-KeepsCounters env log none = λ st. refl
released-KeepsCounters env log (some r) = write_log-KeepsCounters env log r

release_found-KeepsCounters :
    (env : Env) (log : Log) (o : Option Reservation) → KeepsCounters (release_found env log o)
unfolding release_found
release_found-KeepsCounters env log none = λ st. refl
release_found-KeepsCounters env log (some r) =
    released-KeepsCounters env log (release_reservation r)

pub release_log-KeepsCounters : (env : Env) (id : Text) → KeepsCounters (release_log env id)
unfolding release_log
release_log-KeepsCounters env id =
    locked-KeepsCounters env (λ log. release_found env log (find_id log id))
      (λ log. release_found-KeepsCounters env log (find_id log id))

-- ── both sides ──

module _ (env : Env) (now : Instant) (id : Text) (f : Candidate → Candidate) (st : Store) where
  step-Lowered :
      (r : Result Error (Unit {0})) (st1 : Store)
      → st1.counters ≡ st.counters
      → ShrinksAll f st
      → Lowered now st (after (λ _. counter_transition env id now f) (r, st1)).1
  step-Lowered (ok _) st1 e h =
      subst
        (λ cs.
          (n : Text) (a : Address)
          → held_window (counter_transition env id now f st1).1 n a now
            ≤ window_read (read_counter (cs (network_key n) a) n a) now)
        e
        (counter_transition-Lowered env id now f st1 (
          subst
            (λ cs. (n : Text) (a : Address) → ShrinksIn f (read_counter (cs (network_key n) a) n a))
            (sym e) h))
  step-Lowered (err _) st1 e h =
      subst
        (λ cs.
          (n : Text) (a : Address)
          → window_read (read_counter (cs (network_key n) a) n a) now ≤ held_window st n a now)
        (sym e) (Lowered-refl now st)

  bind-Lowered :
      (m : Action (Unit {0}))
      → KeepsCounters m
      → ShrinksAll f st
      → Lowered now st ((m >>= λ _. counter_transition env id now f) st).1
  bind-Lowered m k h = step-Lowered (m st).0 (m st).1 (k st) h

always_ShrinksIn :
    (f : Candidate → Candidate)
    → ((c : Candidate) → Shrinks f c)
    → (r : Result Error CounterFile) → ShrinksIn f r
always_ShrinksIn f h (ok cf) = All-always cf.entries (λ e. All-always e.candidates h)
always_ShrinksIn f h (err e) = tt

-- The gas amounts of a counter file read as natural numbers.
abbrev pub SoundIn : Result Error CounterFile → Type 0
SoundIn (ok cf) = All (λ (e : Entry). All IsSound e.candidates) cf.entries
SoundIn (err e) = Unit

settle_ShrinksIn :
    (actual : ℕ) (reverted : Bool) (r : Result Error CounterFile)
    → SoundIn r
    → ShrinksIn (settle_candidate actual reverted) r
settle_ShrinksIn actual reverted (ok cf) h =
    All-map cf.entries (λ e s. All-map e.candidates (settle-Shrinks actual reverted) s) h
settle_ShrinksIn actual reverted (err e) h = tt

module _ (env : Env) (now : Instant) (id : Text) (st : Store) where
  -- A commit, whatever fails on the way, leaves no account's spend window larger.
  pub commit-Lowered : (hash : Text) → Lowered now st (commit env now id hash st).1
  unfolding commit
  commit-Lowered hash =
      bind-Lowered env now id (commit_candidate hash) st
        (transition env id (commit_reservation hash))
        (transition-KeepsCounters env id (commit_reservation hash))
        (λ n a. always_ShrinksIn (commit_candidate hash) (commit-Shrinks hash) (held st n a))

  -- A release, whatever fails on the way, leaves no account's spend window larger.
  pub release-Lowered : Lowered now st (release env now id st).1
  unfolding release
  release-Lowered =
      if_Lowers now (is_empty id) (pure tt)
        (release_log env id >>= λ _. counter_transition env id now release_candidate) st
        (Lowered-refl now st)
        (bind-Lowered env now id release_candidate st (release_log env id)
          (release_log-KeepsCounters env id)
          (λ n a. always_ShrinksIn release_candidate release-Shrinks (held st n a)))

  -- A settlement, whatever fails on the way, leaves no account's spend window larger, when the worst
  -- cases and settled amounts of gas in the counter files read as natural numbers.
  pub settle-Lowered :
      (actual : ℕ) (reverted : Bool)
      → ((n : Text) (a : Address) → SoundIn (held st n a))
      → Lowered now st (settle_actual env now id actual reverted st).1
  unfolding settle_actual
  settle-Lowered actual reverted h =
      bind-Lowered env now id (settle_candidate actual reverted) st
        (transition env id (settle_reservation actual reverted))
        (transition-KeepsCounters env id (settle_reservation actual reverted))
        (λ n a. settle_ShrinksIn actual reverted (held st n a) (h n a))
