-- ===== src/Policy/Store/Inversion.antt =====
-- What a successful step of an operation says of the store (internal/policy/counter.go and
-- reservation.go).
use daxie.Prelude.{◌≡◌, refl, sym, ap, ◌∙◌, subst, Option, none, some}
use daxie.Prelude.Results.{Result, ok, err}
use daxie.Prelude.Text.{Text}
use daxie.Policy.Types.{Address, Instant}
use daxie.Policy.Counter.{CounterFile}
use daxie.Policy.Reservation.{Reservation, Log, load_all, append_and_compact}
use daxie.Policy.Store.{
  Error, Store, Env, Action, after, ◌>>=◌, expect, read_counter, network_key, load_counter,
  set_counter, stamped, stored, save_counter, write_counter, or_corrupt, read_log, save_log,
  write_log,
}

-- What the store has under an account of the network.
abbrev pub held : Store → Text → Address → Result Error CounterFile
held st network a = read_counter (st.counters (network_key network) a) network a

after-ok :
    {A B : Type 0} (f : A → Action B) (r : Result Error A) (st : Store) {b : B} {st' : Store}
    → after f (r, st) ≡ (ok b, st')
    → (a : A) × (r ≡ ok a) × (f a st ≡ (ok b, st'))
after-ok f (ok a) st h = (a, refl, h)
after-ok f (err e) st h = cc

-- A successful bind is two successful steps.
pub >>=-ok :
    {A B : Type 0} (m : Action A) (f : A → Action B) (st : Store) {b : B} {st' : Store}
    → (m >>= f) st ≡ (ok b, st')
    → (a : A) × (st1 : Store) × (m st ≡ (ok a, st1)) × (f a st1 ≡ (ok b, st'))
>>=-ok m f st h =
    let (a, e, g) = after-ok f (m st).0 (m st).1 h in (a, (m st).1, ap (λ r. (r, (m st).1)) e, g)

pub expect-ok :
    (o : Option Error) (st : Store) {x : Unit {0}} {st1 : Store}
    → expect o st ≡ (ok x, st1)
    → (o ≡ none) × (st1 ≡ st)
expect-ok none st h = (refl, sym (ap (λ p. p.1) h))
expect-ok (some e) st h = cc

pub load_counter-ok :
    (network : Text) (a : Address) (st : Store) {cf : CounterFile} {st1 : Store}
    → load_counter network a st ≡ (ok cf, st1)
    → (held st network a ≡ ok cf) × (st1 ≡ st)
unfolding load_counter
load_counter-ok network a st h = (ap (λ p. p.0) h, sym (ap (λ p. p.1) h))

-- The store after a counter file is written.
abbrev pub with_counter : Store → Text → Address → CounterFile → Instant → Store
with_counter st network a cf now = record st {
  counters = set_counter network a (stored (stamped cf now)) st.counters;
}

pub write_counter-ok :
    (env : Env) (network : Text) (a : Address) (cf : CounterFile) (now : Instant) (st : Store)
    {x : Unit {0}} {st1 : Store}
    → write_counter env network a cf now st ≡ (ok x, st1)
    → st1 ≡ with_counter st network a cf now
unfolding write_counter save_counter
write_counter-ok env network a cf now st h =
    let (_, st0, e, g) =
      >>=-ok (expect env.counter_write) (λ _. save_counter network a cf now) st h in
    sym (ap (λ p. p.1) g)
    ∙ ap (λ s. with_counter s network a cf now) (expect-ok env.counter_write st e).1

or_corrupt-ok : (o : Option Log) {log : Log} → or_corrupt o ≡ ok log → o ≡ some log
or_corrupt-ok (some l) h = cc
or_corrupt-ok none h = cc

pub read_log-ok :
    (st : Store) {log : Log} {st1 : Store}
    → read_log st ≡ (ok log, st1)
    → (load_all st.log ≡ some log) × (st1 ≡ st)
unfolding read_log
read_log-ok st h = (or_corrupt-ok (load_all st.log) (ap (λ p. p.0) h), sym (ap (λ p. p.1) h))

pub write_log-ok :
    (env : Env) (log : Log) (r : Reservation) (st : Store) {x : Unit {0}} {st1 : Store}
    → write_log env log r st ≡ (ok x, st1)
    → st1 ≡ record st { log = append_and_compact log r }
unfolding write_log save_log
write_log-ok env log r st h =
    let (_, st0, e, g) = >>=-ok (expect env.log_write) (λ _. save_log log r) st h in
    sym (ap (λ p. p.1) g)
    ∙ ap (λ (s : Store). record s { log = append_and_compact log r })
        (expect-ok env.log_write st e).1

pub pure-ok :
    {A : Type 0} (a b : A) (st st1 : Store)
    → ◌≡◌ {A = Result Error A × Store} (ok a, st) (ok b, st1)
    → (a ≡ b) × (st ≡ st1)
pure-ok a b st st1 h = (cc, ap (λ p. p.1) h)

-- ── steps that write nothing ──

abbrev pub IsQuiet : {A : Type 0} → Action A → Type 0
IsQuiet m = (st : Store) → (m st).1 ≡ st

-- After a step that writes nothing, the next one starts from the same store.
pub >>=-quiet :
    {A B : Type 0} (m : Action A) (f : A → Action B) (st : Store) {b : B} {st' : Store}
    → IsQuiet m
    → (m >>= f) st ≡ (ok b, st')
    → (a : A) × (m st ≡ (ok a, st)) × (f a st ≡ (ok b, st'))
>>=-quiet m f st q h =
    let (a, st1, e, g) = >>=-ok m f st h in
    let same : st1 ≡ st = sym (ap (λ p. p.1) e) ∙ q st in
    (a, subst (λ s. m st ≡ (ok a, s)) same e, ap (f a) (sym same) ∙ g)

after-IsQuiet :
    {A B : Type 0} (f : A → Action B) (r : Result Error A) (st : Store)
    → ((a : A) → IsQuiet (f a))
    → (after f (r, st)).1 ≡ st
after-IsQuiet f (ok a) st q = q a st
after-IsQuiet f (err e) st q = refl

pub >>=-IsQuiet :
    {A B : Type 0} (m : Action A) (f : A → Action B)
    → IsQuiet m
    → ((a : A) → IsQuiet (f a))
    → IsQuiet (m >>= f)
>>=-IsQuiet m f qm qf st = after-IsQuiet f (m st).0 (m st).1 qf ∙ qm st

pub expect-IsQuiet : (o : Option Error) → IsQuiet (expect o)
expect-IsQuiet none st = refl
expect-IsQuiet (some e) st = refl

pub load_counter-IsQuiet : (network : Text) (a : Address) → IsQuiet (load_counter network a)
unfolding load_counter
load_counter-IsQuiet network a st = refl

pub read_log-IsQuiet : IsQuiet read_log
unfolding read_log
read_log-IsQuiet st = refl

-- A successful step, and then the next.
pub then-step :
    {A B : Type 0} (m : Action A) (f : A → Action B) (st st1 : Store) (a : A)
    → m st ≡ (ok a, st1)
    → (m >>= f) st ≡ f a st1
then-step m f st st1 a h = ap (after f) h

-- ── steps that write no counter ──

abbrev pub KeepsCounters : {A : Type 0} → Action A → Type 0
KeepsCounters m = (st : Store) → (m st).1.counters ≡ st.counters

after-KeepsCounters :
    {A B : Type 0} (f : A → Action B) (r : Result Error A) (st : Store)
    → ((a : A) → KeepsCounters (f a))
    → (after f (r, st)).1.counters ≡ st.counters
after-KeepsCounters f (ok a) st q = q a st
after-KeepsCounters f (err e) st q = refl

pub >>=-KeepsCounters :
    {A B : Type 0} (m : Action A) (f : A → Action B)
    → KeepsCounters m
    → ((a : A) → KeepsCounters (f a))
    → KeepsCounters (m >>= f)
>>=-KeepsCounters m f km kf st = after-KeepsCounters f (m st).0 (m st).1 kf ∙ km st

pub IsQuiet-keeps : {A : Type 0} (m : Action A) → IsQuiet m → KeepsCounters m
IsQuiet-keeps m q st = ap (λ (s : Store). s.counters) (q st)

pub write_log-KeepsCounters :
    (env : Env) (log : Log) (r : Reservation) → KeepsCounters (write_log env log r)
unfolding write_log save_log
write_log-KeepsCounters env log r =
    >>=-KeepsCounters (expect env.log_write) (λ _. save_log log r)
      (IsQuiet-keeps (expect env.log_write) (expect-IsQuiet env.log_write)) (λ _ st. refl)

-- ── failures ──

-- When a step that writes no counter is followed by one that writes none on failure, a failure of
-- the two writes none.
abbrev pub FailsClean : {A : Type 0} → Action A → Type 0
FailsClean m = (e : Error) (st st' : Store) → m st ≡ (err e, st') → st'.counters ≡ st.counters

after-FailsClean :
    {A B : Type 0} (f : A → Action B) (r : Result Error A) (st : Store) (e : Error) (st' : Store)
    → ((a : A) → FailsClean (f a))
    → after f (r, st) ≡ (err e, st')
    → st'.counters ≡ st.counters
after-FailsClean f (ok a) st e st' q h = q a e st st' h
after-FailsClean f (err x) st e st' q h = sym (ap (λ p. p.1.counters) h)

pub >>=-FailsClean :
    {A B : Type 0} (m : Action A) (f : A → Action B)
    → KeepsCounters m
    → ((a : A) → FailsClean (f a))
    → FailsClean (m >>= f)
>>=-FailsClean m f km kf e st st' h = after-FailsClean f (m st).0 (m st).1 e st' kf h ∙ km st

pub keeps-fails : {A : Type 0} (m : Action A) → KeepsCounters m → FailsClean m
keeps-fails m k e st st' h = sym (ap (λ p. p.1.counters) h) ∙ k st
