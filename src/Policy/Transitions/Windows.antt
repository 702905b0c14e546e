-- ===== src/Policy/Transitions/Windows.antt =====
-- The spend windows after a change of one counter entry (internal/policy/policy.go,
-- `counterTransition` and its callers).
use daxie.Prelude.{
  ℕ, ◌≤◌, ◌≡◌, refl, ap, ◌∙◌, subst, inl, inr, Bool, true, false, ◌&&◌, Bool-cases, Option, none,
  some, arith, All, if◌then◌else◌,
}
use daxie.Prelude.Results.{Result, ok, err}
use daxie.Prelude.Text.{Text, text_eq, text_eq_sound, is_empty}
use daxie.Policy.Types.{Address, Instant, zero_address}
use daxie.Policy.Counter.{Candidate, CounterFile, Entry, find_entry, sum_window, sum_entries}
use daxie.Policy.Candidates.Shrinking.{Shrinks, sum-update_primary}
use daxie.Policy.Reservation.{Reservation}
use daxie.Policy.Store.{
  Error, CounterState, missing, corrupt, stored, Store, Env, Action, after, ◌>>=◌, pure, expect,
  load_counter, read_counter, network_key, write_counter, save_counter, fill_names,
}
use daxie.Policy.Store.Inversion.{held, with_counter}
use daxie.Policy.Reserve.Budget.{sum_window-stamped}
use daxie.Policy.Transitions.{
  change_entry, change_found, change_counter, counter_of, lookup, counter_transition,
}

-- What a counter file counts for; a file that cannot be read has no number.
abbrev pub window_read : Result Error CounterFile → Instant → ℕ
window_read (ok cf) now = sum_window cf now
window_read (err e) now = 0

abbrev pub held_window : Store → Text → Address → Instant → ℕ
held_window st network a now = window_read (held st network a) now

-- No window is larger.
abbrev pub Lowered : Instant → Store → Store → Type 0
Lowered now st st' =
    (network : Text) (a : Address) → held_window st' network a now ≤ held_window st network a now

window_read-names :
    (s : CounterState) (n n' : Text) (a a' : Address) (now : Instant)
    → window_read (read_counter s n a) now ≡ window_read (read_counter s n' a') now
unfolding read_counter sum_window sum_entries fill_names
window_read-names missing n n' a a' now = refl
window_read-names corrupt n n' a a' now = refl
window_read-names (stored cf) n n' a a' now = refl

and_left : (x y : Bool) → x && y ≡ true → x ≡ true
and_left x y h = ground arith

and_right : (x y : Bool) → x && y ≡ true → y ≡ true
and_right x y h = ground arith

written-Lowered :
    (st : Store) (network : Text) (a : Address) (cf cf' : CounterFile) (now : Instant)
    → held st network a ≡ ok cf
    → sum_window cf' now ≤ sum_window cf now
    → Lowered now st (with_counter st network a cf' now)
unfolding read_counter
written-Lowered st network a cf cf' now holds le n b =
    elim (Bool-cases (text_eq (network_key n) (network_key network) && text_eq b a)) [
      | inl hit ↦
          let keys : network_key n ≡ network_key network =
            text_eq_sound (network_key n) (network_key network) (and_left _ (text_eq b a) hit) in
          let accounts : b ≡ a =
            text_eq_sound b a (and_right (text_eq (network_key n) (network_key network)) _ hit) in
          let before : held_window st n b now ≡ sum_window cf now =
            window_read-names (st.counters (network_key n) b) n network b a now
            ∙ ap (λ k. window_read (read_counter (st.counters k b) network a) now) keys
            ∙ ap
                (λ x.
                  window_read (read_counter (st.counters (network_key network) x) network a) now)
                accounts
            ∙ ap (λ r. window_read r now) holds in
          rw hit (omega (arith, le, before, sum_window-stamped n b cf' now))
      | inr miss ↦ rw miss (omega arith)
    ]

-- A change that can only shrink each candidate of what the store holds.
abbrev pub ShrinksIn : (Candidate → Candidate) → Result Error CounterFile → Type 0
ShrinksIn f (ok cf) = All (λ (e : Entry). All (Shrinks f) e.candidates) cf.entries
ShrinksIn f (err e) = Unit

abbrev pub ShrinksAll : (Candidate → Candidate) → Store → Type 0
ShrinksAll f st = (network : Text) (a : Address) → ShrinksIn f (held st network a)

pub Lowered-refl : (now : Instant) (st : Store) → Lowered now st st
Lowered-refl now st n a = omega arith

change_entry-le :
    (id : Text) (f : Candidate → Candidate) (cf : CounterFile) (now : Instant)
    → ShrinksIn f (ok cf)
    → sum_window (change_entry id f cf) now ≤ sum_window cf now
unfolding sum_window change_entry
change_entry-le id f cf now h = sum-update_primary now (λ e. text_eq e.id id) f cf.entries h

change_found-Lowers :
    (env : Env) (r : Reservation) (now : Instant) (f : Candidate → Candidate) (id : Text)
    (cf : CounterFile) (o : Option Entry) (w : Option Error) (st : Store)
    → w ≡ env.counter_write
    → held st r.network r.account ≡ ok cf
    → ShrinksIn f (ok cf)
    → Lowered now st (change_found env r now f id cf o st).1
unfolding change_found write_counter save_counter
change_found-Lowers env r now f id cf none w st q holds h = Lowered-refl now st
change_found-Lowers env r now f id cf (some x) none st q holds h =
    subst
      (λ w.
        Lowered now st
          ((expect w >>= λ _. save_counter r.network r.account (change_entry id f cf) now) st).1)
      q
      (written-Lowered st r.network r.account cf (change_entry id f cf) now holds
        (change_entry-le id f cf now h))
change_found-Lowers env r now f id cf (some x) (some e) st q holds h =
    subst
      (λ w.
        Lowered now st
          ((expect w >>= λ _. save_counter r.network r.account (change_entry id f cf) now) st).1)
      q (Lowered-refl now st)

loaded-Lowers :
    (env : Env) (r : Reservation) (now : Instant) (f : Candidate → Candidate) (id : Text)
    (st : Store) (x : Result Error CounterFile)
    → held st r.network r.account ≡ x
    → ShrinksIn f x
    → Lowered now st (after (λ cf. change_found env r now f id cf (find_entry cf id)) (x, st)).1
loaded-Lowers env r now f id st (ok cf) holds h =
    change_found-Lowers env r now f id cf (find_entry cf id) env.counter_write st refl holds h
loaded-Lowers env r now f id st (err e) holds h = Lowered-refl now st

locked-Lowers :
    (env : Env) (r : Reservation) (now : Instant) (f : Candidate → Candidate) (id : Text)
    (st : Store) (o : Option Error)
    → ShrinksAll f st
    → Lowered now st
        ((expect o >>= λ _. load_counter r.network r.account >>= λ cf.
            change_found env r now f id cf (find_entry cf id))
          st).1
unfolding load_counter
locked-Lowers env r now f id st none h =
    loaded-Lowers env r now f id st (held st r.network r.account) refl (h r.network r.account)
locked-Lowers env r now f id st (some e) h = Lowered-refl now st

pub if_Lowers :
    (now : Instant) (b : Bool) (m k : Action (Unit {0})) (st : Store)
    → Lowered now st (m st).1
    → Lowered now st (k st).1
    → Lowered now st ((if b then m else k) st).1
if_Lowers now true m k st hm hk = hm
if_Lowers now false m k st hm hk = hk

counter_of-Lowers :
    (env : Env) (id : Text) (now : Instant) (f : Candidate → Candidate) (o : Option Reservation)
    (st : Store)
    → ShrinksAll f st
    → Lowered now st (counter_of env id now f o st).1
unfolding counter_of change_counter
counter_of-Lowers env id now f none st h = Lowered-refl now st
counter_of-Lowers env id now f (some r) st h =
    if_Lowers now (text_eq r.account zero_address) (pure tt) (change_counter env r now f id) st
      (Lowered-refl now st) (locked-Lowers env r now f id st env.net_lock h)

pub counter_transition-Lowered :
    (env : Env) (id : Text) (now : Instant) (f : Candidate → Candidate) (st : Store)
    → ShrinksAll f st
    → Lowered now st (counter_transition env id now f st).1
unfolding counter_transition lookup
counter_transition-Lowered env id now f st h =
    if_Lowers now (is_empty id) (pure tt) (lookup env id >>= counter_of env id now f) st
      (Lowered-refl now st) (counter_of-Lowers env id now f _ st h)
