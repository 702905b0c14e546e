-- ===== src/Journal/Nonce/Derivation.antt =====
-- What the derivation of a nonce guarantees (`journalNext`, `NextNonce` and AcquireNonce of
-- internal/journal/nonce.go).
use daxie.Prelude.{
  ℕ, ◌≡◌, ◌≤◌, refl, sym, ap, ◌∙◌, inl, inr, Bool, true, false, ◌||◌, Bool-cases, Option, none,
  some, List, [], ◌∷◌, All, arith, if◌then◌else◌, ltb, get_or,
}
use daxie.Prelude.Results.{Result, ok, err}
use daxie.Prelude.Text.{Text}
use daxie.Journal.Record.{Record}
use daxie.Journal.Fold.{fold_latest}
use daxie.Journal.Store.{File, Fault, state_corrupt, lock_timeout, records}
use daxie.Journal.Queries.{read}
use daxie.Journal.Queries.Latest.{Reads, read-Reads}
use daxie.Journal.Nonce.{
  Cache, missing, unreadable, cached, Account, NonceEnv, Step, after, refuse, Tally, no_tally,
  max_u64, read_cache, parse_cache, unlock, on_journal, Lease, take_lock, unlock_on_error, tally,
  next_of, ◌>>◌, journal_next, next_nonce, choose, acquire,
}

-- A step that changes nothing, and gives this value or an error.
pub data Gives {A : Type 0} (st : Account) (a : A) : Result Fault A × Account → Type 0 where
  gives : (x : A) (s : Account) → x ≡ a → s ≡ st → Gives st a (ok x, s)
  fails : (e : Fault) (s : Account) → s ≡ st → Gives st a (err e, s)

Gives-after :
    {A B : Type 0} {st : Account} {a : A} {b : B} (f : A → Step B) (out : Result Fault A × Account)
    → Gives st a out
    → Gives st b (f a st)
    → Gives st b (after f out)
Gives-after f _ (gives x s e h) k = rw (e, h) k
Gives-after f _ (fails e s h) k = fails e s h

-- ── the whole derivation ──

pub max_u64-le : (m : ℕ) (vs : List ℕ) → (m ≤ max_u64 m vs) × All (λ (v : ℕ). v ≤ max_u64 m vs) vs
unfolding max_u64
max_u64-le m [] = (omega arith, tt)
max_u64-le m (v ∷ vs) =
    let r = max_u64-le (if ltb m v then v else m) vs in (ground arith, (ground arith, r.1))

-- What the cache file says, or 0 where it cannot be read.
abbrev pub cached_next : Cache → ℕ
cached_next missing = 0
cached_next unreadable = 0
cached_next (cached n) = n

parse_cache-Gives : (st : Account) (c : Cache) → Gives st (cached_next c) (parse_cache c, st)
unfolding parse_cache
parse_cache-Gives st missing = gives 0 st refl refl
parse_cache-Gives st unreadable = fails state_corrupt st refl
parse_cache-Gives st (cached n) = gives n st refl refl

read_cache-Gives :
    (env : NonceEnv) (st : Account) → Gives st (cached_next st.cache) (read_cache env st)
unfolding read_cache
read_cache-Gives env st = elim (Bool-cases env.cache_read_fails) [
  | inl bad ↦ rw bad (fails state_corrupt st refl)
  | inr good ↦ rw good (parse_cache-Gives st st.cache)
]

on_journal-Gives :
    (st : Account) (rs : List Record) (out : Result Fault (List Record) × File)
    → Reads st.journal rs out
    → Gives st rs (on_journal out st)
on_journal-Gives st rs _ (Reads.reads xs f e h) =
    gives xs (record st { journal = f }) e (ap (λ j. record st { journal = j }) h)
on_journal-Gives st rs _ (Reads.fails e f h) =
    fails e (record st { journal = f }) (ap (λ j. record st { journal = j }) h)

module _ (to_address : Text → Text) (env : NonceEnv) (addr : Text) where
  -- What the journal says.
  abbrev pub journal_tally : Account → Tally
  journal_tally st = tally to_address addr no_tally (fold_latest (records st.journal.lines))

  pub journal_next-Gives :
      (st : Account)
      → Gives st
          (next_of to_address (journal_tally st), (journal_tally st).in_flight)
          (journal_next to_address env addr st)
  unfolding journal_next
  journal_next-Gives st =
      Gives-after _ (on_journal (read env.store st.journal) st)
        (on_journal-Gives st (fold_latest (records st.journal.lines)) (read env.store st.journal)
          (read-Reads env.store st.journal))
        (gives _ st refl refl)

  -- The largest of the pending nonce, the cache and the journal.
  abbrev pub derived : ℕ → Account → ℕ
  derived pending st =
      max_u64 0 (pending ∷ cached_next st.cache ∷ next_of to_address (journal_tally st) ∷ [])

  next_nonce-Gives :
      (pending : ℕ) (st : Account)
      → Gives st (derived pending st) (next_nonce to_address env addr pending st)
  unfolding next_nonce
  next_nonce-Gives pending st =
      Gives-after _ (journal_next to_address env addr st) (journal_next-Gives st)
        (Gives-after _ (read_cache env st) (read_cache-Gives env st) (gives _ st refl refl))

  abbrev pub chosen : ℕ → Option ℕ → Account → ℕ
  chosen pending forced st = get_or forced (derived pending st)

  choose-Gives :
      (pending : ℕ) (forced : Option ℕ) (st : Account)
      → Gives st (chosen pending forced st) (choose to_address env addr pending forced st)
  unfolding choose
  choose-Gives pending (some n) st = gives n st refl refl
  choose-Gives pending none st = next_nonce-Gives pending st

-- ── the lease ──

-- An acquisition hands out a lease and holds the lock, or fails and leaves everything as it is.
pub data Acquires (st : Account) (n : ℕ) : Result Fault Lease × Account → Type 0 where
  leased :
      (l : Lease) (s : Account)
      → l ≡ record { nonce = n; finished = false }
      → st.locked ≡ false
      → s ≡ record st { locked = true }
      → Acquires st n (ok l, s)
  refused : (e : Fault) (s : Account) → s ≡ st → Acquires st n (err e, s)

unlock-Acquires :
    (st : Account) (n : ℕ) (out : Result Fault Lease × Account)
    → st.locked ≡ false
    → Gives (record st { locked = true }) (record { nonce = n; finished = false }) out
    → Acquires st n (unlock_on_error out)
unlock-Acquires st n _ free (gives l s e h) = leased l s e free h
unlock-Acquires st n _ free (fails e s h) =
    refused e (unlock s) (ap unlock h ∙ ap (λ b. record st { locked = b }) (sym free))

locked-false : (a b : Bool) → (a || b) ≡ false → a ≡ false
locked-false a b h = ground arith

module _ {A : Type 0} (P : Result Fault A × Account → Type 0) (body : Step A) (st : Account) where
  -- What holds of both refusals and of the body, with the lock taken, holds of the whole.
  pub enter-elim :
      (env : NonceEnv)
      → P (err state_corrupt, st)
      → P (err lock_timeout, st)
      → (st.locked ≡ false → P (body (record st { locked = true })))
      → P ((refuse env.dirs_fail state_corrupt >> take_lock env >> body) st)
  unfolding take_lock
  enter-elim env h k l = elim (Bool-cases env.dirs_fail) [
    | inl bad ↦ rw bad h
    | inr good ↦ rw good (elim (Bool-cases (st.locked || env.lock_fails)) [
      | inl held ↦ rw held k
      | inr free ↦ rw free (l (locked-false st.locked env.lock_fails free))
    ])
  ]

module _ (to_address : Text → Text) (env : NonceEnv) (addr : Text) where
  pub acquire-Acquires :
      (pending : ℕ) (forced : Option ℕ) (st : Account)
      → Acquires st
          (chosen to_address env addr pending forced st)
          (acquire to_address env addr pending forced st)
  unfolding acquire
  acquire-Acquires pending forced st =
      enter-elim (Acquires st (chosen to_address env addr pending forced st)) _ st env
        (refused state_corrupt st refl) (refused lock_timeout st refl)
        λ free. unlock-Acquires st (chosen to_address env addr pending forced st) _ free (
          Gives-after _ (choose to_address env addr pending forced (record st { locked = true }))
            (choose-Gives to_address env addr pending forced (record st { locked = true }))
            (gives _ _ refl refl))
