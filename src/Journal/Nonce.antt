-- ===== src/Journal/Nonce.antt =====
-- The nonces of one account on one chain (internal/journal/nonce.go). `to_address` stands for
-- HexToAddress of go-ethereum.
pub mod Loop
pub mod Derivation
pub mod Leases
use daxie.Prelude.{
  ℕ, ◌+◌, ◌%◌, Bool, true, false, not, ◌&&◌, ◌||◌, Option, none, some, List, [], ◌∷◌, ltb, leb,
  if◌then◌else◌,
}
use daxie.Prelude.Results.{Result, ok, err}
use daxie.Prelude.Text.{Text, text_eq}
use daxie.Journal.Record.{Record, Status, is_terminal, consumes_nonce}
use daxie.Journal.Store.{File, Fault, state_corrupt, lock_timeout, Env, u64}
use daxie.Journal.Queries.{read}

-- The cache file: absent, no JSON, or the next nonce.
pub data Cache : Type 0 where
  missing unreadable : Cache
  cached : ℕ → Cache

-- The files of the account and its lock, whether somebody holds it.
pub record Account : Type 0 where
  pub journal : File
  pub cache : Cache
  pub locked : Bool

-- What the file system answers, with `store` for the reads of the journal; `false` is success.
pub record NonceEnv : Type 0 where
  pub dirs_fail : Bool
  pub lock_fails : Bool
  pub cache_read_fails : Bool
  pub cache_write_fails : Bool
  pub store : Env

abbrev pub Step : Type 0 → Type 0
Step A = Account → Result Fault A × Account

abbrev pub after :
    {A B : Type 0} → (A → Step B) → Result Fault A × Account → Result Fault B × Account
after f (ok a, st) = f a st
after f (err e, st) = (err e, st)

infixl 5 ◌>>=◌ ◌>>◌
abbrev pub ◌>>=◌ : {A B : Type 0} → Step A → (A → Step B) → Step B
◌>>=◌ m f st = after f (m st)

abbrev pub ◌>>◌ : {B : Type 0} → Step (Unit {0}) → Step B → Step B
m >> k = m >>= λ _. k

abbrev pub pure : {A : Type 0} → A → Step A
pure a st = (ok a, st)

abbrev pub refuse : Bool → Fault → Step (Unit {0})
refuse false e st = (ok tt, st)
refuse true e st = (err e, st)

-- ── derivation ──

-- The variables of the loop of `journalNext`.
pub record Tally : Type 0 where
  pub max_nonce : ℕ
  pub seen : Bool
  pub in_flight : Bool

abbrev pub no_tally : Tally
no_tally = record { max_nonce = 0; seen = false; in_flight = false }

unfoldable pub count : Tally → Record → Tally
count t r = record {
  max_nonce = if leb t.max_nonce r.nonce then r.nonce else t.max_nonce;
  seen = true;
  in_flight = t.in_flight || not (is_terminal r.status);
}

-- The largest of the numbers.
unfoldable pub max_u64 : ℕ → List ℕ → ℕ
max_u64 m [] = m
max_u64 m (v ∷ vs) = max_u64 (if ltb m v then v else m) vs

-- `readCache`: an absent cache is a next nonce of 0.
unfoldable pub parse_cache : Cache → Result Fault ℕ
parse_cache missing = ok 0
parse_cache unreadable = err state_corrupt
parse_cache (cached n) = ok n

unfoldable pub read_cache : NonceEnv → Step ℕ
unfolding parse_cache
read_cache env = refuse env.cache_read_fails state_corrupt >> λ st. (parse_cache st.cache, st)

unfoldable pub write_cache : NonceEnv → ℕ → Step (Unit {0})
write_cache env n =
    refuse env.cache_write_fails state_corrupt >> λ st. (ok tt, record st { cache = cached n })

-- The journal as a part of the account.
abbrev pub on_journal : {A : Type 0} → Result Fault A × File → Account → Result Fault A × Account
on_journal (res, f) st = (res, record st { journal = f })

-- What a caller has of the lock: `Lease`.
pub record Lease : Type 0 where
  pub nonce : ℕ
  pub finished : Bool

-- The account lock, which one holder has at a time.
unfoldable pub take_lock : NonceEnv → Step (Unit {0})
take_lock env st =
    if st.locked || env.lock_fails
    then (err lock_timeout, st)
    else (ok tt, record st { locked = true })

abbrev pub unlock : Account → Account
unlock st = record st { locked = false }

-- An error after the lock was taken frees it.
abbrev pub unlock_on_error : {A : Type 0} → Result Fault A × Account → Result Fault A × Account
unlock_on_error (ok a, st) = (ok a, st)
unlock_on_error (err e, st) = (err e, unlock st)

-- A deferred unlock.
abbrev pub always_unlock : {A : Type 0} → Result Fault A × Account → Result Fault A × Account
always_unlock (res, st) = (res, unlock st)

module _ (to_address : Text → Text) where
  unfoldable pub tally : Text → Tally → List Record → Tally
  unfolding count
  tally addr t [] = t
  tally addr t (r ∷ rs) =
      tally addr
        (if text_eq (to_address r.from) addr && consumes_nonce r.status then count t r else t) rs

  abbrev pub next_of : Tally → ℕ
  next_of t = if t.seen then (t.max_nonce + 1) % u64 else 0

  -- `journalNext`: the next nonce, and whether a record is in flight.
  unfoldable pub journal_next : NonceEnv → Text → Step (ℕ × Bool)
  unfolding tally read
  journal_next env addr = (λ st. on_journal (read env.store st.journal) st) >>= λ latest.
      pure (next_of (tally addr no_tally latest), (tally addr no_tally latest).in_flight)

  -- `NextNonce`
  unfoldable pub next_nonce : NonceEnv → Text → ℕ → Step ℕ
  unfolding journal_next read_cache max_u64
  next_nonce env addr pending = journal_next env addr >>= λ next.
      read_cache env >>= λ cache. pure (max_u64 0 (pending ∷ cache ∷ next.0 ∷ []))

  -- A pinned nonce bypasses the derivation.
  unfoldable pub choose : NonceEnv → Text → ℕ → Option ℕ → Step ℕ
  unfolding next_nonce
  choose env addr pending (some n) = pure n
  choose env addr pending none = next_nonce env addr pending

  -- `AcquireNonce`, without the warning that it may print.
  unfoldable pub acquire : NonceEnv → Text → ℕ → Option ℕ → Step Lease
  unfolding choose take_lock
  acquire env addr pending forced = refuse env.dirs_fail state_corrupt >> take_lock env >> λ st.
      unlock_on_error
        ((choose env addr pending forced >>= λ n. pure (record { nonce = n; finished = false })) st)

  -- `ResetCache`
  unfoldable pub reset_cache : NonceEnv → Text → Step (Unit {0})
  unfolding take_lock journal_next write_cache
  reset_cache env addr = refuse env.dirs_fail state_corrupt >> take_lock env >> λ st.
      always_unlock ((journal_next env addr >>= λ next. write_cache env next.0) st)

-- `Commit`, which returns the lease as it is afterwards.
unfoldable pub commit : NonceEnv → Lease → Account → Lease × (Result Fault (Unit {0}) × Account)
unfolding write_cache
commit env l st =
    if l.finished
    then (l, (ok tt, st))
    else (record l { finished = true }, always_unlock (write_cache env ((l.nonce + 1) % u64) st))

-- `Release`
unfoldable pub release : Lease → Account → Lease × (Result Fault (Unit {0}) × Account)
release l st =
    if l.finished then (l, (ok tt, st)) else (record l { finished = true }, (ok tt, unlock st))
