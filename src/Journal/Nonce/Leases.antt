-- ===== src/Journal/Nonce/Leases.antt =====
-- Leases and the journal together (AcquireNonce, Commit, Release and ResetCache of
-- internal/journal/nonce.go, with Append of store.go).
use daxie.Prelude.{
  ℕ, ◌+◌, ◌≡◌, ◌≤◌, ◌<◌, refl, sym, ap, ◌∙◌, inl, inr, Bool, true, false, ◌&&◌, Bool-cases, Option,
  none, some, [], ◌∷◌, All, arith, if◌then◌else◌, false≢true, get_or, ltb,
}
use daxie.Prelude.Results.{Result, ok, err, ok-injective, err-ne-ok}
use daxie.Prelude.Text.{Text, text_eq, text_eq_refl}
use daxie.Journal.Record.{Record, consumes_nonce}
use daxie.Journal.Fold.{fold_latest, find_id-fold_latest, max_seq}
use daxie.Journal.Store.{
  File, Fault, state_corrupt, lock_timeout, Env, u64, records, append, stamp, next_seq,
}
use daxie.Journal.Store.Outcomes.{view}
use daxie.Journal.Store.Refinement.{Updates, done, unsure, unchanged, append-Updates}
use daxie.Journal.Nonce.{
  Account, NonceEnv, cached, Lease, next_of, max_u64, acquire, commit, release, reset_cache,
  journal_next, write_cache, always_unlock, after, unlock,
}
use daxie.Journal.Nonce.Loop.{All-fold_latest, next_of-lt}
use daxie.Journal.Nonce.Derivation.{
  max_u64-le, cached_next, journal_tally, derived, chosen, Gives, gives, fails, Acquires, leased,
  refused, acquire-Acquires, enter-elim, journal_next-Gives,
}

-- ── inversion ──

leased-eq :
    {st : Account} {n : ℕ} {out : Result Fault Lease × Account}
    → Acquires st n out
    → (l : Lease) (s : Account) → out ≡ (ok l, s)
    → (l.nonce ≡ n) × (l.finished ≡ false) × (s ≡ record st { locked = true })
leased-eq (leased x t e free h) l s eq =
    let same = ok-injective x l (ap (λ p. p.0) eq) in
    (
      ap (λ (y : Lease). y.nonce) (sym same ∙ e),
      ap (λ (y : Lease). y.finished) (sym same ∙ e),
      sym (ap (λ p. p.1) eq) ∙ h,
    )
leased-eq (refused e t h) l s eq = absurd (err-ne-ok e l (ap (λ p. p.0) eq))

module _ (to_address : Text → Text) (env : NonceEnv) (addr : Text) (pending : ℕ) (st : Account)
    (l : Lease) (s : Account)
    (acquired : acquire to_address env addr pending none st ≡ (ok l, s)) where
  lease_nonce : l.nonce ≡ derived to_address env addr pending st
  lease_nonce = (leased-eq (acquire-Acquires to_address env addr pending none st) l s acquired).0

  pub acquire-fresh :
      (id : Text) (r : Record)
      → All (λ (x : Record). x.nonce + 1 < u64) (records st.journal.lines)
      → view st.journal id ≡ some r
      → text_eq (to_address r.from) addr && consumes_nonce r.status ≡ true
      → (pending ≤ l.nonce)
        × (cached_next st.cache ≤ l.nonce)
        × (r.nonce < l.nonce)
        × (s ≡ record st { locked = true })
  unfolding view
  acquire-fresh id r b v t =
      let top = max_u64-le 0 (
        pending
        ∷ cached_next st.cache
        ∷ next_of to_address (journal_tally to_address env addr st)
        ∷ []) in
      let lt =
        next_of-lt to_address addr (fold_latest (records st.journal.lines)) id r
          (All-fold_latest (λ (x : Record). x.nonce + 1 < u64) (records st.journal.lines) b)
          (find_id-fold_latest id (records st.journal.lines) ∙ v) t in
      (
        omega (arith, lease_nonce),
        omega (arith, lease_nonce),
        omega (arith, lease_nonce),
        (leased-eq (acquire-Acquires to_address env addr pending none st) l s acquired).2,
      )

-- ── one holder at a time ──

held-refuses :
    (to_address : Text → Text) (env : NonceEnv) (addr : Text) (pending : ℕ) (forced : Option ℕ)
    (st : Account)
    → st.locked ≡ true
    → (e : Fault) × (acquire to_address env addr pending forced st ≡ (err e, st))
held-refuses to_address env addr pending forced st held =
    refusal (acquire to_address env addr pending forced st)
      (acquire-Acquires to_address env addr pending forced st)
  where
    refusal :
        (out : Result Fault Lease × Account)
        → Acquires st (chosen to_address env addr pending forced st) out
        → (e : Fault) × (out ≡ (err e, st))
    refusal _ (leased l s e free h) = absurd (false≢true (sym free ∙ held))
    refusal _ (refused e s h) = (e, ap (λ t. (err e, t)) h)

-- While a lease is out every other acquisition fails and changes nothing, whatever it pins or derives,
-- and finishing the lease by a commit, also one whose cache write fails, or by a release frees the lock.
pub lease_excludes :
    (to_address : Text → Text) (env env' : NonceEnv) (addr : Text) (pending pending' : ℕ)
    (forced forced' : Option ℕ) (st : Account) (l : Lease) (s : Account)
    → acquire to_address env addr pending forced st ≡ (ok l, s)
    → ((e : Fault) × (acquire to_address env' addr pending' forced' s ≡ (err e, s)))
      × ((commit env' l s).1.1.locked ≡ false)
      × ((release l s).1.1.locked ≡ false)
unfolding commit release
lease_excludes to_address env env' addr pending pending' forced forced' st l s got =
    let h = leased-eq (acquire-Acquires to_address env addr pending forced st) l s got in
    (
      held-refuses to_address env' addr pending' forced' s (ap (λ (t : Account). t.locked) h.2),
      rw h.1 refl,
      rw h.1 refl,
    )

-- ── a journaled nonce is not given out again ──

appended-view :
    {m : Text → Option Record} {id : Text} {r x : Record} {out : Result Fault Record × File}
    {f : File}
    → Updates m id r r out
    → out ≡ (ok x, f)
    → (x ≡ r) × (view f id ≡ some r)
appended-view {id} (done y g e h) eq = (
  sym (ok-injective y _ (ap (λ p. p.0) eq)) ∙ e,
  ap (λ p. view p.1 id) (sym eq) ∙ h id ∙ rw (text_eq_refl id) refl,
)
appended-view (unsure e g h) eq = absurd (err-ne-ok e _ (ap (λ p. p.0) eq))
appended-view (unchanged e g h) eq = absurd (err-ne-ok e _ (ap (λ p. p.0) eq))

-- After an append that succeeded, every acquisition that derives its nonce from that journal gives a
-- larger nonce than the one journaled, whatever the chain and the cache say, provided the record is
-- one of the account and not a failed one, the sequence number fits 64 bits and the journaled nonces
-- leave room in 64 bits.
pub appended-never_reused :
    (to_address : Text → Text) (env : Env) (fresh : Option Text) (now : Text) (r x : Record)
    (file f : File) (nonces : NonceEnv) (addr : Text) (pending : ℕ) (st : Account) (l : Lease)
    (s : Account)
    → max_seq 0 (records file.lines) + 1 < u64
    → append env fresh now r file ≡ (ok x, f)
    → st.journal ≡ f
    → All (λ (y : Record). y.nonce + 1 < u64) (records st.journal.lines)
    → text_eq (to_address r.from) addr && consumes_nonce r.status ≡ true
    → acquire to_address nonces addr pending none st ≡ (ok l, s)
    → r.nonce < l.nonce
unfolding stamp
appended-never_reused to_address env fresh now r x file f nonces addr pending st l s b w j n t got =
    let v = appended-view (append-Updates env fresh now r file b) w in
    (acquire-fresh to_address nonces addr pending st l s got
      (stamp (get_or fresh []) now (next_seq (records file.lines)) r).id
      (stamp (get_or fresh []) now (next_seq (records file.lines)) r) n
      (ap (λ g. view g (stamp (get_or fresh []) now (next_seq (records file.lines)) r).id) j ∙ v.1)
      t).2

-- ── the escape hatch ──

data Lowers (st : Account) (n : ℕ) : Result Fault (Unit {0}) × Account → Type 0 where
  lowers :
      (x : Unit {0}) (s : Account)
      → s ≡ record st { cache = cached n; locked = false }
      → Lowers st n (ok x, s)
  stuck : (e : Fault) (s : Account) → Lowers st n (err e, s)

write-Lowers :
    (env : NonceEnv) (st : Account) (n : ℕ) (out : Result Fault (ℕ × Bool) × Account) (flag : Bool)
    → Gives (record st { locked = true }) (n, flag) out
    → Lowers st n (always_unlock (after (λ next. write_cache env next.0) out))
unfolding write_cache
write-Lowers env st n _ flag (fails e s h) = stuck e (unlock s)
write-Lowers env st n _ flag (gives x s e h) = elim (Bool-cases env.cache_write_fails) [
  | inl bad ↦ rw bad (stuck state_corrupt (unlock s))
  | inr good ↦ rw good (
      lowers tt _ (
        ap (λ (t : Account). record t { cache = cached x.0; locked = false }) h
        ∙ ap (λ (p : ℕ × Bool). record st { cache = cached p.0; locked = false }) e))
]

module _ (to_address : Text → Text) (env : NonceEnv) (addr : Text) where
  reset_cache-Lowers :
      (st : Account)
      → Lowers st
          (next_of to_address (journal_tally to_address env addr st))
          (reset_cache to_address env addr st)
  unfolding reset_cache
  reset_cache-Lowers st =
      enter-elim (Lowers st (next_of to_address (journal_tally to_address env addr st))) _ st env
        (stuck state_corrupt st) (stuck lock_timeout st)
        λ free.
          write-Lowers env st (next_of to_address (journal_tally to_address env addr st))
            (journal_next to_address env addr (record st { locked = true }))
            (journal_tally to_address env addr st).in_flight
            (journal_next-Gives to_address env addr (record st { locked = true }))

lowered :
    {st : Account} {n : ℕ} {out : Result Fault (Unit {0}) × Account}
    → Lowers st n out
    → (s : Account) → out ≡ (ok tt, s)
    → s ≡ record st { cache = cached n; locked = false }
lowered (lowers x t h) s eq = sym (ap (λ p. p.1) eq) ∙ h
lowered (stuck e t) s eq = absurd (err-ne-ok e tt (ap (λ p. p.0) eq))

abbrev pub larger : ℕ → ℕ → ℕ
larger a b = if ltb a b then b else a

-- After a reset of the cache that succeeded, the next derived nonce is the larger one of the pending
-- nonce of the chain and the next nonce of the journal, so a nonce that the cache alone held back is
-- free again.
pub reset_cache-frees :
    (to_address : Text → Text) (env env' : NonceEnv) (addr : Text) (pending : ℕ) (st s : Account)
    (l : Lease) (t : Account)
    → reset_cache to_address env addr st ≡ (ok tt, s)
    → acquire to_address env' addr pending none s ≡ (ok l, t)
    → l.nonce ≡ larger pending (next_of to_address (journal_tally to_address env addr st))
unfolding max_u64
reset_cache-frees to_address env env' addr pending st s l t reset got =
    lease_nonce to_address env' addr pending s l t got
    ∙ ap (derived to_address env' addr pending)
        (lowered (reset_cache-Lowers to_address env addr st) s reset)
    ∙ ground arith
